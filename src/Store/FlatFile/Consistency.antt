-- ===== src/Store/FlatFile/Consistency.antt =====
-- What opening a block store keeps of it.
use iroha.Prelude.{
  ◌≡◌, refl, ℕ, ◌^◌, ◌<◌, true, false, List, [], ◌∷◌, map, none, some, Blob, blob_discrete, ◌=ᵇ◌,
  ◌==◌, contains, All, arith, ◌∙◌, ℕ_discrete, if◌then◌else◌,
}
use iroha.Store.FlatFile.{
  FlatFile, File, id_to_name, find_file, check_names, remove, remove_all, check_consistency, create,
  get, last_id,
}
use iroha.Store.FlatFile.Blocks.{name_to_id-id_to_name, id_to_name-injective}

abbrev AreHeights : List ℕ → Type 0
AreHeights ids = All (λ id. id < 2 ^ 32) ids

contains-id_to_name :
    (id : ℕ) (ids : List ℕ)
    → id < 2 ^ 32
    → AreHeights ids
    → contains blob_discrete (id_to_name id) (map id_to_name ids) ≡ contains ℕ_discrete id ids
unfolding contains
contains-id_to_name id [] h k = refl
contains-id_to_name id (x ∷ ids) h k =
    let same = id_to_name-injective id x h k.0 in
    ground (arith, same, contains-id_to_name id ids h k.1)

-- After the first name, no other name fits: the id that is asked for is still 1.
check_names-stops :
    (names : List Blob)
    → contains blob_discrete (id_to_name 1) names ≡ false
    → check_names 1 names ≡ some (1, names)
unfolding check_names contains
check_names-stops [] h = refl
check_names-stops (name ∷ names) h = ground arith

check_names-first :
    (names : List Blob)
    → contains blob_discrete (id_to_name 1) names ≡ false
    → check_names 1 (id_to_name 1 ∷ names) ≡ some (1, names)
unfolding check_names
check_names-first names h =
    let same : (id_to_name 1 =ᵇ id_to_name 1) ≡ true = ground arith in
    rw same (check_names-stops names h)

find_file-remove :
    (other id : ℕ) (fs : List File)
    → other < 2 ^ 32
    → id < 2 ^ 32
    → find_file (id_to_name other) (remove id fs)
      ≡ (if other == id then none else find_file (id_to_name other) fs)
unfolding find_file remove
find_file-remove other id [] h k = ground arith
find_file-remove other id (f ∷ fs) h k =
    let same = id_to_name-injective other id h k in
    ground (arith, same, find_file-remove other id fs h k)

-- Files are removed by the heights that their names read as.
remove_all_files :
    (ids : List ℕ) (fs : List File) (other : ℕ)
    → AreHeights ids
    → other < 2 ^ 32
    → let (done, left) = remove_all (map id_to_name ids) fs in
      (done ≡ true)
      × (find_file (id_to_name other) left
          ≡ (if contains ℕ_discrete other ids then none else find_file (id_to_name other) fs))
unfolding remove_all contains
remove_all_files [] fs other h k = (refl, refl)
remove_all_files (id ∷ ids) fs other h k =
    rw (name_to_id-id_to_name id h.0, remove_all)
      (let rest = remove_all_files ids (remove id fs) other h.1 k in
        (rest.0, ground (arith, rest.1, find_file-remove other id fs k h.0)))

-- A block store in which the file of height 1 is listed first, and the files of other heights after
-- it, is opened without an exception, but all those other files are removed: the last id is 1, no
-- block of a listed height other than 1 can be read any more, and every other height of 32 bits has
-- what it had, the height 1 included.
pub create-keeps_one :
    (others : List ℕ) (files : List File)
    → AreHeights others
    → contains ℕ_discrete 1 others ≡ false
    → (s : FlatFile) × (create (some (map id_to_name (1 ∷ others))) files
        ≡ (some (some s), s.files))
      × (last_id s ≡ 1)
      × ((height : ℕ)
          → height < 2 ^ 32
          → get height s ≡ (
              if contains ℕ_discrete height others
              then none
              else find_file (id_to_name height) files))
unfolding create check_consistency get blob_discrete
create-keeps_one others files h n =
    let names = map id_to_name others in
    let first = check_names-first names (contains-id_to_name 1 others (omega arith) h ∙ n) in
    let removed = remove_all_files others files in
    (
      record { current_id = 1; files = (remove_all names files).1 },
      rw (first, (removed 1 h (omega arith)).0) refl,
      refl,
      λ height k. (removed height h k).1,
    )
