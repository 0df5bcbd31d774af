-- ===== src/Store/Tests.antt =====
-- A block store of two blocks.
use iroha.Prelude.{
  ◌≡◌, refl, ℕ, false, map, ◌<◌, ◌^◌, ℕ_discrete, List, [], ◌∷◌, none, some, Blob, blob_discrete,
  contains, arith, is_some, ◌==◌, if◌then◌else◌,
}
use iroha.Store.FlatFile.{
  FlatFile, File, digits, id_to_name, name_to_id, find_file, add, get, last_id, create,
}
use iroha.Store.FlatFile.Blocks.{get-add}
use iroha.Store.FlatFile.Consistency.{create-keeps_one}

abbrev one_block : FlatFile
one_block = record { current_id = 1; files = (id_to_name 1, 5 ∷ []) ∷ [] }

two_others : contains ℕ_discrete 1 (2 ∷ 3 ∷ []) ≡ false
unfolding contains ℕ_discrete
two_others = refl

get-add_example :
    (get 2 (add 2 (6 ∷ []) one_block) ≡ (
      if is_some (get 2 one_block)
      then get 2 one_block
      else if 2 == 2
      then some (6 ∷ [])
      else none))
    × (last_id (add 2 (6 ∷ []) one_block) ≡ (if is_some (get 2 one_block) then 1 else 2))
get-add_example = get-add 2 2 (6 ∷ []) one_block (omega arith) (omega arith)

abbrev three_files : List File
three_files = (id_to_name 1, 5 ∷ []) ∷ (id_to_name 2, 6 ∷ []) ∷ (id_to_name 3, 7 ∷ []) ∷ []

create-keeps_one_example :
    (s : FlatFile) × (create (some (map id_to_name (1 ∷ 2 ∷ 3 ∷ []))) three_files
      ≡ (some (some s), s.files))
    × (last_id s ≡ 1)
    × ((height : ℕ)
        → height < 2 ^ 32
        → get height s ≡ (
            if contains ℕ_discrete height (2 ∷ 3 ∷ [])
            then none
            else find_file (id_to_name height) three_files))
create-keeps_one_example =
    create-keeps_one (2 ∷ 3 ∷ []) three_files (omega arith, (omega arith, tt)) two_others

-- A name without digits throws, once an earlier one does not fit.
throws : create (some (id_to_name 1 ∷ (b'x' ∷ []) ∷ [])) three_files ≡ (none, three_files)
unfolding create digits blob_discrete name_to_id
throws = refl

abbrev short_name : Blob
short_name = b'2' ∷ []

-- A name that is not the one of its number keeps its file: the file of the number is removed.
keeps_short : create (some (id_to_name 1 ∷ short_name ∷ [])) ((short_name, 6 ∷ []) ∷ []) ≡ (
  some (some (record { current_id = 1; files = (short_name, 6 ∷ []) ∷ [] })),
  (short_name, 6 ∷ []) ∷ [],
)
unfolding create digits blob_discrete name_to_id
keeps_short = refl
