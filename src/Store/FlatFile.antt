-- ===== src/Store/FlatFile.antt =====
-- irohad/ametsuchi/impl/flat_file/flat_file.cpp: a file for each block, named by its height. The
-- files can be created, written and read; what `scandir` lists is an argument.
pub mod Blocks
pub mod Consistency
use iroha.Prelude.{
  ◌≡◌, ℕ, zero, suc, ◌+◌, ◌*◌, ◌/◌, ◌%◌, ◌^◌, ◌-◌, Bool, true, false, List, [], ◌∷◌, ◌++◌, map,
  Option, none, some, if◌then◌else◌, Blob, blob_discrete, ◌=ᵇ◌, is_some, leb, ltb, ◌&&◌, ◌||◌, ◌==◌,
  ◌>>=◌,
}
use mathlib.Core.Option

abbrev pub File : Type 0
File = Blob × Blob

pub record FlatFile : Type 0 where
  pub current_id : ℕ
  pub files : List File

-- `"%0…u"`, for a number that has no more digits than that.
unfoldable pub digits : ℕ → ℕ → Blob
digits zero n = []
digits (suc k) n = digits k (n / 10) ++ (b'0' + n % 10) ∷ []

abbrev pub id_to_name : ℕ → Blob
id_to_name id = digits 16 id

-- The number that the digits up to the first other byte write.
unfoldable pub parse : ℕ → Blob → ℕ
parse n [] = n
parse n (c ∷ s) =
    let rest = parse (10 * n + (c - b'0')) s in if leb b'0' c && leb c b'9' then rest else n

unfoldable pub skip_spaces : Blob → Blob
skip_spaces [] = []
skip_spaces (c ∷ s) =
    let rest = skip_spaces s in if c == 32 || leb 9 c && leb c 13 then rest else c ∷ s

-- `none` where there is no digit, or the number is out of the range of an `unsigned long`.
unfoldable pub unsigned : Blob → Option ℕ
unfolding parse
unsigned [] = none
unsigned (c ∷ s) =
    let n = parse 0 (c ∷ s) in if leb b'0' c && leb c b'9' && ltb n (2 ^ 64) then some n else none

-- A minus negates mod 2^64.
unfoldable pub with_sign : Blob → Option ℕ
unfolding unsigned
with_sign [] = none
with_sign (c ∷ s) =
    if c == b'-'
    then (unsigned s >>= λ n. some ((2 ^ 64 - n) % 2 ^ 64))
    else if c == b'+'
    then unsigned s
    else unsigned (c ∷ s)

-- `std::stoul`, `none` where it throws, and cut off to 32 bits.
unfoldable pub name_to_id : Blob → Option ℕ
unfolding skip_spaces with_sign
name_to_id name = with_sign (skip_spaces name) >>= λ n. some (n % 2 ^ 32)

unfoldable pub find_file : Blob → List File → Option Blob
find_file name [] = none
find_file name (f ∷ fs) = if name =ᵇ f.0 then some f.1 else find_file name fs

unfoldable pub file_exist : Blob → List File → Bool
unfolding find_file
file_exist name fs = is_some (find_file name fs)

unfoldable pub add : ℕ → Blob → FlatFile → FlatFile
unfolding file_exist
add id block s =
    if file_exist (id_to_name id) s.files
    then s
    else record { current_id = id; files = s.files ++ (id_to_name id, block) ∷ [] }

unfoldable pub get : ℕ → FlatFile → Option Blob
unfolding find_file
get id s = find_file (id_to_name id) s.files

abbrev pub last_id : FlatFile → ℕ
last_id s = s.current_id

-- The loop over the names that `scandir` lists, less `.` and `..`: the last id, and the names of the
-- files that are removed; `none` where `name_to_id` throws.
unfoldable pub check_names : ℕ → List Blob → Option (ℕ × List Blob)
unfolding digits name_to_id
check_names tmp_id [] = some (tmp_id, [])
check_names tmp_id (name ∷ names) =
    if id_to_name tmp_id =ᵇ name
    then (name_to_id name >>= λ id. check_names id names)
    else some (tmp_id, name ∷ names)

-- A file that is not there is reported, and nothing else.
unfoldable pub remove : ℕ → List File → List File
remove id [] = []
remove id (f ∷ fs) = let rest = remove id fs in if id_to_name id =ᵇ f.0 then rest else f ∷ rest

-- The loop that removes: `false` where `name_to_id` throws, and the files that are left.
unfoldable pub remove_all : List Blob → List File → Bool × List File
unfolding name_to_id remove
remove_all [] fs = (true, fs)
remove_all (name ∷ names) fs = elim (name_to_id name) [
  | none ↦ (false, fs)
  | some id ↦ remove_all names (remove id fs)
]

-- `none` for an exception, `some none` for `nullopt`, and the files that are left. The names are
-- those that `scandir` lists, `none` where it fails or the path is empty.
unfoldable pub check_consistency : Option (List Blob) → List File → Option (Option ℕ) × List File
unfolding check_names remove_all
check_consistency none fs = (some none, fs)
check_consistency (some []) fs = (some (some 0), fs)
check_consistency (some (name ∷ names)) fs = elim (check_names 1 (name ∷ names)) [
  | none ↦ (none, fs)
  | some checked ↦
      let removed = remove_all checked.1 fs in
      (if removed.0 then some (some checked.0) else none, removed.1)
]

-- `none` for an exception, `some none` for `nullptr`, and the files that are left.
unfoldable pub create : Option (List Blob) → List File → Option (Option FlatFile) × List File
unfolding check_consistency
create listed fs =
    let (checked, left) = check_consistency listed fs in
    let open_store : ℕ → FlatFile = λ id. record { current_id = id; files = left } in
    (Option.map (Option.map open_store) checked, left)
