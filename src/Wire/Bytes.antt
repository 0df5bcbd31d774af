-- ===== src/Wire/Bytes.antt =====
-- `std::copy(s.begin(), s.end(), a.begin())` from a string to an array: `none` where it runs past
-- the end of the array, which C++ leaves undefined. What stood in the array stays behind a string
-- that is shorter.
use iroha.Prelude.{◌≡◌, refl, [], ◌∷◌, Option, none, some, Blob, length, arith, ◌>>=◌}

unfoldable pub copy : Blob → Blob → Option Blob
copy [] array = some array
copy (x ∷ s) [] = none
copy (x ∷ s) (a ∷ array) = do rest ← copy s array; some (x ∷ rest)

pub copy-all : (s array : Blob) → length s ≡ length array → copy s array ≡ some s
unfolding copy
copy-all [] [] h = refl
copy-all [] (a ∷ array) h = absurd (ground arith)
copy-all (x ∷ s) [] h = absurd (ground arith)
copy-all (x ∷ s) (a ∷ array) h =
    let rest : copy s array ≡ some s = copy-all s array (ground arith) in rw rest refl
