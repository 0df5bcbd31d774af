-- ===== src/Store/FlatFile/Blocks.antt =====
-- Names of blocks, and what is read back.
use iroha.Prelude.{
  ◌≡◌, refl, ℕ, zero, suc, ◌+◌, ◌*◌, ◌/◌, ◌%◌, ◌^◌, ◌-◌, ◌<◌, ◌≤◌, List, [], ◌∷◌, ◌++◌, none,
  if◌then◌else◌, Blob, ◌=ᵇ◌, is_some, arith, ap, sym, ◌∙◌, All, All-append, ◌==◌, length,
  length-append, some, some_inj,
}
use native.Mathlib.Nat.{pow-suc}
use iroha.Store.FlatFile.{
  FlatFile, File, digits, id_to_name, parse, skip_spaces, with_sign, unsigned, name_to_id,
  find_file, file_exist, add, get, last_id,
}

abbrev pub IsDigit : ℕ → Type 0
IsDigit c = (b'0' ≤ c) × (c ≤ b'9')

parse-append :
    (n : ℕ) (s : Blob) (c : ℕ)
    → All IsDigit s
    → IsDigit c
    → parse n (s ++ c ∷ []) ≡ 10 * parse n s + (c - b'0')
unfolding parse
parse-append n [] c h d = ground arith
parse-append n (x ∷ s) c h d = ground (arith, parse-append (10 * n + (x - b'0')) s c h.1 d)

digits-All : (k n : ℕ) → All IsDigit (digits k n)
unfolding digits
digits-All zero n = tt
digits-All (suc k) n =
    All-append IsDigit (digits k (n / 10)) ((b'0' + n % 10) ∷ []) (digits-All k (n / 10))
      ((omega arith, omega arith), tt)

parse-digits : (k n : ℕ) → n < 10 ^ k → parse 0 (digits k n) ≡ n
unfolding digits parse
parse-digits zero n h = omega arith
parse-digits (suc k) n h =
    let bound : n < 10 ^ k * 10 = rw (sym (pow-suc 10 k)) h in
    let smaller : n / 10 < 10 ^ k = omega arith in
    rw
      (
        parse-append 0 (digits k (n / 10)) (b'0' + n % 10) (digits-All k (n / 10))
            (omega arith, omega arith),
        parse-digits k (n / 10) smaller,
      )
      (omega arith)

length-digits : (k n : ℕ) → length (digits k n) ≡ k
unfolding digits
length-digits zero n = refl
length-digits (suc k) n =
    omega
      (arith, length-append (digits k (n / 10)) ((b'0' + n % 10) ∷ []), length-digits k (n / 10))

-- Digits alone are read as their number.
name_to_id-parse :
    (s : Blob)
    → All IsDigit s
    → length s ≡ 16
    → parse 0 s < 2 ^ 32
    → name_to_id s ≡ some (parse 0 s)
unfolding name_to_id with_sign unsigned skip_spaces
name_to_id-parse [] h n p = absurd (omega (arith, n))
name_to_id-parse (c ∷ s) h n p =
    let whole : skip_spaces (c ∷ s) ≡ c ∷ s = ground (arith, h.0) in
    let number : with_sign (c ∷ s) ≡ unsigned (c ∷ s) = ground (arith, h.0) in
    let fits : unsigned (c ∷ s) ≡ some (parse 0 (c ∷ s)) = ground (arith, h.0, p) in
    rw (whole, number, fits) (ap some (omega (arith, p)))

-- A height of 32 bits is read back from the name of its file.
pub name_to_id-id_to_name : (id : ℕ) → id < 2 ^ 32 → name_to_id (id_to_name id) ≡ some id
name_to_id-id_to_name id h =
    let number = parse-digits 16 id (omega arith) in
    name_to_id-parse (id_to_name id) (digits-All 16 id) (length-digits 16 id) (rw number h)
    ∙ ap some number

pub id_to_name-injective : (x y : ℕ) → x < 2 ^ 32 → y < 2 ^ 32 → id_to_name x ≡ id_to_name y → x ≡ y
id_to_name-injective x y hx hy e =
    some_inj x y (sym (name_to_id-id_to_name x hx) ∙ ap name_to_id e ∙ name_to_id-id_to_name y hy)

find_file-append :
    (name : Blob) (fs : List File) (f : File)
    → find_file name (fs ++ f ∷ []) ≡ (
        if is_some (find_file name fs)
        then find_file name fs
        else if name =ᵇ f.0
        then some f.1
        else none)
unfolding find_file
find_file-append name [] f = refl
find_file-append name (x ∷ fs) f = ground (arith, find_file-append name fs f)

-- For heights of 32 bits: after a block is added, its height has the block that was there before,
-- or else the block; every other height has what it had. The last id becomes the height of a block
-- that is new, and stays where the height had one.
pub get-add :
    (id other : ℕ) (block : Blob) (s : FlatFile)
    → id < 2 ^ 32
    → other < 2 ^ 32
    → (get other (add id block s)
        ≡ (if is_some (get other s) then get other s else if other == id then some block else none))
      × (last_id (add id block s) ≡ (if is_some (get id s) then last_id s else id))
unfolding get add file_exist
get-add id other block s h k =
    let same = id_to_name-injective other id k h in
    (
      ground (arith, same, find_file-append (id_to_name other) s.files (id_to_name id, block)),
      ground arith,
    )
