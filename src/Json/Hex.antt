-- ===== src/Json/Hex.antt =====
-- `to_hexstring`, `hex2bytes` and `hexstringToArray` of libs/common/types.hpp. `strtol`, to base 16
-- and cut off to 8 bits, is a parameter.
use iroha.Prelude.{
  ◌≡◌, refl, ℕ, ◌+◌, ◌-◌, ◌/◌, ◌%◌, ◌<◌, [], ◌∷◌, Option, Blob, ltb, if◌then◌else◌, All,
}
use iroha.Wire.Bytes.{copy}

-- The table `code`.
unfoldable pub hex_digit : ℕ → ℕ
hex_digit n = if ltb n 10 then b'0' + n else b'a' + (n - 10)

abbrev pub hex_pair : ℕ → Blob
hex_pair n = hex_digit (n / 16) ∷ hex_digit (n % 16) ∷ []

unfoldable pub to_hexstring : Blob → Blob
unfolding hex_digit
to_hexstring [] = []
to_hexstring (x ∷ s) = hex_digit (x / 16) ∷ hex_digit (x % 16) ∷ to_hexstring s

module _ (strtol : Blob → ℕ) where
  unfoldable pub hex2bytes : Blob → Blob
  hex2bytes [] = []
  hex2bytes (x ∷ []) = strtol (x ∷ []) ∷ []
  hex2bytes (x ∷ y ∷ s) = strtol (x ∷ y ∷ []) ∷ hex2bytes s

  unfoldable pub hexstring_to_array : Blob → Blob → Option Blob
  unfolding hex2bytes copy
  hexstring_to_array string array = copy (hex2bytes string) array

  pub hex2bytes-to_hexstring :
      ((n : ℕ) → n < 256 → strtol (hex_pair n) ≡ n)
      → (s : Blob) → All (λ x. x < 256) s
      → hex2bytes (to_hexstring s) ≡ s
  unfolding hex2bytes to_hexstring
  hex2bytes-to_hexstring law [] h = refl
  hex2bytes-to_hexstring law (x ∷ s) h = rw (law x h.0, hex2bytes-to_hexstring law s h.1) refl
