-- ===== src/Model/Amount.antt =====
-- `struct Amount` of libs/common/types.hpp.
pub mod Power
pub mod Digits
use iroha.Prelude.{ℕ, zero, suc, ◌+◌, ◌-◌, ◌*◌, ◌/◌, ◌%◌, ◌^◌, Bool, ltb, ◌==◌, if◌then◌else◌}

pub record Amount : Type 0 where
  pub int_part : ℕ
  pub frac_part : ℕ

-- `std::to_string(n).length()`, by at most `fuel` divisions: 20 serve every uint64_t.
unfoldable pub decimal_length : ℕ → ℕ → ℕ
decimal_length zero n = 1
decimal_length (suc fuel) n =
    let rest = suc (decimal_length fuel (n / 10)) in if ltb n 10 then 1 else rest

unfoldable pub get_frac_number : Amount → ℕ
unfolding decimal_length
get_frac_number a = decimal_length 20 a.frac_part

-- The `while (exp)` loop of `ipow`, whose numbers are of type int: they are kept as bit patterns
-- mod 2^32, so a signed overflow, which C++ leaves undefined, wraps. An int `exp` that is not
-- negative is 0 after at most 31 rounds.
unfoldable pub ipow_loop : ℕ → ℕ → ℕ → ℕ → ℕ
ipow_loop zero result base exp = result
ipow_loop (suc fuel) result base exp =
    let result' = if exp % 2 == 1 then (result * base) % 2 ^ 32 else result in
    let rest = ipow_loop fuel result' ((base * base) % 2 ^ 32) (exp / 2) in
    if exp == 0 then result else rest

unfoldable pub ipow : ℕ → ℕ → ℕ
unfolding ipow_loop
ipow base exp = ipow_loop 32 1 base exp

-- An int that takes part in uint64_t arithmetic is sign-extended.
unfoldable pub int_to_uint64 : ℕ → ℕ
int_to_uint64 x = if ltb x (2 ^ 31) then x else x + (2 ^ 64 - 2 ^ 32)

unfoldable pub get_joint_amount : Amount → ℕ → ℕ
unfolding ipow int_to_uint64
get_joint_amount a precision =
    (a.int_part * int_to_uint64 (ipow 10 precision) + a.frac_part) % 2 ^ 64
