-- ===== src/Model/Amount/Digits.antt =====
-- What the precision test of the commands means.
use iroha.Prelude.{◌↔◌, ℕ, zero, suc, ◌/◌, ◌^◌, ◌≤◌, ◌<◌, arith}
use native.Mathlib.Nat.{pow-suc}
use iroha.Model.Amount.{Amount, decimal_length, get_frac_number}

pow_pos : (p : ℕ) → 1 ≤ 10 ^ p
pow_pos zero = omega arith
pow_pos (suc p) = omega (arith, pow-suc 10 p, pow_pos p)

decimal_length_pos : (fuel n : ℕ) → 1 ≤ decimal_length fuel n
unfolding decimal_length
decimal_length_pos zero n = omega arith
decimal_length_pos (suc fuel) n = ground arith

decimal_length-le :
    (fuel n p : ℕ) → n < 10 ^ suc fuel → (decimal_length fuel n ≤ suc p) ↔ (n < 10 ^ suc p)
unfolding decimal_length
decimal_length-le zero n p h =
    ((λ _. omega (arith, pow-suc 10 p, pow_pos p, h)), (λ _. omega arith))
decimal_length-le (suc fuel) n zero h = ground (arith, decimal_length_pos fuel (n / 10))
decimal_length-le (suc fuel) n (suc p) h =
    let small : n / 10 < 10 ^ suc fuel = omega (arith, pow-suc 10 (suc fuel)) in
    ground
      (arith, decimal_length-le fuel (n / 10) p small, pow-suc 10 (suc p), pow-suc 10 p, pow_pos p)

-- For a fractional part that a uint64_t holds, the number of its digits is at most the precision
-- p + 1 exactly when it is less than 10^(p + 1); with precision 0 no amount passes, since even 0
-- has one digit.
pub get_frac_number-le :
    (a : Amount) (p : ℕ)
    → a.frac_part < 2 ^ 64
    → ((get_frac_number a ≤ suc p) ↔ (a.frac_part < 10 ^ suc p)) × (0 < get_frac_number a)
unfolding get_frac_number
get_frac_number-le a p h =
    (decimal_length-le 20 a.frac_part p (omega arith), decimal_length_pos 20 a.frac_part)
