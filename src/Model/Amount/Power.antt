-- ===== src/Model/Amount/Power.antt =====
-- `ipow` is the power mod 2^32.
use iroha.Prelude.{
  ◌≡◌, sym, ap, ◌∙◌, ℕ, zero, suc, ◌+◌, ◌*◌, ◌/◌, ◌%◌, ◌^◌, ◌≤◌, ◌<◌, arith, Bool-cases, inl, inr,
  ◌==◌, false,
}
use native.Mathlib.Nat.{pow-suc, pow-zero, mul_comm, mul_assoc, add-mul-mod_self_left, div-add-mod}
use iroha.Model.Amount.{Amount, ipow_loop, ipow, int_to_uint64, get_joint_amount}

mod-mul_left : (a b m : ℕ) → ((a % m) * b) % m ≡ (a * b) % m
mod-mul_left a b m =
    let split : a * b ≡ (a % m) * b + m * (a / m * b) =
      omega (arith, ap (λ (t : ℕ). t * b) (div-add-mod a m)) in
    sym (rw split (add-mul-mod_self_left ((a % m) * b) m (a / m * b)))

mod-mul_right : (a b m : ℕ) → (a * (b % m)) % m ≡ (a * b) % m
mod-mul_right a b m = rw (mul_comm a (b % m), mul_comm a b) (mod-mul_left b a m)

mod-pow : (b m k : ℕ) → ((b % m) ^ k) % m ≡ (b ^ k) % m
mod-pow b m zero = rw (pow-zero (b % m), pow-zero b)
mod-pow b m (suc k) =
    rw (pow-suc (b % m) k, pow-suc b k)
      (mod-mul_right ((b % m) ^ k) b m
        ∙ sym (mod-mul_left ((b % m) ^ k) b m)
        ∙ ap (λ (t : ℕ). (t * b) % m) (mod-pow b m k)
        ∙ mod-mul_left (b ^ k) b m)

pow_square : (b k : ℕ) → (b * b) ^ k ≡ b ^ (2 * k)
pow_square b zero = pow-zero (b * b) ∙ sym (pow-zero b)
pow_square b (suc k) =
    let e : 2 * suc k ≡ suc (suc (2 * k)) = omega arith in
    rw (e, pow-suc (b * b) k, pow-suc b (suc (2 * k)), pow-suc b (2 * k), pow_square b k)
      (sym (mul_assoc (b ^ (2 * k)) b b))

-- One round of the loop, on an even and on an odd exponent.
even_round : (r b k m : ℕ) → (r * ((b * b) % m) ^ k) % m ≡ (r * b ^ (2 * k)) % m
even_round r b k m =
    sym (mod-mul_right r (((b * b) % m) ^ k) m)
    ∙ ap (λ (t : ℕ). (r * t) % m) (mod-pow (b * b) m k ∙ ap (λ (t : ℕ). t % m) (pow_square b k))
    ∙ mod-mul_right r (b ^ (2 * k)) m

odd_round : (r b k m : ℕ) → (((r * b) % m) * ((b * b) % m) ^ k) % m ≡ (r * b ^ suc (2 * k)) % m
odd_round r b k m =
    mod-mul_left (r * b) (((b * b) % m) ^ k) m
    ∙ even_round (r * b) b k m
    ∙ ap (λ (t : ℕ). t % m)
        (rw (pow-suc b (2 * k), mul_comm (b ^ (2 * k)) b) (mul_assoc r b (b ^ (2 * k))))

ipow_loop_lem :
    (fuel r b e : ℕ) → e < 2 ^ fuel → r < 2 ^ 32 → ipow_loop fuel r b e ≡ (r * b ^ e) % 2 ^ 32
unfolding ipow_loop
ipow_loop_lem zero r b zero h k = rw (pow-zero b) (omega arith)
ipow_loop_lem zero r b (suc e) h k = absurd (omega arith)
ipow_loop_lem (suc fuel) r b zero h k = rw (pow-zero b) (omega arith)
ipow_loop_lem (suc fuel) r b (suc e) h k =
    let half : suc e / 2 < 2 ^ fuel = omega (arith, pow-suc 2 fuel) in
    let more : (suc e == 0) ≡ false = ground arith in
    elim (Bool-cases (suc e % 2 == 1)) [
      | inl odd ↦
          let i =
            ipow_loop_lem fuel ((r * b) % 2 ^ 32) ((b * b) % 2 ^ 32) (suc e / 2) half
              (omega arith) in
          let e' : suc (2 * (suc e / 2)) ≡ suc e = ground arith in
          rw (odd, more, ipow_loop)
            (i ∙ odd_round r b (suc e / 2) (2 ^ 32) ∙ ap (λ (t : ℕ). (r * b ^ t) % 2 ^ 32) e')
      | inr even ↦
          let i = ipow_loop_lem fuel r ((b * b) % 2 ^ 32) (suc e / 2) half k in
          let e' : 2 * (suc e / 2) ≡ suc e = ground arith in
          rw (even, more, ipow_loop)
            (i ∙ even_round r b (suc e / 2) (2 ^ 32) ∙ ap (λ (t : ℕ). (r * b ^ t) % 2 ^ 32) e')
    ]

-- For every exponent that an int can hold, the loop ends and `ipow` is the power mod 2^32.
pub ipow-eq-pow : (b e : ℕ) → e < 2 ^ 31 → ipow b e ≡ (b ^ e) % 2 ^ 32
unfolding ipow
ipow-eq-pow b e h =
    ipow_loop_lem 32 1 b e (omega arith) (omega arith) ∙ ap (λ (t : ℕ). t % 2 ^ 32) (omega arith)

pow10-lt : (p : ℕ) → p ≤ 9 → 10 ^ p < 2 ^ 31
pow10-lt zero h = omega arith
pow10-lt (suc zero) h = omega arith
pow10-lt (suc (suc zero)) h = omega arith
pow10-lt (suc (suc (suc zero))) h = omega arith
pow10-lt (suc (suc (suc (suc zero)))) h = omega arith
pow10-lt (suc (suc (suc (suc (suc zero))))) h = omega arith
pow10-lt (suc (suc (suc (suc (suc (suc zero)))))) h = omega arith
pow10-lt (suc (suc (suc (suc (suc (suc (suc zero))))))) h = omega arith
pow10-lt (suc (suc (suc (suc (suc (suc (suc (suc zero)))))))) h = omega arith
pow10-lt (suc (suc (suc (suc (suc (suc (suc (suc (suc zero))))))))) h = omega arith
pow10-lt (suc (suc (suc (suc (suc (suc (suc (suc (suc (suc p)))))))))) h = absurd (omega arith)

int_to_uint64_small : (x : ℕ) → x < 2 ^ 31 → int_to_uint64 x ≡ x
unfolding int_to_uint64
int_to_uint64_small x h = ground arith

-- Up to precision 9 the joint amount is int_part * 10^p + frac_part, mod 2^64.
pub get_joint_amount-eq :
    (a : Amount) (p : ℕ)
    → p ≤ 9
    → get_joint_amount a p ≡ (a.int_part * 10 ^ p + a.frac_part) % 2 ^ 64
unfolding get_joint_amount
get_joint_amount-eq a p h =
    let small = pow10-lt p h in
    let e : ipow 10 p ≡ 10 ^ p = omega (arith, ipow-eq-pow 10 p (omega arith)) in
    rw (e, int_to_uint64_small (10 ^ p) small)
