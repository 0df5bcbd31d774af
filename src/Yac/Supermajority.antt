-- ===== src/Yac/Supermajority.antt =====
-- irohad/consensus/yac/storage/impl/yac_common.cpp.
pub mod Quorum
use iroha.Prelude.{
  ℕ, ◌+◌, ◌-◌, ◌*◌, ◌%◌, ◌^◌, ◌≤◌, ◌<◌, ◌≡◌, ◌↔◌, Bool, true, false, ltb, leb, if◌then◌else◌, arith,
}

-- `all - 1` is taken in uint64_t, and wraps for no peers. The test `current >= 2 * f + 1` with
-- `f = (all - 1) / 3.0` is read over the rationals, times 3: the doubles decide it alike as long
-- as the numbers of peers stay far below 2 ^ 50, where the rounding of the thirds is too small
-- to reach a whole number.
unfoldable pub has_supermajority : ℕ → ℕ → Bool
has_supermajority current all =
    let all_but_one = (all + 2 ^ 64 - 1) % 2 ^ 64 in
    if ltb all current then false else leb (2 * all_but_one + 3) (3 * current)

-- For a number of peers that a uint64_t holds, other than 0, the test is that of two thirds.
pub has_supermajority_iff :
    (current all : ℕ)
    → 0 < all
    → all < 2 ^ 64
    → (has_supermajority current all ≡ true) ↔ ((current ≤ all) × (2 * all + 1 ≤ 3 * current))
unfolding has_supermajority
has_supermajority_iff current all h k = ground arith

-- Without peers there is no supermajority, since `all - 1` wraps.
pub has_supermajority-zero : (current : ℕ) → has_supermajority current 0 ≡ false
unfolding has_supermajority
has_supermajority-zero current = ground arith

-- No votes are never a supermajority.
pub has_supermajority-none : (all : ℕ) → has_supermajority 0 all ≡ false
unfolding has_supermajority
has_supermajority-none all = ground arith
