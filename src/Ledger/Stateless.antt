-- ===== src/Ledger/Stateless.antt =====
-- irohad/validation/impl/stateless_validator_impl.cpp: the check of a transaction or a query by
-- itself. What verifies the signatures, and the time, are parameters.
use iroha.Prelude.{
  ◌≡◌, ℕ, ◌+◌, ◌-◌, ◌*◌, ◌%◌, ◌^◌, ◌<◌, ◌≤◌, Bool, true, false, not, ltb, if◌then◌else◌, arith, ◌↔◌,
}

-- Milliseconds of a day.
abbrev pub max_delay : ℕ
max_delay = 24 * 60 * 60 * 1000

-- `crypto_provider_->verify` first; then `now - created_ts`, which wraps; then the future.
unfoldable pub validate : Bool → ℕ → ℕ → Bool
validate verified now created_ts =
    if not verified
    then false
    else if ltb max_delay ((now + 2 ^ 64 - created_ts) % 2 ^ 64)
    then false
    else if ltb now created_ts
    then false
    else true

-- For times of type uint64_t, a transaction or a query passes exactly if its signatures verify and
-- it was created at most a day before now, and not after now: the wrap of the subtraction lets
-- nothing else through.
pub validate_iff :
    (verified : Bool) (now created_ts : ℕ)
    → now < 2 ^ 64
    → created_ts < 2 ^ 64
    → (validate verified now created_ts ≡ true)
      ↔ ((verified ≡ true) × (created_ts ≤ now) × (now ≤ created_ts + max_delay))
unfolding validate
validate_iff true now created_ts hn hc = ground arith
validate_iff false now created_ts hn hc = ground arith
