-- ===== src/Ledger/Execution/Refusals.antt =====
-- Assets of precision 0: `getFracNumber` counts at least one digit.
use iroha.Prelude.{
  ◌≡◌, refl, ℕ, zero, suc, true, false, some, ltb, Blob, arith, Option-cases, inl, inr,
}
use iroha.Model.Amount.{Amount, get_frac_number, decimal_length}
use iroha.Model.Types.{Asset}
use iroha.Wsv.Tables.{Wsv}
use iroha.Wsv.Query.{get_asset, get_account_asset}
use iroha.Ledger.Execution.{execute_add_asset_quantity, execute_transfer_asset}

decimal_length-positive : (fuel n : ℕ) → ltb 0 (decimal_length fuel n) ≡ true
unfolding decimal_length
decimal_length-positive zero n = refl
decimal_length-positive (suc fuel) n = ground arith

get_frac_number-positive : (a : Amount) → ltb 0 (get_frac_number a) ≡ true
unfolding get_frac_number
get_frac_number-positive a = decimal_length-positive 20 a.frac_part

-- If an asset has precision 0, then no amount of it is ever added or transferred, a whole number
-- neither: both commands return false and leave the tables as they are.
pub zero_precision-refused :
    (w : Wsv) (asset : Asset) (src dest asset_id : Blob) (amount : Amount)
    → get_asset w asset_id ≡ some asset
    → asset.precision ≡ 0
    → (execute_add_asset_quantity w dest asset_id amount ≡ (w, false))
      × (execute_transfer_asset w src dest asset_id amount ≡ (w, false))
unfolding execute_add_asset_quantity execute_transfer_asset
zero_precision-refused w asset src dest asset_id amount e p =
    let n : ltb asset.precision (get_frac_number amount) ≡ true =
      rw p (get_frac_number-positive amount) in
    (
      rw (e, n) refl,
      elim (Option-cases (get_account_asset w src asset_id)) [
        | inl h ↦ rw h refl
        | inr (a, h) ↦ rw (h, e, n) refl
      ],
    )
