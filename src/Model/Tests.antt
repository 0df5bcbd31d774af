-- ===== src/Model/Tests.antt =====
-- Amounts of some sizes.
use iroha.Prelude.{◌≡◌, true, [], ◌∷◌, ◌+◌, ◌*◌, ◌%◌, ◌^◌, ◌<◌, ◌≤◌, ◌↔◌, arith}
use iroha.Model.Amount.{Amount, get_frac_number, ipow, get_joint_amount}
use iroha.Model.Command.{Transaction, add_asset_quantity}
use iroha.Model.Operators.{transaction_equal}
use iroha.Model.Operators.Equality.{transaction_equal_iff}
use iroha.Model.Amount.Digits.{get_frac_number-le}
use iroha.Model.Amount.Power.{ipow-eq-pow, get_joint_amount-eq}

abbrev amount : Amount
amount = record { int_part = 12; frac_part = 34 }

get_frac_number-le_example :
    ((get_frac_number amount ≤ 2) ↔ (34 < 10 ^ 2)) × (0 < get_frac_number amount)
get_frac_number-le_example = get_frac_number-le amount 1 (omega arith)

ipow-eq-pow_example : ipow 10 9 ≡ (10 ^ 9) % 2 ^ 32
ipow-eq-pow_example = ipow-eq-pow 10 9 (omega arith)

get_joint_amount-eq_example : get_joint_amount amount 2 ≡ (12 * 10 ^ 2 + 34) % 2 ^ 64
get_joint_amount-eq_example = get_joint_amount-eq amount 2 (omega arith)

abbrev sent : Transaction
sent = record {
  signatures = record { signature = 1 ∷ []; pubkey = 2 ∷ [] } ∷ [];
  created_ts = 5;
  creator_account_id = b'a' ∷ [];
  tx_counter = 7;
  tx_hash = 3 ∷ [];
  commands = add_asset_quantity (b'a' ∷ []) (b'c' ∷ []) amount ∷ [];
}

-- Another creator's.
abbrev other : Transaction
other = record sent { creator_account_id = b'b' ∷ []; tx_hash = [] }

transaction_equal_iff_example : (transaction_equal sent other ≡ true) ↔ (
    (sent.commands ≡ other.commands)
    × (sent.tx_counter ≡ other.tx_counter)
    × (sent.signatures ≡ other.signatures)
    × (sent.created_ts ≡ other.created_ts))
transaction_equal_iff_example = transaction_equal_iff sent other
