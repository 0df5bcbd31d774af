-- ===== src/Ledger/Tests.antt =====
-- A small ledger, and the theorems at work on it.
pub mod Blocks
use iroha.Prelude.{
  ◌≡◌, refl, ℕ, ◌+◌, ◌*◌, ◌-◌, ◌^◌, ◌<◌, ◌≤◌, Bool, true, false, List, [], ◌∷◌, Option, none, some,
  length, Blob, blob_discrete, contains, arith, ◌=ᵇ◌, ◌&&◌, if◌then◌else◌,
}
use mathlib.Core.List.{Sublist}
use iroha.Model.Amount.{Amount, get_frac_number, get_joint_amount}
use iroha.Model.Types.{Account, Asset, AccountAsset, Permissions, Peer, Signature, no_permissions}
use iroha.Model.Command.{
  Command, Transaction, Proposal, Block, transfer_asset, add_asset_quantity, create_domain,
}
use iroha.Wsv.Table.{fetch, has_key, upsert}
use iroha.Wsv.Command.{upsert_account_asset}
use iroha.Wsv.Tables.{Wsv, AccountRow, asset_key_discrete, signatory_discrete}
use iroha.Wsv.Tables.Integrity.{IsValid}
use iroha.Wsv.Permissions.{write_permissions, read_permissions, read_permissions-write_permissions}
use iroha.Wsv.Query.{get_account, get_asset, get_account_asset}
use iroha.Ledger.Execution.{execute, execute_transfer_asset}
use iroha.Ledger.Execution.Transfer.{balance, supply, units}
use iroha.Ledger.Execution.Transfer.Balances.{transfer_moves}
use iroha.Ledger.Execution.Transfer.Supply.{self_transfer-supply}
use iroha.Ledger.Execution.Transfer.Success.{transfer_succeeds}
use iroha.Ledger.Execution.Issue.{issued, execute-supply}
use iroha.Ledger.Validation.{validate, validate_transfer_asset}

abbrev pub domain : Blob
domain = b'd' ∷ []

abbrev pub alice : Blob
alice = b'a' ∷ b'@' ∷ b'd' ∷ []

abbrev pub bob : Blob
bob = b'b' ∷ b'@' ∷ b'd' ∷ []

abbrev pub coin : Blob
coin = b'c' ∷ b'#' ∷ b'd' ∷ []

abbrev pub key : Blob
key = 1 ∷ []

abbrev pub payer : Permissions
payer = record no_permissions { can_transfer = true }

abbrev pub row : Blob → AccountRow
row id = record {
  account_id = id;
  domain_id = domain;
  master_key = key;
  quorum = 1;
  permissions = write_permissions payer;
}

abbrev pub creator : Account
creator = record {
  account_id = alice;
  domain_name = domain;
  permissions = payer;
  quorum = 1;
  master_key = key;
}

abbrev pub wallet : Blob → ℕ → AccountAsset
wallet id n = record { asset_id = coin; account_id = id; balance = n }

abbrev pub world : ℕ → ℕ → Wsv
world a b = record {
  domain = domain ∷ [];
  signatory = key ∷ [];
  account = row alice ∷ row bob ∷ [];
  account_has_signatory = [];
  peer = record { address = 7 ∷ []; pubkey = 8 ∷ [] } ∷ [];
  asset = record { asset_id = coin; domain_id = domain; precision = 2 } ∷ [];
  account_has_asset = wallet alice a ∷ wallet bob b ∷ [];
}

-- 1.50
abbrev pub some_coins : Amount
some_coins = record { int_part = 1; frac_part = 50 }

pub world-IsValid : IsValid (world 500 20)
unfolding contains blob_discrete has_key asset_key_discrete signatory_discrete
world-IsValid = ground arith

pub approved : validate_transfer_asset (world 500 20) creator alice bob coin some_coins ≡ true
unfolding validate_transfer_asset blob_discrete get_asset fetch get_frac_number get_account_asset
    asset_key_discrete get_account get_joint_amount
approved = refl

pub paid : execute_transfer_asset (world 500 20) alice bob coin some_coins ≡ (world 350 170, true)
unfolding execute_transfer_asset get_account_asset fetch asset_key_discrete get_asset
    get_frac_number upsert_account_asset get_joint_amount has_key upsert
paid = refl

distinct_accounts : (alice =ᵇ bob) ≡ false
unfolding blob_discrete
distinct_accounts = refl

transfer_moves_example :
    (units (world 500 20) coin some_coins ≤ balance (world 500 20) alice coin)
    × ((account_id other : Blob)
        → balance (world 350 170) account_id other ≡ (
            if (account_id =ᵇ alice) && (other =ᵇ coin)
            then balance (world 500 20) alice coin - units (world 500 20) coin some_coins
            else if (account_id =ᵇ bob) && (other =ᵇ coin)
            then balance (world 500 20) bob coin + units (world 500 20) coin some_coins
            else balance (world 500 20) account_id other))
transfer_moves_example =
    transfer_moves (world 500 20) (world 350 170) creator alice bob coin some_coins world-IsValid
      approved distinct_accounts paid

transfer_succeeds_example :
    (execute_transfer_asset (world 500 20) alice bob coin some_coins).1 ≡ true
unfolding get_account_asset get_asset fetch asset_key_discrete blob_discrete get_joint_amount
transfer_succeeds_example =
    transfer_succeeds (world 500 20) creator alice bob coin some_coins world-IsValid approved refl
      refl refl (omega arith)

approved_self : validate_transfer_asset (world 500 20) creator alice alice coin some_coins ≡ true
unfolding validate_transfer_asset blob_discrete get_asset fetch get_frac_number get_account_asset
    asset_key_discrete get_account get_joint_amount
approved_self = refl

paid_self : execute_transfer_asset (world 500 20) alice alice coin some_coins ≡ (world 350 20, true)
unfolding execute_transfer_asset get_account_asset fetch asset_key_discrete get_asset
    get_frac_number upsert_account_asset get_joint_amount has_key upsert
paid_self = refl

self_transfer-supply_example :
    supply (world 350 20) coin + units (world 500 20) coin some_coins ≡ supply (world 500 20) coin
self_transfer-supply_example =
    self_transfer-supply (world 500 20) (world 350 20) creator alice coin some_coins world-IsValid
      approved_self paid_self

approved_command : validate (transfer_asset alice bob coin some_coins) (world 500 20) creator ≡ true
unfolding validate
approved_command = approved

paid_command :
    execute (transfer_asset alice bob coin some_coins) (world 500 20) ≡ (world 350 170, true)
unfolding execute
paid_command = paid

execute-supply_example :
    supply (world 350 170) coin
    ≡ supply (world 500 20) coin
      + issued (world 500 20) (transfer_asset alice bob coin some_coins) coin
execute-supply_example =
    execute-supply (transfer_asset alice bob coin some_coins) (world 500 20) (world 350 170) creator
      coin world-IsValid approved_command distinct_accounts paid_command
