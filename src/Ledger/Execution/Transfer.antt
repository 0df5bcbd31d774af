-- ===== src/Ledger/Execution/Transfer.antt =====
-- Transfers: what `TransferAsset` does once it has been validated.
pub mod Balances
pub mod Supply
pub mod Success
use iroha.Prelude.{
  ◌≡◌, refl, ℕ, ◌+◌, ◌-◌, ◌<◌, ◌≤◌, ◌%◌, ◌^◌, Bool, true, false, not, List, Option, none, some, ltb,
  leb, if◌then◌else◌, ◌&&◌, is_yes, is_some, All, Blob, blob_discrete, ◌=ᵇ◌, arith, Bool-cases,
  Option-cases, inl, inr, sym, ◌∙◌, ap,
}
use iroha.Model.Amount.{Amount, get_frac_number, get_joint_amount}
use iroha.Model.Types.{Account, Asset, AccountAsset}
use iroha.Wsv.Table.{fetch, upsert, has_key, fetch-upsert, fetch-has_key, upsert-HasKeys}
use iroha.Wsv.Table.Changes.{total, weight, total-upsert}
use iroha.Wsv.Table.Found.{fetch-All, fetch-key}
use iroha.Wsv.Tables.{Wsv, AssetKey, asset_key_discrete, balance_key, account_key, asset_key}
use iroha.Wsv.Tables.Integrity.{IsValid, BalanceOk}
use iroha.Wsv.Command.{upsert_account_asset, fits}
use iroha.Wsv.Query.{get_account, get_asset, get_account_asset}
use iroha.Ledger.Execution.{credited, debited, execute_transfer_asset}
use iroha.Ledger.Validation.{validate_transfer_asset, is_positive}

abbrev pub wallet_key : Blob → Blob → AssetKey
wallet_key account_id asset_id = record { account_id = account_id; asset_id = asset_id }

-- The balance of a wallet, 0 where there is none.
abbrev pub balance : Wsv → Blob → Blob → ℕ
balance w account_id asset_id = weight (λ a. a.balance) (get_account_asset w account_id asset_id)

abbrev pub holding : Blob → AccountAsset → ℕ
holding asset_id a = if asset_id =ᵇ a.asset_id then a.balance else 0

-- What all accounts have of one asset.
abbrev pub supply : Wsv → Blob → ℕ
supply w asset_id = total (holding asset_id) w.account_has_asset

-- The parts of a validated transfer.
pub record Approved (w : Wsv) (src dest asset_id : Blob) (amount : Amount) (x : ℕ) : Type 0 where
  pub asset : Asset
  pub wallet : AccountAsset
  pub has_asset : get_asset w asset_id ≡ some asset
  pub has_wallet : get_account_asset w src asset_id ≡ some wallet
  pub precise : ltb asset.precision (get_frac_number amount) ≡ false
  pub joint : get_joint_amount amount asset.precision ≡ x
  pub covered : x ≤ wallet.balance
  pub receiver : is_some (get_account w dest) ≡ true

-- The amount in the asset's smallest unit.
abbrev pub units : Wsv → Blob → Amount → ℕ
units w asset_id amount =
    weight (λ asset. get_joint_amount amount asset.precision) (get_asset w asset_id)

pub approve :
    (w : Wsv) (creator : Account) (src dest asset_id : Blob) (amount : Amount)
    → validate_transfer_asset w creator src dest asset_id amount ≡ true
    → Approved w src dest asset_id amount (units w asset_id amount)
unfolding validate_transfer_asset
approve w creator src dest asset_id amount v = elim (Option-cases (get_asset w asset_id)) [
  | inl none_ ↦ absurd (ground arith)
  | inr (asset, ea) ↦ elim (Option-cases (get_account_asset w src asset_id)) [
    | inl none_ ↦ absurd (ground arith)
    | inr (wallet, ew) ↦ record {
      asset = asset;
      wallet = wallet;
      has_asset = ea;
      has_wallet = ew;
      precise = ground arith;
      joint = ground arith;
      covered = ground arith;
      receiver = ground arith;
    }
  ]
]

pub same_wallet :
    (a b c d : Blob)
    → is_yes (asset_key_discrete (wallet_key a b) (wallet_key c d)) ≡ ((a =ᵇ c) && (b =ᵇ d))
same_wallet a b c d = ground arith
