-- ===== src/Query/Access.antt =====
-- Who is told what.
use iroha.Prelude.{◌≡◌, true, List, Option, none, some, Blob, blob_discrete, contains, ◌⊎◌}
use mathlib.Core.List.{Mem}
use iroha.Model.Types.{Account}
use iroha.Model.Command.{Transaction}
use iroha.Wsv.Tables.{Wsv, signatory_discrete}
use iroha.Wsv.Query
use iroha.Query.{
  Request, get_account, get_account_assets, get_signatories, get_account_transactions,
  get_account_asset_transactions, query_only, Query, no_account, no_account_assets, not_supported,
  Answer, error_response, account_response, account_asset_response, signatories_response,
  transactions_response,
}

-- The creator has an account, and may read every account or asks for that one.
pub record IsPermitted (w : Wsv) (creator account_id : Blob) : Type 0 where
  pub account : Account
  pub found : Query.get_account w creator ≡ some account
  pub permission : (account.permissions.read_all_accounts ≡ true) ⊎ (account_id ≡ creator)

abbrev pub names : Request → Option Blob
names (get_account account_id) = some account_id
names (get_account_assets account_id asset_id) = some account_id
names (get_signatories account_id) = some account_id
names (get_account_transactions account_id) = some account_id
names (get_account_asset_transactions account_id asset_id) = some account_id
names query_only = none

module _ (account_transactions : Blob → List Transaction) (w : Wsv) where
  -- What a request promises, error by error.
  abbrev pub IsAnswer : Request → Answer → Type 0
  IsAnswer (get_account id) (account_response a) =
      (Query.get_account w id ≡ some a) × (a.account_id ≡ id)
  IsAnswer (get_account id) (error_response no_account) = Query.get_account w id ≡ none
  IsAnswer (get_account_assets id asset_id) (account_asset_response x) =
      (Query.get_account_asset w id asset_id ≡ some x)
      × (x.account_id ≡ id)
      × (x.asset_id ≡ asset_id)
      × Mem x w.account_has_asset
  IsAnswer (get_account_assets id asset_id) (error_response no_account_assets) =
      Query.get_account_asset w id asset_id ≡ none
  IsAnswer (get_signatories id) (signatories_response ks) =
      (k : Blob)
      → contains blob_discrete k ks
        ≡ contains signatory_discrete (record { account_id = id; public_key = k })
            w.account_has_signatory
  IsAnswer (get_account_transactions id) (transactions_response txs) = txs ≡ account_transactions id
  IsAnswer (get_account_asset_transactions id asset_id) (error_response not_supported) = Unit {0}
  IsAnswer _ _ = ⊥
