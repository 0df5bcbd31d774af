-- ===== src/Query/Execution.antt =====
-- irohad/model/impl/query_execution.cpp. The query for the transactions of an account, which the
-- storage answers, is a parameter.
use iroha.Prelude.{Bool, false, ◌||◌, List, none, some, Blob, ◌=ᵇ◌, if◌then◌else◌}
use iroha.Model.Command.{Transaction}
use iroha.Wsv.Tables.{Wsv}
use iroha.Wsv.Query
use iroha.Query.{
  Request, get_account, get_account_assets, get_signatories, get_account_transactions,
  get_account_asset_transactions, query_only, Query, stateful_invalid, no_account,
  no_account_assets, no_signatories, not_supported, Answer, error_response, account_response,
  account_asset_response, signatories_response, transactions_response, QueryResponse,
}

-- The body that the five overloads of `validate` have in common.
unfoldable pub may_read : Wsv → Blob → Blob → Bool
may_read w creator_account_id account_id = elim (Query.get_account w creator_account_id) [
  | none ↦ false
  | some creator ↦ creator.permissions.read_all_accounts || (account_id =ᵇ creator_account_id)
]

unfoldable pub execute_get_account : Wsv → Blob → Answer
execute_get_account w account_id = elim (Query.get_account w account_id) [
  | none ↦ error_response no_account
  | some acc ↦ account_response acc
]

unfoldable pub execute_get_account_assets : Wsv → Blob → Blob → Answer
execute_get_account_assets w account_id asset_id =
    elim (Query.get_account_asset w account_id asset_id) [
      | none ↦ error_response no_account_assets
      | some acct_asset ↦ account_asset_response acct_asset
    ]

unfoldable pub execute_get_signatories : Wsv → Blob → Answer
execute_get_signatories w account_id = elim (Query.get_signatories w account_id) [
  | none ↦ error_response no_signatories
  | some signs ↦ signatories_response signs
]

abbrev pub execute_get_account_asset_transactions : Blob → Blob → Answer
execute_get_account_asset_transactions account_id asset_id = error_response not_supported

abbrev pub guarded : Bool → Answer → Answer
guarded valid answer = if valid then answer else error_response stateful_invalid

module _ (account_transactions : Blob → List Transaction) where
  abbrev pub execute_get_account_transactions : Blob → Answer
  execute_get_account_transactions account_id =
      transactions_response (account_transactions account_id)

  unfoldable pub answer_of : Wsv → Blob → Request → Answer
  unfolding may_read execute_get_account execute_get_account_assets execute_get_signatories
  answer_of w creator (get_account account_id) =
      guarded (may_read w creator account_id) (execute_get_account w account_id)
  answer_of w creator (get_account_assets account_id asset_id) =
      guarded (may_read w creator account_id) (execute_get_account_assets w account_id asset_id)
  answer_of w creator (get_signatories account_id) =
      guarded (may_read w creator account_id) (execute_get_signatories w account_id)
  answer_of w creator (get_account_transactions account_id) =
      guarded (may_read w creator account_id) (execute_get_account_transactions account_id)
  answer_of w creator (get_account_asset_transactions account_id asset_id) =
      guarded (may_read w creator account_id)
        (execute_get_account_asset_transactions account_id asset_id)
  answer_of w creator query_only = error_response not_supported

  -- Every response carries the hash of the query.
  unfoldable pub execute : Wsv → Query → QueryResponse
  unfolding answer_of
  execute w query = record {
    query_hash = query.query_hash;
    answer = answer_of w query.creator_account_id query.request;
  }
