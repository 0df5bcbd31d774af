-- ===== src/Query.antt =====
-- irohad/model/query.hpp and queries/*.hpp, query_response.hpp and queries/responses/*.hpp. A list
-- stands for an observable of transactions.
pub mod Execution
pub mod Access
pub mod Tests
use iroha.Prelude.{ℕ, List, Blob}
use iroha.Model.Types.{Signature, Account, AccountAsset}
use iroha.Model.Command.{Transaction}

-- What the types derived from `Query` add; `query_only` is an object of `Query` itself.
pub data Request : Type 0 where
  get_account : (account_id : Blob) → Request
  get_account_assets : (account_id asset_id : Blob) → Request
  get_signatories : (account_id : Blob) → Request
  get_account_transactions : (account_id : Blob) → Request
  get_account_asset_transactions : (account_id asset_id : Blob) → Request
  query_only : Request

pub record Query : Type 0 where
  pub signature : Signature
  pub creator_account_id : Blob
  pub created_ts : ℕ
  pub query_hash : Blob
  pub query_counter : ℕ
  pub request : Request

pub data Reason : Type 0 where
  stateless_invalid : Reason
  stateful_invalid : Reason
  no_account : Reason
  no_account_assets : Reason
  no_signatories : Reason
  not_supported : Reason

pub data Answer : Type 0 where
  error_response : (reason : Reason) → Answer
  account_response : (account : Account) → Answer
  account_asset_response : (acct_asset : AccountAsset) → Answer
  signatories_response : (keys : List Blob) → Answer
  transactions_response : (transactions : List Transaction) → Answer

pub record QueryResponse : Type 0 where
  pub query_hash : Blob
  pub answer : Answer
