-- ===== src/Wire/Queries.antt =====
-- irohad/model/converters/impl/pb_query_factory.cpp, with `Query` of schema/queries.proto.
use iroha.Prelude.{ℕ, Option, none, some, Blob, ◌>>=◌}
use iroha.Model.Hash.{hash_query}
use iroha.Query.{
  Request, get_account, get_account_assets, get_signatories, get_account_transactions, Query,
}
use iroha.Wire.Messages.{PbSignature}
use iroha.Wire.Transactions.{deserialize_signature}

-- `oneof query`
pub data PbRequest : Type 0 where
  request_not_set : PbRequest
  pb_get_account : (account_id : Blob) → PbRequest
  pb_get_account_signatories : (account_id : Blob) → PbRequest
  pb_get_account_transactions : (account_id : Blob) → PbRequest
  pb_get_account_asset_transactions : (account_id asset_id : Blob) → PbRequest
  pb_get_account_assets : (account_id asset_id : Blob) → PbRequest

pub record PbQuery : Type 0 where
  pub created_time : ℕ
  pub signature : PbSignature
  pub creator_account_id : Blob
  pub query_counter : ℕ
  pub request : PbRequest

unfoldable pub deserialize_request : PbRequest → Option Request
deserialize_request (pb_get_account account_id) = some (get_account account_id)
deserialize_request (pb_get_account_assets account_id asset_id) =
    some (get_account_assets account_id asset_id)
deserialize_request (pb_get_account_signatories account_id) = some (get_signatories account_id)
deserialize_request (pb_get_account_transactions account_id) =
    some (get_account_transactions account_id)
deserialize_request _ = none

module _ (sha3_256 : Blob → Blob) (uninit : ℕ → Blob) where
  -- `some none` is the null pointer.
  unfoldable pub deserialize_query : PbQuery → Option (Option Query)
  unfolding deserialize_request deserialize_signature hash_query
  deserialize_query pb_query = elim (deserialize_request pb_query.request) [
    | none ↦ some none
    | some request ↦ do
      sign ← deserialize_signature (uninit 32) (uninit 64) pb_query.signature
      some (
          some (record {
            signature = sign;
            creator_account_id = pb_query.creator_account_id;
            created_ts = pb_query.created_time;
            query_hash = hash_query sha3_256 pb_query.query_counter;
            query_counter = pb_query.query_counter;
            request = request;
          }))
  ]
