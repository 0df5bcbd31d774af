-- ===== src/Json/Queries.antt =====
-- irohad/model/converters/impl/json_query_factory.cpp, from the document that rapidjson parsed. A
-- query without a field that is required has no result (`nullopt` in the source), and neither has an
-- access that rapidjson asserts against.
use iroha.Prelude.{not, List, [], ◌∷◌, Option, none, some, Blob, ◌=ᵇ◌, if◌then◌else◌, ◌>>=◌}
use iroha.Wire.Queries.{
  PbRequest, pb_get_account, pb_get_account_signatories, pb_get_account_transactions,
  pb_get_account_asset_transactions, pb_get_account_assets, PbQuery,
}
use iroha.Json.{Json, codes, get, string_at, uint64_at, verify_required_members}

unfoldable pub deserialize_get_account : Json → Option PbRequest
deserialize_get_account obj_query = do
  account_id ← string_at "account_id" obj_query
  some (pb_get_account account_id)

unfoldable pub deserialize_get_signatories : Json → Option PbRequest
deserialize_get_signatories obj_query = do
  account_id ← string_at "account_id" obj_query
  some (pb_get_account_signatories account_id)

unfoldable pub deserialize_get_account_transactions : Json → Option PbRequest
deserialize_get_account_transactions obj_query = do
  account_id ← string_at "account_id" obj_query
  some (pb_get_account_transactions account_id)

unfoldable pub deserialize_get_account_asset_transactions : Json → Option PbRequest
deserialize_get_account_asset_transactions obj_query = do
  account_id ← string_at "account_id" obj_query
  asset_id ← string_at "asset_id" obj_query
  some (pb_get_account_asset_transactions account_id asset_id)

unfoldable pub deserialize_get_account_assets : Json → Option PbRequest
deserialize_get_account_assets obj_query = do
  account_id ← string_at "account_id" obj_query
  asset_id ← string_at "asset_id" obj_query
  some (pb_get_account_assets account_id asset_id)

-- `deserializers_`
abbrev pub deserializers : List (Blob × (Json → Option PbRequest))
deserializers =
    (codes "GetAccount", deserialize_get_account)
    ∷ (codes "GetAccountAsset", deserialize_get_account_assets)
    ∷ (codes "GetAccountAssetTransactions", deserialize_get_account_asset_transactions)
    ∷ (codes "GetAccountTransactions", deserialize_get_account_transactions)
    ∷ (codes "GetAccountSignatories", deserialize_get_signatories)
    ∷ []

unfoldable pub dispatch : Blob → List (Blob × (Json → Option PbRequest)) → Json → Option PbRequest
dispatch query_type [] obj_query = none
dispatch query_type (entry ∷ entries) obj_query =
    let rest = dispatch query_type entries obj_query in
    if query_type =ᵇ entry.0 then entry.1 obj_query else rest

-- The texts of the signature go into the message as they are.
unfoldable pub deserialize : Json → Option PbQuery
unfolding dispatch
deserialize obj_query =
    if not (
      verify_required_members obj_query
        ("signature" ∷ "creator_account_id" ∷ "created_ts" ∷ "query_counter" ∷ "query_type" ∷ []))
    then none
    else do
      sig ← get "signature" obj_query
      created_time ← uint64_at "created_ts" obj_query
      pubkey ← string_at "pubkey" sig
      signature ← string_at "signature" sig
      creator_account_id ← string_at "creator_account_id" obj_query
      query_counter ← uint64_at "query_counter" obj_query
      query_type ← string_at "query_type" obj_query
      request ← dispatch query_type deserializers obj_query
      some (record {
        created_time = created_time;
        signature = record { pubkey = pubkey; signature = signature };
        creator_account_id = creator_account_id;
        query_counter = query_counter;
        request = request;
      })
