-- ===== src/Wire/Responses.antt =====
-- irohad/model/converters/impl/pb_query_response_factory.cpp, with the messages of
-- schema/responses.proto.
pub mod RoundTrip
use iroha.Prelude.{ℕ, List, Option, none, some, Blob, map, ◌>>=◌, traverse}
use iroha.Model.Types.{Account, AccountAsset, Permissions}
use iroha.Model.Command.{Transaction}
use iroha.Query.{
  Reason, stateless_invalid, stateful_invalid, no_account, no_account_assets, no_signatories,
  not_supported, Answer, error_response, account_response, account_asset_response,
  signatories_response, transactions_response, QueryResponse,
}
use iroha.Wire.Bytes.{copy}
use iroha.Wire.Messages.{PbPermissions, PbTransaction}
use iroha.Wire.Transactions.{serialize_transaction}

pub record PbAccount : Type 0 where
  pub account_id : Blob
  pub domain_name : Blob
  pub permissions : PbPermissions
  pub quorum : ℕ
  pub master_key : Blob

pub record PbAccountAsset : Type 0 where
  pub asset_id : Blob
  pub account_id : Blob
  pub balance : ℕ

pub data PbReason : Type 0 where
  pb_stateless_invalid : PbReason
  pb_stateful_invalid : PbReason
  pb_no_account : PbReason
  pb_no_account_assets : PbReason
  pb_no_signatories : PbReason
  pb_not_supported : PbReason
  pb_wrong_format : PbReason

-- `oneof response`; the hash of the query is no part of it.
pub data PbQueryResponse : Type 0 where
  response_not_set : PbQueryResponse
  pb_account_assets_response : (account_asset : PbAccountAsset) → PbQueryResponse
  pb_account_response : (account : PbAccount) → PbQueryResponse
  pb_error_response : (reason : PbReason) → PbQueryResponse
  pb_signatories_response : (keys : List Blob) → PbQueryResponse
  pb_transactions_response : (transactions : List PbTransaction) → PbQueryResponse

unfoldable pub serialize_account : Account → PbAccount
serialize_account account = record {
  account_id = account.account_id;
  domain_name = account.domain_name;
  permissions = record {
    issue_assets = account.permissions.issue_assets;
    create_assets = account.permissions.create_assets;
    create_accounts = account.permissions.create_accounts;
    create_domains = account.permissions.create_domains;
    read_all_accounts = account.permissions.read_all_accounts;
    add_signatory = account.permissions.add_signatory;
    remove_signatory = account.permissions.remove_signatory;
    set_permissions = account.permissions.set_permissions;
    set_quorum = account.permissions.set_quorum;
    can_transfer = account.permissions.can_transfer;
  };
  quorum = account.quorum;
  master_key = account.master_key;
}

unfoldable pub serialize_account_asset : AccountAsset → PbAccountAsset
serialize_account_asset account_asset = record {
  asset_id = account_asset.asset_id;
  account_id = account_asset.account_id;
  balance = account_asset.balance;
}

unfoldable pub serialize_error : Reason → PbReason
serialize_error stateless_invalid = pb_stateless_invalid
serialize_error stateful_invalid = pb_stateful_invalid
serialize_error no_account = pb_no_account
serialize_error no_account_assets = pb_no_account_assets
serialize_error no_signatories = pb_no_signatories
serialize_error not_supported = pb_not_supported

-- `none` is for an object of `QueryResponse` itself, which nothing makes.
unfoldable pub serialize_answer : Answer → Option PbQueryResponse
unfolding serialize_account serialize_account_asset serialize_error serialize_transaction
serialize_answer (error_response reason) = some (pb_error_response (serialize_error reason))
serialize_answer (account_asset_response acct_asset) =
    some (pb_account_assets_response (serialize_account_asset acct_asset))
serialize_answer (account_response account) = some (pb_account_response (serialize_account account))
serialize_answer (signatories_response keys) = some (pb_signatories_response keys)
serialize_answer (transactions_response transactions) =
    some (pb_transactions_response (map serialize_transaction transactions))

abbrev pub serialize_response : QueryResponse → Option PbQueryResponse
serialize_response query_response = serialize_answer query_response.answer

abbrev pub deserialize_account_permissions : PbPermissions → Permissions
deserialize_account_permissions p = record {
  issue_assets = p.issue_assets;
  create_assets = p.create_assets;
  create_accounts = p.create_accounts;
  create_domains = p.create_domains;
  read_all_accounts = p.read_all_accounts;
  add_signatory = p.add_signatory;
  remove_signatory = p.remove_signatory;
  set_permissions = p.set_permissions;
  set_quorum = p.set_quorum;
  can_transfer = p.can_transfer;
}

unfoldable pub deserialize_account_asset : PbAccountAsset → AccountAsset
deserialize_account_asset account_asset = record {
  asset_id = account_asset.asset_id;
  account_id = account_asset.account_id;
  balance = account_asset.balance;
}

module _ (uninit : ℕ → Blob) where
  unfoldable pub deserialize_account : PbAccount → Option Account
  unfolding copy
  deserialize_account pb_account = do
    master_key ← copy pb_account.master_key (uninit 32)
    some (record {
      account_id = pb_account.account_id;
      domain_name = pb_account.domain_name;
      permissions = deserialize_account_permissions pb_account.permissions;
      quorum = pb_account.quorum;
      master_key = master_key;
    })

  unfoldable pub deserialize_signatories : List Blob → Option (List Blob)
  unfolding copy
  deserialize_signatories keys = traverse (λ key. copy key (uninit 32)) keys
