-- ===== src/Model/Types.antt =====
-- irohad/model/{account,asset,account_asset,peer,domain,signature}.hpp.
use iroha.Prelude.{ℕ, Bool, false, Blob}

pub record Signature : Type 0 where
  pub signature : Blob
  pub pubkey : Blob

pub record Peer : Type 0 where
  pub address : Blob
  pub pubkey : Blob

pub record Domain : Type 0 where
  pub domain_id : Blob

pub record Permissions : Type 0 where
  pub issue_assets : Bool
  pub create_assets : Bool
  pub create_accounts : Bool
  pub create_domains : Bool
  pub read_all_accounts : Bool
  pub add_signatory : Bool
  pub remove_signatory : Bool
  pub set_permissions : Bool
  pub set_quorum : Bool
  pub can_transfer : Bool

-- `Permissions()`
abbrev pub no_permissions : Permissions
no_permissions = record {
  issue_assets = false;
  create_assets = false;
  create_accounts = false;
  create_domains = false;
  read_all_accounts = false;
  add_signatory = false;
  remove_signatory = false;
  set_permissions = false;
  set_quorum = false;
  can_transfer = false;
}

pub record Account : Type 0 where
  pub account_id : Blob
  pub domain_name : Blob
  pub permissions : Permissions
  pub quorum : ℕ
  pub master_key : Blob

pub record Asset : Type 0 where
  pub asset_id : Blob
  pub domain_id : Blob
  pub precision : ℕ

pub record AccountAsset : Type 0 where
  pub asset_id : Blob
  pub account_id : Blob
  pub balance : ℕ
