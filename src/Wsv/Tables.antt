-- ===== src/Wsv/Tables.antt =====
-- The tables that the statement `init_` of irohad/ametsuchi/impl/storage_impl.hpp creates, with
-- their keys. The columns that the code never reads (`open`, `status`, `transaction_count`,
-- `state`, `data`, the `permissions` of `account_has_asset`) and the table `exchange` are left out.
pub mod Integrity
use iroha.Prelude.{◌≡◌, ℕ, List, [], ◌<◌, ◌^◌, Blob, blob_discrete}
use iroha.Model.Types.{Asset, AccountAsset, Peer}

-- A row of `account`; the permissions are the text that was written.
pub record AccountRow : Type 0 where
  pub account_id : Blob
  pub domain_id : Blob
  pub master_key : Blob
  pub quorum : ℕ
  pub permissions : Blob

-- A row of `account_has_signatory`.
pub record AccountSignatory : Type 0 where
  pub account_id : Blob
  pub public_key : Blob

-- The key of `account_has_asset`.
pub record AssetKey : Type 0 where
  pub account_id : Blob
  pub asset_id : Blob

pub record Wsv : Type 0 where
  pub domain : List Blob
  pub signatory : List Blob
  pub account : List AccountRow
  pub account_has_signatory : List AccountSignatory
  pub peer : List Peer
  pub asset : List Asset
  pub account_has_asset : List AccountAsset

abbrev pub empty : Wsv
empty = record {
  domain = [];
  signatory = [];
  account = [];
  account_has_signatory = [];
  peer = [];
  asset = [];
  account_has_asset = [];
}

unfoldable pub asset_key_discrete : Discrete AssetKey
unfolding blob_discrete
asset_key_discrete = hlevel blob_discrete

unfoldable pub signatory_discrete : Discrete AccountSignatory
unfolding blob_discrete
signatory_discrete = hlevel blob_discrete

unfoldable pub peer_discrete : Discrete Peer
unfolding blob_discrete
peer_discrete = hlevel blob_discrete

abbrev pub account_key : AccountRow → Blob
account_key r = r.account_id

abbrev pub asset_key : Asset → Blob
asset_key a = a.asset_id

abbrev pub balance_key : AccountAsset → AssetKey
balance_key a = record { account_id = a.account_id; asset_id = a.asset_id }

abbrev pub peer_key : Peer → Blob
peer_key p = p.pubkey

abbrev pub peer_address : Peer → Blob
peer_address p = p.address

abbrev pub link_key : AccountSignatory → AccountSignatory
link_key l = l
