-- ===== src/Wsv/Tables/Integrity.antt =====
-- The constraints of the schema: primary keys, foreign keys, and the ranges of the columns.
use iroha.Prelude.{◌≡◌, ◌<◌, ◌^◌, true, List, All, Blob, blob_discrete, contains, IsDistinct, arith}
use iroha.Model.Types.{Asset, AccountAsset}
use iroha.Wsv.Table.{HasKeys, has_key}
use iroha.Wsv.Tables.{
  Wsv, AccountRow, AccountSignatory, account_key, asset_key, balance_key, peer_key, peer_address,
  link_key, asset_key_discrete, signatory_discrete, empty,
}

-- `REFERENCES`: the key is there.
abbrev pub Has : Blob → List Blob → Type 0
Has x xs = contains blob_discrete x xs ≡ true

abbrev pub HasAccount : Blob → List AccountRow → Type 0
HasAccount x xs = has_key blob_discrete account_key x xs ≡ true

abbrev pub HasAsset : Blob → List Asset → Type 0
HasAsset x xs = has_key blob_discrete asset_key x xs ≡ true

abbrev pub AccountOk : List Blob → List Blob → AccountRow → Type 0
AccountOk domains keys r = Has r.domain_id domains × Has r.master_key keys × (r.quorum < 2 ^ 31)

abbrev pub LinkOk : List AccountRow → List Blob → AccountSignatory → Type 0
LinkOk accounts keys l = HasAccount l.account_id accounts × Has l.public_key keys

abbrev pub BalanceOk : List AccountRow → List Asset → AccountAsset → Type 0
BalanceOk accounts assets a =
    HasAccount a.account_id accounts × HasAsset a.asset_id assets × (a.balance < 2 ^ 63)

abbrev pub AssetOk : List Blob → Asset → Type 0
AssetOk domains a = Has a.domain_id domains

pub record IsValid (w : Wsv) : Type 0 where
  pub domain_keys : IsDistinct blob_discrete w.domain
  pub signatory_keys : IsDistinct blob_discrete w.signatory
  pub account_keys : HasKeys blob_discrete account_key w.account
  pub accounts : All (AccountOk w.domain w.signatory) w.account
  pub link_keys : HasKeys signatory_discrete link_key w.account_has_signatory
  pub links : All (LinkOk w.account w.signatory) w.account_has_signatory
  pub peer_keys : HasKeys blob_discrete peer_key w.peer
  pub peer_addresses : HasKeys blob_discrete peer_address w.peer
  pub asset_keys : HasKeys blob_discrete asset_key w.asset
  pub assets : All (AssetOk w.domain) w.asset
  pub balance_keys : HasKeys asset_key_discrete balance_key w.account_has_asset
  pub balances : All (BalanceOk w.account w.asset) w.account_has_asset

pub empty-IsValid : IsValid empty
empty-IsValid = ground arith
