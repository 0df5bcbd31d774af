-- ===== src/Wsv/Query.antt =====
-- irohad/ametsuchi/impl/postgres_wsv_query.cpp: the queries. (`TemporaryWsvImpl`,
-- `MutableStorageImpl` and `StorageImpl` pass theirs on to these.)
use iroha.Prelude.{List, Option, none, some, Blob, blob_discrete, map}
use iroha.Model.Types.{Account, Asset, AccountAsset, Peer}
use iroha.Wsv.Table.{select, fetch}
use iroha.Wsv.Permissions.{read_permissions}
use iroha.Wsv.Tables.{
  Wsv, AccountRow, AccountSignatory, asset_key_discrete, account_key, asset_key, balance_key,
}

abbrev pub from_row : AccountRow → Account
from_row r = record {
  account_id = r.account_id;
  domain_name = r.domain_id;
  permissions = read_permissions r.permissions;
  quorum = r.quorum;
  master_key = r.master_key;
}

unfoldable pub get_account : Wsv → Blob → Option Account
get_account w account_id = elim (fetch blob_discrete account_key account_id w.account) [
  | none ↦ none
  | some r ↦ some (from_row r)
]

abbrev pub signatory_account : AccountSignatory → Blob
signatory_account l = l.account_id

-- The query for signatories has an answer also where the account has none, or is not there.
unfoldable pub get_signatories : Wsv → Blob → Option (List Blob)
get_signatories w account_id = some (
    map (λ l. l.public_key)
      (select blob_discrete signatory_account account_id w.account_has_signatory))

unfoldable pub get_asset : Wsv → Blob → Option Asset
get_asset w asset_id = fetch blob_discrete asset_key asset_id w.asset

unfoldable pub get_account_asset : Wsv → Blob → Blob → Option AccountAsset
get_account_asset w account_id asset_id =
    fetch asset_key_discrete balance_key (record { account_id = account_id; asset_id = asset_id })
      w.account_has_asset

unfoldable pub get_peers : Wsv → Option (List Peer)
get_peers w = some w.peer
