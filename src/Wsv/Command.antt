-- ===== src/Wsv/Command.antt =====
-- irohad/ametsuchi/impl/postgres_wsv_command.cpp: the statements that change the world state view.
-- Each gives the tables after it and the value that the method returns; a statement that breaks a
-- constraint of the schema throws, and leaves the tables as they are. The connection is taken to
-- stay up. (A statement that throws also aborts the SQL transaction: every caller then rolls back
-- before the next statement.)
pub mod Integrity
use iroha.Prelude.{
  ◌≡◌, ℕ, ◌^◌, Bool, true, false, not, ◌&&◌, ◌||◌, List, [], ◌∷◌, ◌++◌, ltb, leb, if◌then◌else◌,
  length, contains, Blob, blob_discrete,
}
use iroha.Model.Types.{Account, Asset, AccountAsset, Peer, Domain}
use iroha.Wsv.Table.{has_key, upsert, update, delete}
use iroha.Wsv.Permissions.{write_permissions}
use iroha.Wsv.Tables.{
  Wsv, AccountRow, AccountSignatory, AssetKey, asset_key_discrete, signatory_discrete, account_key,
  asset_key, balance_key, peer_key, peer_address, link_key, peer_discrete,
}

-- `character varying(n)`
abbrev pub fits : Blob → ℕ → Bool
fits s n = leb (length s) n

-- `int` and `bigint` are signed.
abbrev pub fits_int : ℕ → Bool
fits_int x = ltb x (2 ^ 31)

abbrev pub fits_bigint : ℕ → Bool
fits_bigint x = ltb x (2 ^ 63)

-- Run a statement if its constraints hold.
abbrev pub checked : Bool → Wsv → Wsv → Wsv × Bool
checked ok_ w w' = if ok_ then (w', true) else (w, false)

abbrev pub to_row : Account → AccountRow
to_row a = record {
  account_id = a.account_id;
  domain_id = a.domain_name;
  master_key = a.master_key;
  quorum = a.quorum;
  permissions = write_permissions a.permissions;
}

unfoldable pub insert_account : Wsv → Account → Wsv × Bool
insert_account w a =
    checked
      (fits a.account_id 197
        && fits a.domain_name 164
        && fits_int a.quorum
        && contains blob_discrete a.domain_name w.domain
        && contains blob_discrete a.master_key w.signatory
        && not (has_key blob_discrete account_key a.account_id w.account))
      w (record w { account = w.account ++ to_row a ∷ [] })

unfoldable pub insert_asset : Wsv → Asset → Wsv × Bool
insert_asset w a =
    checked
      (fits a.asset_id 197
        && fits a.domain_id 164
        && contains blob_discrete a.domain_id w.domain
        && not (has_key blob_discrete asset_key a.asset_id w.asset))
      w (record w { asset = w.asset ++ a ∷ [] })

unfoldable pub upsert_account_asset : Wsv → AccountAsset → Wsv × Bool
upsert_account_asset w a =
    checked
      (fits a.account_id 197
        && fits a.asset_id 197
        && fits_bigint a.balance
        && has_key blob_discrete account_key a.account_id w.account
        && has_key blob_discrete asset_key a.asset_id w.asset)
      w
      (record w { account_has_asset = upsert asset_key_discrete balance_key a w.account_has_asset })

unfoldable pub insert_signatory : Wsv → Blob → Wsv × Bool
insert_signatory w key =
    checked (not (contains blob_discrete key w.signatory)) w
      (record w { signatory = w.signatory ++ key ∷ [] })

unfoldable pub insert_account_signatory : Wsv → Blob → Blob → Wsv × Bool
insert_account_signatory w account_id key =
    let row : AccountSignatory = record { account_id = account_id; public_key = key } in
    checked
      (fits account_id 197
        && has_key blob_discrete account_key account_id w.account
        && contains blob_discrete key w.signatory
        && not (has_key signatory_discrete link_key row w.account_has_signatory))
      w (record w { account_has_signatory = w.account_has_signatory ++ row ∷ [] })

-- Deleting no row is no error.
unfoldable pub delete_account_signatory : Wsv → Blob → Blob → Wsv × Bool
delete_account_signatory w account_id key =
    let row : AccountSignatory = record { account_id = account_id; public_key = key } in
    (
      record w {
        account_has_signatory = delete signatory_discrete link_key row w.account_has_signatory;
      },
      true,
    )

unfoldable pub insert_peer : Wsv → Peer → Wsv × Bool
insert_peer w p =
    checked
      (fits p.address 21
        && not (has_key blob_discrete peer_key p.pubkey w.peer)
        && not (has_key blob_discrete peer_address p.address w.peer))
      w (record w { peer = w.peer ++ p ∷ [] })

-- `WHERE public_key=… AND address=…`
unfoldable pub delete_peer : Wsv → Peer → Wsv × Bool
delete_peer w p = (record w { peer = delete peer_discrete (λ q. q) p w.peer }, true)

unfoldable pub insert_domain : Wsv → Domain → Wsv × Bool
insert_domain w d =
    checked (fits d.domain_id 164 && not (contains blob_discrete d.domain_id w.domain)) w
      (record w { domain = w.domain ++ d.domain_id ∷ [] })

-- The columns that `UPDATE account SET …` writes: not the domain.
abbrev pub set_columns : Account → AccountRow → AccountRow
set_columns a r = record r {
  master_key = a.master_key;
  quorum = a.quorum;
  permissions = write_permissions a.permissions;
}

-- Updating no row is no error; the foreign key is checked only where a row is updated.
unfoldable pub update_account : Wsv → Account → Wsv × Bool
update_account w a =
    checked
      (fits_int a.quorum
        && (not (has_key blob_discrete account_key a.account_id w.account)
            || contains blob_discrete a.master_key w.signatory))
      w
      (record w {
        account = update blob_discrete account_key a.account_id (set_columns a) w.account;
      })
