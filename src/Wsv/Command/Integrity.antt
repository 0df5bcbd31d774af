-- ===== src/Wsv/Command/Integrity.antt =====
-- Every statement keeps the constraints of the schema.
use iroha.Prelude.{
  ◌≡◌, refl, ◌<◌, ◌^◌, Bool, true, false, not, List, [], ◌∷◌, ◌++◌, All, All-map, All-append, Blob,
  blob_discrete, contains, contains-append, append-IsDistinct, arith, ◌||◌, Bool-cases, inl, inr,
}
use iroha.Model.Types.{Account, Asset, AccountAsset, Peer, Domain}
use iroha.Wsv.Table.{has_key, append-HasKeys, upsert-HasKeys, update, has_key-append}
use iroha.Wsv.Table.Changes.{
  All-upsert, All-update, All-delete, update-HasKeys, delete-HasKeys, keys-update, update_unmatched,
}
use iroha.Wsv.Tables.{
  Wsv, AccountRow, account_key, asset_key, balance_key, peer_key, peer_address, link_key,
  asset_key_discrete, signatory_discrete,
}
use iroha.Wsv.Tables.Integrity.{
  IsValid, AccountOk, LinkOk, BalanceOk, AssetOk, Has, HasAccount, HasAsset,
}
use iroha.Wsv.Command.{
  insert_account, insert_asset, upsert_account_asset, insert_signatory, insert_account_signatory,
  checked, delete_account_signatory, insert_peer, insert_domain, update_account, to_row,
  set_columns,
}

Has-append : (x y : Blob) (xs : List Blob) → Has x xs → Has x (xs ++ y ∷ [])
Has-append x y xs h = ground (arith, contains-append blob_discrete x xs (y ∷ []))

-- A statement under its checks.
checked-IsValid :
    (w w' : Wsv) (b : Bool) → IsValid w → (b ≡ true → IsValid w') → IsValid (checked b w w').0
checked-IsValid w w' true v k = k refl
checked-IsValid w w' false v k = v

pub upsert_account_asset-IsValid :
    (w : Wsv) (a : AccountAsset) → IsValid w → IsValid (upsert_account_asset w a).0
unfolding upsert_account_asset
upsert_account_asset-IsValid w a v = checked-IsValid w _ _ v λ e. record {
  domain_keys = v.domain_keys;
  signatory_keys = v.signatory_keys;
  account_keys = v.account_keys;
  accounts = v.accounts;
  link_keys = v.link_keys;
  links = v.links;
  peer_keys = v.peer_keys;
  peer_addresses = v.peer_addresses;
  asset_keys = v.asset_keys;
  assets = v.assets;
  balance_keys = upsert-HasKeys asset_key_discrete balance_key a w.account_has_asset v.balance_keys;
  balances =
      All-upsert asset_key_discrete balance_key (BalanceOk w.account w.asset) a w.account_has_asset
        (ground arith) v.balances;
}

HasAccount-append :
    (x : Blob) (r : AccountRow) (xs : List AccountRow)
    → HasAccount x xs
    → HasAccount x (xs ++ r ∷ [])
HasAccount-append x r xs h = ground (arith, has_key-append blob_discrete account_key x xs r)

HasAsset-append :
    (x : Blob) (r : Asset) (xs : List Asset) → HasAsset x xs → HasAsset x (xs ++ r ∷ [])
HasAsset-append x r xs h = ground (arith, has_key-append blob_discrete asset_key x xs r)

pub insert_domain-IsValid : (w : Wsv) (d : Domain) → IsValid w → IsValid (insert_domain w d).0
unfolding insert_domain
insert_domain-IsValid w d v = checked-IsValid w _ _ v λ e. record {
  domain_keys = append-IsDistinct blob_discrete w.domain d.domain_id v.domain_keys (ground arith);
  signatory_keys = v.signatory_keys;
  account_keys = v.account_keys;
  accounts =
      All-map (AccountOk w.domain w.signatory)
        (AccountOk (w.domain ++ d.domain_id ∷ []) w.signatory)
        (λ r h. (Has-append r.domain_id d.domain_id w.domain h.0, h.1, h.2)) w.account v.accounts;
  link_keys = v.link_keys;
  links = v.links;
  peer_keys = v.peer_keys;
  peer_addresses = v.peer_addresses;
  asset_keys = v.asset_keys;
  assets =
      All-map (AssetOk w.domain) (AssetOk (w.domain ++ d.domain_id ∷ []))
        (λ a h. Has-append a.domain_id d.domain_id w.domain h) w.asset v.assets;
  balance_keys = v.balance_keys;
  balances = v.balances;
}

pub insert_signatory-IsValid :
    (w : Wsv) (key : Blob) → IsValid w → IsValid (insert_signatory w key).0
unfolding insert_signatory
insert_signatory-IsValid w key v = checked-IsValid w _ _ v λ e. record {
  domain_keys = v.domain_keys;
  signatory_keys = append-IsDistinct blob_discrete w.signatory key v.signatory_keys (ground arith);
  account_keys = v.account_keys;
  accounts =
      All-map (AccountOk w.domain w.signatory) (AccountOk w.domain (w.signatory ++ key ∷ []))
        (λ r h. (h.0, Has-append r.master_key key w.signatory h.1, h.2)) w.account v.accounts;
  link_keys = v.link_keys;
  links =
      All-map (LinkOk w.account w.signatory) (LinkOk w.account (w.signatory ++ key ∷ []))
        (λ l h. (h.0, Has-append l.public_key key w.signatory h.1)) w.account_has_signatory v.links;
  peer_keys = v.peer_keys;
  peer_addresses = v.peer_addresses;
  asset_keys = v.asset_keys;
  assets = v.assets;
  balance_keys = v.balance_keys;
  balances = v.balances;
}

pub insert_account-IsValid : (w : Wsv) (a : Account) → IsValid w → IsValid (insert_account w a).0
unfolding insert_account
insert_account-IsValid w a v = checked-IsValid w _ _ v λ e. record {
  domain_keys = v.domain_keys;
  signatory_keys = v.signatory_keys;
  account_keys =
      append-HasKeys blob_discrete account_key w.account (to_row a) v.account_keys (ground arith);
  accounts =
      All-append (AccountOk w.domain w.signatory) w.account (to_row a ∷ []) v.accounts
        (ground arith);
  link_keys = v.link_keys;
  links =
      All-map (LinkOk w.account w.signatory) (LinkOk (w.account ++ to_row a ∷ []) w.signatory)
        (λ l h. (HasAccount-append l.account_id (to_row a) w.account h.0, h.1))
        w.account_has_signatory v.links;
  peer_keys = v.peer_keys;
  peer_addresses = v.peer_addresses;
  asset_keys = v.asset_keys;
  assets = v.assets;
  balance_keys = v.balance_keys;
  balances =
      All-map (BalanceOk w.account w.asset) (BalanceOk (w.account ++ to_row a ∷ []) w.asset)
        (λ b h. (HasAccount-append b.account_id (to_row a) w.account h.0, h.1, h.2))
        w.account_has_asset v.balances;
}

pub insert_asset-IsValid : (w : Wsv) (a : Asset) → IsValid w → IsValid (insert_asset w a).0
unfolding insert_asset
insert_asset-IsValid w a v = checked-IsValid w _ _ v λ e. record {
  domain_keys = v.domain_keys;
  signatory_keys = v.signatory_keys;
  account_keys = v.account_keys;
  accounts = v.accounts;
  link_keys = v.link_keys;
  links = v.links;
  peer_keys = v.peer_keys;
  peer_addresses = v.peer_addresses;
  asset_keys = append-HasKeys blob_discrete asset_key w.asset a v.asset_keys (ground arith);
  assets = All-append (AssetOk w.domain) w.asset (a ∷ []) v.assets (ground arith);
  balance_keys = v.balance_keys;
  balances =
      All-map (BalanceOk w.account w.asset) (BalanceOk w.account (w.asset ++ a ∷ []))
        (λ b h. (h.0, HasAsset-append b.asset_id a w.asset h.1, h.2)) w.account_has_asset
        v.balances;
}

pub insert_account_signatory-IsValid :
    (w : Wsv) (id key : Blob) → IsValid w → IsValid (insert_account_signatory w id key).0
unfolding insert_account_signatory
insert_account_signatory-IsValid w id key v = checked-IsValid w _ _ v λ e. record {
  domain_keys = v.domain_keys;
  signatory_keys = v.signatory_keys;
  account_keys = v.account_keys;
  accounts = v.accounts;
  link_keys =
      append-HasKeys signatory_discrete link_key w.account_has_signatory _ v.link_keys
        (ground arith);
  links =
      All-append (LinkOk w.account w.signatory) w.account_has_signatory (_ ∷ []) v.links
        (ground arith);
  peer_keys = v.peer_keys;
  peer_addresses = v.peer_addresses;
  asset_keys = v.asset_keys;
  assets = v.assets;
  balance_keys = v.balance_keys;
  balances = v.balances;
}

pub delete_account_signatory-IsValid :
    (w : Wsv) (id key : Blob) → IsValid w → IsValid (delete_account_signatory w id key).0
unfolding delete_account_signatory
delete_account_signatory-IsValid w id key v = record {
  domain_keys = v.domain_keys;
  signatory_keys = v.signatory_keys;
  account_keys = v.account_keys;
  accounts = v.accounts;
  link_keys = delete-HasKeys signatory_discrete link_key _ w.account_has_signatory v.link_keys;
  links =
      All-delete signatory_discrete link_key (LinkOk w.account w.signatory) _
        w.account_has_signatory v.links;
  peer_keys = v.peer_keys;
  peer_addresses = v.peer_addresses;
  asset_keys = v.asset_keys;
  assets = v.assets;
  balance_keys = v.balance_keys;
  balances = v.balances;
}

pub insert_peer-IsValid : (w : Wsv) (p : Peer) → IsValid w → IsValid (insert_peer w p).0
unfolding insert_peer
insert_peer-IsValid w p v = checked-IsValid w _ _ v λ e. record {
  domain_keys = v.domain_keys;
  signatory_keys = v.signatory_keys;
  account_keys = v.account_keys;
  accounts = v.accounts;
  link_keys = v.link_keys;
  links = v.links;
  peer_keys = append-HasKeys blob_discrete peer_key w.peer p v.peer_keys (ground arith);
  peer_addresses =
      append-HasKeys blob_discrete peer_address w.peer p v.peer_addresses (ground arith);
  asset_keys = v.asset_keys;
  assets = v.assets;
  balance_keys = v.balance_keys;
  balances = v.balances;
}

-- An update keeps the keys of the accounts, so what refers to them still does.
HasAccount-update :
    (x id : Blob) (a : Account) (xs : List AccountRow)
    → HasAccount x xs
    → HasAccount x (update blob_discrete account_key id (set_columns a) xs)
unfolding has_key
HasAccount-update x id a xs h =
    rw (keys-update blob_discrete account_key id (set_columns a) xs (λ _. refl)) h

update_row-AccountOk :
    (domains keys : List Blob) (id : Blob) (a : Account) (xs : List AccountRow)
    → (not (has_key blob_discrete account_key id xs) || contains blob_discrete a.master_key keys)
      ≡ true
    → a.quorum < 2 ^ 31
    → All (AccountOk domains keys) xs
    → All (AccountOk domains keys) (update blob_discrete account_key id (set_columns a) xs)
update_row-AccountOk domains keys id a xs e small h =
    elim (Bool-cases (contains blob_discrete a.master_key keys)) [
      | inl known ↦
          All-update blob_discrete account_key (AccountOk domains keys) id (set_columns a) xs
            (λ r p. (p.0, known, small)) h
      | inr unknown ↦
          rw (update_unmatched blob_discrete account_key id (set_columns a) xs (ground arith)) h
    ]

pub update_account-IsValid : (w : Wsv) (a : Account) → IsValid w → IsValid (update_account w a).0
unfolding update_account
update_account-IsValid w a v = checked-IsValid w _ _ v λ e. record {
  domain_keys = v.domain_keys;
  signatory_keys = v.signatory_keys;
  account_keys =
      update-HasKeys blob_discrete account_key a.account_id (set_columns a) w.account (λ _. refl)
        v.account_keys;
  accounts =
      update_row-AccountOk w.domain w.signatory a.account_id a w.account (ground arith)
        (ground arith) v.accounts;
  link_keys = v.link_keys;
  links =
      All-map (LinkOk w.account w.signatory)
        (LinkOk (update blob_discrete account_key a.account_id (set_columns a) w.account)
          w.signatory)
        (λ l h. (HasAccount-update l.account_id a.account_id a w.account h.0, h.1))
        w.account_has_signatory v.links;
  peer_keys = v.peer_keys;
  peer_addresses = v.peer_addresses;
  asset_keys = v.asset_keys;
  assets = v.assets;
  balance_keys = v.balance_keys;
  balances =
      All-map (BalanceOk w.account w.asset)
        (BalanceOk (update blob_discrete account_key a.account_id (set_columns a) w.account)
          w.asset)
        (λ b h. (HasAccount-update b.account_id a.account_id a w.account h.0, h.1, h.2))
        w.account_has_asset v.balances;
}
