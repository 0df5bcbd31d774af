-- ===== src/Ledger/Execution/Transfer/Success.antt =====
-- When a validated transfer goes through.
use iroha.Prelude.{
  ◌≡◌, refl, ℕ, ◌+◌, ◌<◌, ◌≤◌, ◌^◌, true, some, is_some, Blob, blob_discrete, arith, Option-cases,
  inl, inr, sym, ap,
}
use iroha.Model.Amount.{Amount}
use iroha.Model.Types.{Account, AccountAsset}
use iroha.Wsv.Table.{fetch, upsert, has_key, fetch-has_key}
use iroha.Wsv.Table.Found.{fetch-All, fetch-key}
use iroha.Wsv.Tables.{Wsv, asset_key_discrete, balance_key, account_key, asset_key}
use iroha.Wsv.Tables.Integrity.{IsValid, BalanceOk}
use iroha.Wsv.Command.{upsert_account_asset, fits}
use iroha.Wsv.Query.{get_account, get_asset, get_account_asset}
use iroha.Ledger.Execution.{credited, debited, execute_transfer_asset}
use iroha.Ledger.Execution.Transfer.{wallet_key, balance, Approved, approve, units}
use iroha.Ledger.Execution.Transfer.Balances.{
  transfer_runs, balance-bound, credited_key, credited_balance,
}
use iroha.Ledger.Validation.{validate_transfer_asset}

-- The constraints that a row of `account_has_asset` has to meet.
record Fits (w : Wsv) (a : AccountAsset) (account_id asset_id : Blob) : Type 0 where
  pub account_same : a.account_id ≡ account_id
  pub asset_same : a.asset_id ≡ asset_id
  pub account_fits : fits account_id 197 ≡ true
  pub asset_fits : fits asset_id 197 ≡ true
  pub bounded : a.balance < 2 ^ 63
  pub has_account : has_key blob_discrete account_key account_id w.account ≡ true
  pub has_asset : has_key blob_discrete asset_key asset_id w.asset ≡ true

upserted : Wsv → AccountAsset → Wsv
upserted w a = record w {
  account_has_asset = upsert asset_key_discrete balance_key a w.account_has_asset;
}

upsert_succeeds :
    (w : Wsv) (a : AccountAsset) (account_id asset_id : Blob)
    → Fits w a account_id asset_id
    → upsert_account_asset w a ≡ (upserted w a, true)
unfolding upsert_account_asset upserted
upsert_succeeds w a account_id asset_id f =
    rw (f.account_same, f.asset_same, f.account_fits, f.asset_fits, f.has_account, f.has_asset)
      (ground (arith, f.bounded))

wallet_fits :
    (w : Wsv) (account_id asset_id : Blob) (a : AccountAsset)
    → IsValid w
    → get_account_asset w account_id asset_id ≡ some a
    → has_key blob_discrete account_key account_id w.account ≡ true
unfolding get_account_asset
wallet_fits w account_id asset_id a v e =
    let same =
      fetch-key asset_key_discrete balance_key (wallet_key account_id asset_id) w.account_has_asset
        a e in
    let ok_ =
      fetch-All asset_key_discrete balance_key (BalanceOk w.account w.asset)
        (wallet_key account_id asset_id) w.account_has_asset a v.balances e in
    rw (ap (λ k. k.account_id) same) ok_.0

account_found :
    (w : Wsv) (account_id : Blob)
    → is_some (get_account w account_id) ≡ true
    → has_key blob_discrete account_key account_id w.account ≡ true
unfolding get_account
account_found w account_id e =
    elim (Option-cases (fetch blob_discrete account_key account_id w.account)) [
      | inl h ↦ absurd (ground arith)
      | inr (a, h) ↦ fetch-has_key blob_discrete account_key account_id w.account a h
    ]

-- If the tables are valid, the transfer passes the stateful check, the ids are no longer than
-- their columns, and the receiver's balance stays below 2^63, then executing it returns true.
pub transfer_succeeds :
    (w : Wsv) (creator : Account) (src dest asset_id : Blob) (amount : Amount)
    → IsValid w
    → validate_transfer_asset w creator src dest asset_id amount ≡ true
    → fits src 197 ≡ true
    → fits dest 197 ≡ true
    → fits asset_id 197 ≡ true
    → balance w dest asset_id + units w asset_id amount < 2 ^ 63
    → (execute_transfer_asset w src dest asset_id amount).1 ≡ true
unfolding get_account_asset get_asset upserted
transfer_succeeds w creator src dest asset_id amount v ok_ fs fd fa room =
    let x : ℕ = units w asset_id amount in
    let p : Approved w src dest asset_id amount x =
      approve w creator src dest asset_id amount ok_ in
    let c : AccountAsset = credited (get_account_asset w dest asset_id) dest asset_id x in
    let key = credited_key w dest asset_id x in
    let sum = credited_balance w dest asset_id x (omega arith) in
    let found = fetch-has_key blob_discrete asset_key asset_id w.asset p.asset p.has_asset in
    let bound = balance-bound w src asset_id v in
    let same =
      fetch-key asset_key_discrete balance_key (wallet_key src asset_id) w.account_has_asset
        p.wallet p.has_wallet in
    let held : balance w src asset_id ≡ p.wallet.balance = rw p.has_wallet refl in
    let covered : x ≤ p.wallet.balance = p.covered in
    let one : Fits w c dest asset_id = record {
      account_same = ap (λ k. k.account_id) key;
      asset_same = ap (λ k. k.asset_id) key;
      account_fits = fd;
      asset_fits = fa;
      bounded = rw sum room;
      has_account = account_found w dest p.receiver;
      has_asset = found;
    } in
    let two : Fits (upserted w c) (debited p.wallet x) src asset_id = record {
      account_same = sym (ap (λ k. k.account_id) same);
      asset_same = sym (ap (λ k. k.asset_id) same);
      account_fits = fs;
      asset_fits = fa;
      bounded = omega arith;
      has_account = wallet_fits w src asset_id p.wallet v p.has_wallet;
      has_asset = found;
    } in
    rw (transfer_runs w src dest asset_id amount x p, upsert_succeeds w c dest asset_id one)
      (ap (λ q. q.1) (upsert_succeeds (upserted w c) (debited p.wallet x) src asset_id two))
