-- ===== src/Ledger/Execution/Transfer/Supply.antt =====
-- What transfers do to the supply of an asset.
use iroha.Prelude.{
  ◌≡◌, refl, ◌+◌, true, false, Bool-cases, subst, List, some, Blob, ◌=ᵇ◌, arith, ◌∙◌, ap, sym, inl,
  inr, Option-cases,
}
use iroha.Model.Amount.{Amount}
use iroha.Model.Types.{Account, AccountAsset}
use iroha.Wsv.Table.{fetch, upsert, fetch-upsert, upsert-HasKeys, HasKeys}
use iroha.Wsv.Table.Changes.{total, weight, total-upsert}
use iroha.Wsv.Table.Found.{fetch-key}
use iroha.Wsv.Tables.{Wsv, asset_key_discrete, balance_key}
use iroha.Wsv.Tables.Integrity.{IsValid}
use iroha.Wsv.Query.{get_account_asset}
use iroha.Ledger.Execution.{execute_transfer_asset}
use iroha.Ledger.Execution.Transfer.{wallet_key, same_wallet, balance, holding, supply, units}
use iroha.Ledger.Execution.Transfer.Balances.{write}
use iroha.Ledger.Validation.{validate_transfer_asset}

holding_key :
    (a : AccountAsset) (account_id asset_id : Blob)
    → balance_key a ≡ wallet_key account_id asset_id
    → holding asset_id a ≡ a.balance
holding_key a account_id asset_id e =
    let same : a.asset_id ≡ asset_id = ap (λ k. k.asset_id) e in ground arith

pub supply-upsert :
    (a : AccountAsset) (rows : List AccountAsset) (account_id asset_id : Blob)
    → HasKeys asset_key_discrete balance_key rows
    → balance_key a ≡ wallet_key account_id asset_id
    → total (holding asset_id) (upsert asset_key_discrete balance_key a rows)
        + weight
            (holding asset_id)
            (fetch asset_key_discrete balance_key (wallet_key account_id asset_id) rows)
      ≡ total (holding asset_id) rows + a.balance
supply-upsert a rows account_id asset_id h e = rw (sym e) (
    total-upsert asset_key_discrete balance_key (holding asset_id) a rows h
    ∙ ap (λ n. total (holding asset_id) rows + n) (holding_key a account_id asset_id e))

-- A row of one asset does not count for the supply of another.
pub supply-upsert_other :
    (a : AccountAsset) (rows : List AccountAsset) (account_id asset_id other : Blob)
    → HasKeys asset_key_discrete balance_key rows
    → balance_key a ≡ wallet_key account_id asset_id
    → (asset_id =ᵇ other) ≡ false
    → total (holding other) (upsert asset_key_discrete balance_key a rows)
      ≡ total (holding other) rows
supply-upsert_other a rows account_id asset_id other h e apart =
    let same : a.asset_id ≡ asset_id = ap (λ k. k.asset_id) e in
    let nothing : holding other a ≡ 0 = ground arith in
    let sum = total-upsert asset_key_discrete balance_key (holding other) a rows h in
    elim (Option-cases (fetch asset_key_discrete balance_key (balance_key a) rows)) [
      | inl n ↦
          let old : weight (holding other)
                (fetch asset_key_discrete balance_key (balance_key a) rows)
              ≡ 0 =
            rw n refl in
          omega (arith, sum, nothing, old)
      | inr (b, f) ↦
          let key = fetch-key asset_key_discrete balance_key (balance_key a) rows b f in
          let asset : a.asset_id ≡ b.asset_id = ap (λ k. k.asset_id) key in
          let old : weight (holding other)
                (fetch asset_key_discrete balance_key (balance_key a) rows)
              ≡ 0 =
            rw f (ground arith) in
          omega (arith, sum, nothing, old)
    ]

pub weight-holding :
    (w : Wsv) (account_id asset_id : Blob)
    → weight
        (holding asset_id)
        (fetch asset_key_discrete balance_key (wallet_key account_id asset_id) w.account_has_asset)
      ≡ balance w account_id asset_id
unfolding get_account_asset
weight-holding w account_id asset_id =
    elim (Option-cases (get_account_asset w account_id asset_id)) [
      | inl e ↦ rw e refl
      | inr (a, e) ↦ rw e (
          holding_key a account_id asset_id (
            sym (
              fetch-key asset_key_discrete balance_key (wallet_key account_id asset_id)
                w.account_has_asset a e)))
    ]

pub transfer-supply :
    (w w' : Wsv) (creator : Account) (src dest asset_id : Blob) (amount : Amount)
    → IsValid w
    → validate_transfer_asset w creator src dest asset_id amount ≡ true
    → (src =ᵇ dest) ≡ false
    → execute_transfer_asset w src dest asset_id amount ≡ (w', true)
    → supply w' asset_id ≡ supply w asset_id
unfolding get_account_asset
transfer-supply w w' creator src dest asset_id amount v ok_ apart e =
    let r = write w w' creator src dest asset_id amount v ok_ e in
    let rows = w.account_has_asset in
    let inner = upsert asset_key_discrete balance_key r.received rows in
    let distinct = upsert-HasKeys asset_key_discrete balance_key r.received rows v.balance_keys in
    let look : fetch asset_key_discrete balance_key (wallet_key src asset_id) inner
        ≡ fetch asset_key_discrete balance_key (wallet_key src asset_id) rows =
      rw
        (
          fetch-upsert asset_key_discrete balance_key (wallet_key src asset_id) r.received rows
              v.balance_keys,
          r.received_key,
          same_wallet src asset_id dest asset_id,
          apart,
        )
        refl in
    let one = supply-upsert r.received rows dest asset_id v.balance_keys r.received_key in
    let two = supply-upsert r.paid inner src asset_id distinct r.paid_key in
    let three : total (holding asset_id) inner + balance w dest asset_id
        ≡ total (holding asset_id) rows + r.received.balance =
      rw (sym (weight-holding w dest asset_id)) one in
    let four : total (holding asset_id) (upsert asset_key_discrete balance_key r.paid inner)
          + balance w src asset_id
        ≡ total (holding asset_id) inner + r.paid.balance =
      rw (sym (weight-holding w src asset_id), sym look) two in
    rw r.rows (ground (arith, r.covered, r.paid_balance, r.received_balance, three, four))

-- A transfer between different accounts keeps the supply of every asset, not only of its own.
pub transfer-supply_any :
    (w w' : Wsv) (creator : Account) (src dest asset_id other : Blob) (amount : Amount)
    → IsValid w
    → validate_transfer_asset w creator src dest asset_id amount ≡ true
    → (src =ᵇ dest) ≡ false
    → execute_transfer_asset w src dest asset_id amount ≡ (w', true)
    → supply w' other ≡ supply w other
transfer-supply_any w w' creator src dest asset_id other amount v ok_ apart e =
    elim (Bool-cases (asset_id =ᵇ other)) [
      | inl same ↦
          subst (λ x. supply w' x ≡ supply w x) (ground arith)
            (transfer-supply w w' creator src dest asset_id amount v ok_ apart e)
      | inr differ ↦
          let r = write w w' creator src dest asset_id amount v ok_ e in
          let rows = w.account_has_asset in
          let inner = upsert asset_key_discrete balance_key r.received rows in
          let distinct =
            upsert-HasKeys asset_key_discrete balance_key r.received rows v.balance_keys in
          rw r.rows (
            supply-upsert_other r.paid inner src asset_id other distinct r.paid_key differ
            ∙ supply-upsert_other r.received rows dest asset_id other v.balance_keys r.received_key
                differ)
    ]

-- If the tables are valid, the transfer passes the stateful check, and executing it returns true,
-- but it goes from an account to the same account, then the amount is lost: the supply of the
-- asset is less by it (the second statement writes over what the first one credited).
pub self_transfer-supply :
    (w w' : Wsv) (creator : Account) (src asset_id : Blob) (amount : Amount)
    → IsValid w
    → validate_transfer_asset w creator src src asset_id amount ≡ true
    → execute_transfer_asset w src src asset_id amount ≡ (w', true)
    → supply w' asset_id + units w asset_id amount ≡ supply w asset_id
unfolding get_account_asset
self_transfer-supply w w' creator src asset_id amount v ok_ e =
    let r = write w w' creator src src asset_id amount v ok_ e in
    let rows = w.account_has_asset in
    let inner = upsert asset_key_discrete balance_key r.received rows in
    let distinct = upsert-HasKeys asset_key_discrete balance_key r.received rows v.balance_keys in
    let look : fetch asset_key_discrete balance_key (wallet_key src asset_id) inner
        ≡ some r.received =
      rw
        (
          fetch-upsert asset_key_discrete balance_key (wallet_key src asset_id) r.received rows
              v.balance_keys,
          r.received_key,
          same_wallet src asset_id src asset_id,
        )
        (ground arith) in
    let one = supply-upsert r.received rows src asset_id v.balance_keys r.received_key in
    let two = supply-upsert r.paid inner src asset_id distinct r.paid_key in
    let three : total (holding asset_id) inner + balance w src asset_id
        ≡ total (holding asset_id) rows + r.received.balance =
      rw (sym (weight-holding w src asset_id)) one in
    let fetched : weight (holding asset_id)
          (fetch asset_key_discrete balance_key (wallet_key src asset_id) inner)
        ≡ r.received.balance =
      rw look (holding_key r.received src asset_id r.received_key) in
    rw r.rows (ground (arith, r.covered, r.paid_balance, r.received_balance, three, two, fetched))
