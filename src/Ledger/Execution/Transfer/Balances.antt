-- ===== src/Ledger/Execution/Transfer/Balances.antt =====
-- The balances after a transfer.
use iroha.Prelude.{
  ◌≡◌, refl, ℕ, ◌+◌, ◌-◌, ◌<◌, ◌≤◌, ◌^◌, Bool, true, false, ◌&&◌, if◌then◌else◌, Blob, ◌=ᵇ◌, arith,
  Option-cases, inl, inr, sym, ◌∙◌, ap,
}
use iroha.Model.Amount.{Amount}
use iroha.Model.Types.{Account, AccountAsset}
use iroha.Wsv.Table.{upsert, fetch-upsert, upsert-HasKeys}
use iroha.Wsv.Table.Found.{fetch-All, fetch-key}
use iroha.Wsv.Tables.{Wsv, asset_key_discrete, balance_key}
use iroha.Wsv.Tables.Integrity.{IsValid, BalanceOk}
use iroha.Wsv.Command.{upsert_account_asset}
use iroha.Wsv.Query.{get_account_asset}
use iroha.Ledger.Execution.{also, credited, debited, execute_transfer_asset}
use iroha.Ledger.Execution.Transfer.{wallet_key, same_wallet, balance, Approved, approve, units}
use iroha.Ledger.Validation.{validate_transfer_asset}

-- The statements that an approved transfer comes to.
pub transfer_runs :
    (w : Wsv) (src dest asset_id : Blob) (amount : Amount) (x : ℕ)
    (p : Approved w src dest asset_id amount x)
    → execute_transfer_asset w src dest asset_id amount
      ≡ also
          (upsert_account_asset w (credited (get_account_asset w dest asset_id) dest asset_id x))
          (λ w'. upsert_account_asset w' (debited p.wallet x))
unfolding execute_transfer_asset
transfer_runs w src dest asset_id amount x p =
    rw (p.has_wallet, p.has_asset, p.precise, p.joint) refl

-- An upsert that returned true.
pub upsert_inverse :
    (w w' : Wsv) (a : AccountAsset)
    → upsert_account_asset w a ≡ (w', true)
    → (w'.account_has_asset ≡ upsert asset_key_discrete balance_key a w.account_has_asset)
      × (a.balance < 2 ^ 63)
unfolding upsert_account_asset
upsert_inverse w w' a e = ground arith

-- Two statements that both returned true.
pub also_inverse :
    (p : Wsv × Bool) (f : Wsv → Wsv × Bool) (w' : Wsv)
    → also p f ≡ (w', true)
    → (w₁ : Wsv) × (p ≡ (w₁, true)) × (f w₁ ≡ (w', true))
also_inverse (w₁, true) f w' e = (w₁, refl, e)
also_inverse (w₁, false) f w' e = absurd (ground arith)

-- The wallets that a transfer writes.
pub record Written (w w' : Wsv) (src dest asset_id : Blob) (x : ℕ) : Type 0 where
  pub paid : AccountAsset
  pub received : AccountAsset
  pub rows :
      w'.account_has_asset
      ≡ upsert asset_key_discrete balance_key paid
          (upsert asset_key_discrete balance_key received w.account_has_asset)
  pub paid_key : balance_key paid ≡ wallet_key src asset_id
  pub received_key : balance_key received ≡ wallet_key dest asset_id
  pub covered : x ≤ balance w src asset_id
  pub paid_balance : paid.balance ≡ balance w src asset_id - x
  pub received_balance : received.balance ≡ balance w dest asset_id + x

pub balance-bound :
    (w : Wsv) (account_id asset_id : Blob) → IsValid w → balance w account_id asset_id < 2 ^ 63
unfolding get_account_asset
balance-bound w account_id asset_id v =
    elim (Option-cases (get_account_asset w account_id asset_id)) [
      | inl e ↦ rw e (omega arith)
      | inr (a, e) ↦
          rw e
            (fetch-All asset_key_discrete balance_key (BalanceOk w.account w.asset)
              (wallet_key account_id asset_id) w.account_has_asset a v.balances e).2
    ]

pub credited_key :
    (w : Wsv) (account_id asset_id : Blob) (x : ℕ)
    → balance_key (credited (get_account_asset w account_id asset_id) account_id asset_id x)
      ≡ wallet_key account_id asset_id
unfolding get_account_asset
credited_key w account_id asset_id x =
    elim (Option-cases (get_account_asset w account_id asset_id)) [
      | inl e ↦ rw e refl
      | inr (a, e) ↦ rw e (
          sym (
            fetch-key asset_key_discrete balance_key (wallet_key account_id asset_id)
              w.account_has_asset a e))
    ]

pub credited_balance :
    (w : Wsv) (account_id asset_id : Blob) (x : ℕ)
    → balance w account_id asset_id + x < 2 ^ 64
    → (credited (get_account_asset w account_id asset_id) account_id asset_id x).balance
      ≡ balance w account_id asset_id + x
credited_balance w account_id asset_id x h = ground arith

pub write :
    (w w' : Wsv) (creator : Account) (src dest asset_id : Blob) (amount : Amount)
    → IsValid w
    → validate_transfer_asset w creator src dest asset_id amount ≡ true
    → execute_transfer_asset w src dest asset_id amount ≡ (w', true)
    → Written w w' src dest asset_id (units w asset_id amount)
unfolding get_account_asset
write w w' creator src dest asset_id amount v ok_ e =
    let x : ℕ = units w asset_id amount in
    let p : Approved w src dest asset_id amount x =
      approve w creator src dest asset_id amount ok_ in
    let c : AccountAsset = credited (get_account_asset w dest asset_id) dest asset_id x in
    let both =
      also_inverse (upsert_account_asset w c) _ w'
        (sym (transfer_runs w src dest asset_id amount x p) ∙ e) in
    let first = upsert_inverse w both.0 c both.1 in
    let second = upsert_inverse both.0 w' (debited p.wallet x) both.2 in
    let src_bound : balance w src asset_id < 2 ^ 63 = balance-bound w src asset_id v in
    let dest_bound : balance w dest asset_id < 2 ^ 63 = balance-bound w dest asset_id v in
    let held : balance w src asset_id ≡ p.wallet.balance = rw p.has_wallet refl in
    let covered : x ≤ p.wallet.balance = p.covered in
    record {
      paid = debited p.wallet x;
      received = c;
      rows = second.0 ∙ ap (upsert asset_key_discrete balance_key (debited p.wallet x)) first.0;
      paid_key = sym (
          fetch-key asset_key_discrete balance_key (wallet_key src asset_id) w.account_has_asset
            p.wallet p.has_wallet);
      received_key = credited_key w dest asset_id x;
      covered = omega arith;
      paid_balance = omega arith;
      received_balance = credited_balance w dest asset_id x (omega arith);
    }

-- If the tables are valid, the transfer passes the stateful check, it goes from an account to
-- another, and executing it returns true, then the wallet of the source has the amount less, that
-- of the destination the amount more (neither wraps), and every other wallet is as it was.
pub transfer_moves :
    (w w' : Wsv) (creator : Account) (src dest asset_id : Blob) (amount : Amount)
    → IsValid w
    → validate_transfer_asset w creator src dest asset_id amount ≡ true
    → (src =ᵇ dest) ≡ false
    → execute_transfer_asset w src dest asset_id amount ≡ (w', true)
    → (units w asset_id amount ≤ balance w src asset_id)
      × ((account_id other : Blob)
          → balance w' account_id other ≡ (
              if (account_id =ᵇ src) && (other =ᵇ asset_id)
              then balance w src asset_id - units w asset_id amount
              else if (account_id =ᵇ dest) && (other =ᵇ asset_id)
              then balance w dest asset_id + units w asset_id amount
              else balance w account_id other))
unfolding get_account_asset
transfer_moves w w' creator src dest asset_id amount v ok_ apart e =
    let r = write w w' creator src dest asset_id amount v ok_ e in
    let inner = upsert asset_key_discrete balance_key r.received w.account_has_asset in
    let distinct =
      upsert-HasKeys asset_key_discrete balance_key r.received w.account_has_asset v.balance_keys in
    (
      r.covered,
      λ account_id other.
          rw
            (
              r.rows,
              fetch-upsert asset_key_discrete balance_key (wallet_key account_id other) r.paid inner
                  distinct,
              fetch-upsert asset_key_discrete balance_key (wallet_key account_id other) r.received
                  w.account_has_asset v.balance_keys,
              r.paid_key,
              r.received_key,
              same_wallet account_id other src asset_id,
              same_wallet account_id other dest asset_id,
            )
            (ground (arith, r.paid_balance, r.received_balance)),
    )
