-- ===== src/Ledger/Execution/Issue.antt =====
-- What commands do to the supply of every asset.
use iroha.Prelude.{
  ◌≡◌, refl, ℕ, ◌+◌, ◌<◌, ◌^◌, Bool, true, false, Blob, ◌=ᵇ◌, if◌then◌else◌, ltb, arith, sym, ◌∙◌,
  inl, inr, Option-cases, Bool-cases,
}
use iroha.Model.Amount.{Amount, get_frac_number}
use iroha.Model.Types.{Account}
use iroha.Model.Command.{
  Command, add_asset_quantity, add_peer, add_signatory, assign_master_key, create_account,
  create_asset, create_domain, remove_signatory, set_account_permissions, set_quorum,
  transfer_asset,
}
use iroha.Wsv.Tables.{Wsv}
use iroha.Wsv.Tables.Integrity.{IsValid}
use iroha.Wsv.Command.{
  insert_account, insert_asset, upsert_account_asset, insert_signatory, insert_account_signatory,
  delete_account_signatory, insert_peer, insert_domain, update_account,
}
use iroha.Wsv.Query.{get_account, get_asset, get_account_asset}
use iroha.Ledger.Execution.{
  credited, execute, execute_add_asset_quantity, execute_assign_master_key,
  execute_set_account_permissions, execute_set_quorum, execute_create_account, execute_create_asset,
}
use iroha.Ledger.Validation.{validate}
use iroha.Ledger.Execution.Transfer.{balance, supply, units}
use iroha.Ledger.Execution.Transfer.Balances.{upsert_inverse, credited_key, credited_balance}
use iroha.Ledger.Execution.Transfer.Supply.{
  supply-upsert, supply-upsert_other, weight-holding, transfer-supply_any,
}

-- What a command issues of an asset.
abbrev pub issued : Wsv → Command → Blob → ℕ
issued w (add_asset_quantity account_id asset_id amount) asset =
    if asset_id =ᵇ asset then units w asset_id amount else 0
issued w _ asset = 0

-- No transfer to the sender itself, and no credit past the range of an amount.
abbrev pub IsOrdinary : Wsv → Command → Type 0
IsOrdinary w (transfer_asset src dest asset_id amount) = (src =ᵇ dest) ≡ false
IsOrdinary w (add_asset_quantity account_id asset_id amount) =
    balance w account_id asset_id + units w asset_id amount < 2 ^ 64
IsOrdinary w _ = Unit {0}

-- The row that `AddAssetQuantity` writes.
add_runs :
    (w w' : Wsv) (account_id asset_id : Blob) (amount : Amount)
    → execute_add_asset_quantity w account_id asset_id amount ≡ (w', true)
    → upsert_account_asset w (
        credited
          (get_account_asset w account_id asset_id)
          account_id
          asset_id
          (units w asset_id amount))
      ≡ (w', true)
unfolding execute_add_asset_quantity
add_runs w w' account_id asset_id amount e = elim (Option-cases (get_asset w asset_id)) [
  | inl n ↦ absurd (ground (arith, n))
  | inr (asset, f) ↦ elim (Option-cases (get_account w account_id)) [
    | inl n ↦ absurd (ground (arith, f, n))
    | inr (account, g) ↦ elim (Bool-cases (ltb asset.precision (get_frac_number amount))) [
      | inl p ↦ absurd (ground (arith, f, g, p))
      | inr p ↦ rw f (rw (f, g, p) at e)
    ]
  ]
]

add-supply :
    (w w' : Wsv) (account_id asset_id other : Blob) (amount : Amount)
    → IsValid w
    → balance w account_id asset_id + units w asset_id amount < 2 ^ 64
    → execute_add_asset_quantity w account_id asset_id amount ≡ (w', true)
    → supply w' other ≡ supply w other + (if asset_id =ᵇ other then units w asset_id amount else 0)
add-supply w w' account_id asset_id other amount v fits e =
    let row =
      credited (get_account_asset w account_id asset_id) account_id asset_id
        (units w asset_id amount) in
    let rows = upsert_inverse w w' row (add_runs w w' account_id asset_id amount e) in
    let key = credited_key w account_id asset_id (units w asset_id amount) in
    elim (Bool-cases (asset_id =ᵇ other)) [
      | inl same ↦
          let one : asset_id ≡ other = ground arith in
          let sum = supply-upsert row w.account_has_asset account_id asset_id v.balance_keys key in
          let held = weight-holding w account_id asset_id in
          let new = credited_balance w account_id asset_id (units w asset_id amount) fits in
          rw (rows.0, same, sym one) (omega (arith, sum, held, new))
      | inr apart ↦
          rw (rows.0, apart)
            (supply-upsert_other row w.account_has_asset account_id asset_id other v.balance_keys
                key apart
              ∙ omega arith)
    ]

-- The commands of the other tables.
abbrev holds_no_asset : Command → Bool
holds_no_asset (add_asset_quantity account_id asset_id amount) = false
holds_no_asset (transfer_asset src dest asset_id amount) = false
holds_no_asset _ = true

account-balances :
    (w w' : Wsv) (name domain_id pubkey : Blob)
    → execute_create_account w name domain_id pubkey ≡ (w', true)
    → w'.account_has_asset ≡ w.account_has_asset
unfolding execute_create_account insert_signatory insert_account insert_account_signatory
account-balances w w' name domain_id pubkey e = ground (arith, e)

other-balances :
    (c : Command) (w w' : Wsv)
    → holds_no_asset c ≡ true
    → execute c w ≡ (w', true)
    → w'.account_has_asset ≡ w.account_has_asset
unfolding execute execute_assign_master_key execute_set_account_permissions execute_set_quorum
    execute_create_asset insert_asset insert_account_signatory delete_account_signatory insert_peer
    insert_domain update_account
other-balances (add_asset_quantity account_id asset_id amount) w w' h e = absurd (ground arith)
other-balances (add_peer peer_key address) w w' h e = ground arith
other-balances (add_signatory account_id pubkey) w w' h e = ground arith
other-balances (assign_master_key account_id pubkey) w w' h e = ground arith
other-balances (create_account name domain_id pubkey) w w' h e =
    account-balances w w' name domain_id pubkey e
other-balances (create_asset name domain_id precision) w w' h e = ground arith
other-balances (create_domain domain_name) w w' h e = ground arith
other-balances (remove_signatory account_id pubkey) w w' h e = ground arith
other-balances (set_account_permissions account_id p) w w' h e = ground arith
other-balances (set_quorum account_id new_quorum) w w' h e = ground arith
other-balances (transfer_asset src dest asset_id amount) w w' h e = absurd (ground arith)

other-supply :
    (c : Command) (w w' : Wsv) (asset : Blob)
    → holds_no_asset c ≡ true
    → execute c w ≡ (w', true)
    → supply w' asset ≡ supply w asset + 0
other-supply c w w' asset h e = rw (other-balances c w w' h e) (omega arith)

-- If the tables are valid, a command passes the stateful check, executing it returns true, it is no
-- transfer from an account to itself, and no credit takes a balance to 2^64, then the supply of
-- every asset stays, but for that of an asset whose quantity it adds to, which grows by exactly the
-- amount.
pub execute-supply :
    (c : Command) (w w' : Wsv) (creator : Account) (asset : Blob)
    → IsValid w
    → validate c w creator ≡ true
    → IsOrdinary w c
    → execute c w ≡ (w', true)
    → supply w' asset ≡ supply w asset + issued w c asset
unfolding execute validate
execute-supply (add_asset_quantity account_id asset_id amount) w w' creator asset v k o e =
    add-supply w w' account_id asset_id asset amount v o e
execute-supply (transfer_asset src dest asset_id amount) w w' creator asset v k o e =
    transfer-supply_any w w' creator src dest asset_id asset amount v k o e ∙ omega arith
execute-supply (add_peer peer_key address) w w' creator asset v k o e =
    other-supply (add_peer peer_key address) w w' asset refl e
execute-supply (add_signatory account_id pubkey) w w' creator asset v k o e =
    other-supply (add_signatory account_id pubkey) w w' asset refl e
execute-supply (assign_master_key account_id pubkey) w w' creator asset v k o e =
    other-supply (assign_master_key account_id pubkey) w w' asset refl e
execute-supply (create_account name domain_id pubkey) w w' creator asset v k o e =
    other-supply (create_account name domain_id pubkey) w w' asset refl e
execute-supply (create_asset name domain_id precision) w w' creator asset v k o e =
    other-supply (create_asset name domain_id precision) w w' asset refl e
execute-supply (create_domain domain_name) w w' creator asset v k o e =
    other-supply (create_domain domain_name) w w' asset refl e
execute-supply (remove_signatory account_id pubkey) w w' creator asset v k o e =
    other-supply (remove_signatory account_id pubkey) w w' asset refl e
execute-supply (set_account_permissions account_id p) w w' creator asset v k o e =
    other-supply (set_account_permissions account_id p) w w' asset refl e
execute-supply (set_quorum account_id new_quorum) w w' creator asset v k o e =
    other-supply (set_quorum account_id new_quorum) w w' asset refl e
