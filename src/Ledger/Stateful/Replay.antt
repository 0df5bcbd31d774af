-- ===== src/Ledger/Stateful/Replay.antt =====
-- What the stateful validator keeps of a proposal, as a relation, and what follows for those who
-- run the verified proposal again.
use iroha.Prelude.{
  ◌≡◌, refl, Bool, true, false, List, [], ◌∷◌, ◌++◌, arith, Bool-cases, Option-cases, inl, inr, ap,
  sym, ◌∙◌, ltb, length, append_assoc, append-nil,
}
use mathlib.Core.List.{Sublist}
use mathlib.Core.List.Sublist
use iroha.Model.Types.{Account}
use iroha.Model.Command.{Command, Transaction, Proposal}
use iroha.Wsv.Tables.{Wsv}
use iroha.Wsv.Tables.Integrity.{IsValid}
use iroha.Wsv.Query.{get_account, get_signatories}
use iroha.Ledger.Execution.{also, execute}
use iroha.Ledger.Execution.Integrity.{execute-IsValid}
use iroha.Ledger.Stateful.{
  verify_commands, checking_transaction, apply, filter_step, accumulate, validate_proposal,
}
use iroha.Ledger.Chain.{execute_commands, execute_transactions}

-- The transactions that are kept one after another, and the tables after the last of them.
pub data Selects : Wsv → List Transaction → List Transaction → Wsv → Type 0 where
  done : (w : Wsv) → Selects w [] [] w
  accept :
      {w w₁ w' : Wsv} (tx : Transaction) {txs kept : List Transaction}
      → checking_transaction tx w ≡ (w₁, true)
      → Selects w₁ txs kept w'
      → Selects w (tx ∷ txs) (tx ∷ kept) w'
  reject :
      {w w' : Wsv} (tx : Transaction) {txs kept : List Transaction}
      → (checking_transaction tx w).1 ≡ false
      → Selects w txs kept w'
      → Selects w (tx ∷ txs) kept w'

record Selection (w : Wsv) (txs : List Transaction) : Type 0 where
  pub kept : List Transaction
  pub after : Wsv
  pub selects : Selects w txs kept after

selection : (w : Wsv) (txs : List Transaction) → Selection w txs
selection w [] = record { kept = []; after = w; selects = done w }
selection w (tx ∷ txs) = elim (Bool-cases (checking_transaction tx w).1) [
  | inl h ↦
      let rest = selection (checking_transaction tx w).0 txs in
      record {
        kept = tx ∷ rest.kept;
        after = rest.after;
        selects = accept tx (ap (λ b. ((checking_transaction tx w).0, b)) h) rest.selects;
      }
  | inr h ↦
      let rest = selection w txs in
      record { kept = rest.kept; after = rest.after; selects = reject tx h rest.selects }
]

pub accumulate-Selects :
    {w w' : Wsv} {txs kept : List Transaction} (acc : List Transaction)
    → Selects w txs kept w'
    → accumulate (w, acc) txs ≡ (w', acc ++ kept)
unfolding accumulate filter_step apply
accumulate-Selects {w} acc (done _) = ap (λ l. (w, l)) (sym (append-nil acc))
accumulate-Selects {w'} acc (accept tx {kept} e s) =
    rw e
      (accumulate-Selects (acc ++ tx ∷ []) s ∙ ap (λ l. (w', l)) (append_assoc acc (tx ∷ []) kept))
accumulate-Selects acc (reject tx e s) = rw e (accumulate-Selects acc s)

-- The verified proposal is what the relation says: each transaction is checked on the tables that
-- those kept before it left, it is kept if the check returns true, and else it changes nothing;
-- the height stays.
pub validate_proposal-Selects :
    (p : Proposal) (w : Wsv)
    → Selects w p.transactions (validate_proposal p w).1.transactions (validate_proposal p w).0
      × ((validate_proposal p w).1.height ≡ p.height)
unfolding validate_proposal
validate_proposal-Selects p w =
    let s = selection w p.transactions in (rw (accumulate-Selects [] s.selects) s.selects, refl)

verify_commands-executes :
    (a : Account) (cs : List Command) (w w' : Wsv)
    → verify_commands a cs w ≡ (w', true)
    → execute_commands cs w ≡ (w', true)
unfolding verify_commands execute_commands
verify_commands-executes a [] w w' e = e
verify_commands-executes a (c ∷ cs) w w' e = elim (Bool-cases (execute c w).1) [
  | inl h ↦ let rest = verify_commands-executes a cs (execute c w).0 w' in ground (arith, rest)
  | inr h ↦ absurd (ground arith)
]

checking_transaction-executes :
    (tx : Transaction) (w w' : Wsv)
    → checking_transaction tx w ≡ (w', true)
    → execute_commands tx.commands w ≡ (w', true)
unfolding checking_transaction get_signatories
checking_transaction-executes tx w w' e =
    elim (Option-cases (get_account w tx.creator_account_id)) [
      | inl h ↦ absurd (ground arith)
      | inr (a, h) ↦ elim (Bool-cases (ltb (length tx.signatures) a.quorum)) [
        | inl q ↦ absurd (ground arith)
        | inr q ↦ verify_commands-executes a tx.commands w w' (ground arith)
      ]
    ]

pub Selects-executes :
    {w w' : Wsv} {txs kept : List Transaction}
    → Selects w txs kept w'
    → execute_transactions kept w ≡ (w', true)
unfolding execute_transactions
Selects-executes (done w) = refl
Selects-executes {w} (accept {w₁} tx e s) =
    rw (checking_transaction-executes tx w w₁ e) (Selects-executes s)
Selects-executes (reject tx e s) = Selects-executes s

Selects-Sublist :
    {w w' : Wsv} {txs kept : List Transaction} → Selects w txs kept w' → Sublist kept txs
Selects-Sublist (done w) = Sublist.refl []
Selects-Sublist (accept tx e s) = Sublist.cons-cons tx (Selects-Sublist s)
Selects-Sublist (reject tx e s) = Sublist.cons tx (Selects-Sublist s)

Selects-again :
    {w w' : Wsv} {txs kept : List Transaction} → Selects w txs kept w' → Selects w kept kept w'
Selects-again (done w) = done w
Selects-again (accept tx e s) = accept tx e (Selects-again s)
Selects-again (reject tx e s) = Selects-again s

also-IsValid :
    (p : Wsv × Bool) (f : Wsv → Wsv × Bool)
    → IsValid p.0
    → ((w : Wsv) → IsValid w → IsValid (f w).0)
    → IsValid (also p f).0
also-IsValid (w, true) f v g = g w v
also-IsValid (w, false) f v g = v

execute_commands-IsValid :
    (cs : List Command) (w : Wsv) → IsValid w → IsValid (execute_commands cs w).0
unfolding execute_commands
execute_commands-IsValid [] w v = v
execute_commands-IsValid (c ∷ cs) w v =
    also-IsValid (execute c w) (execute_commands cs) (execute-IsValid c w v)
      (execute_commands-IsValid cs)

execute_transactions-IsValid :
    (txs : List Transaction) (w : Wsv) → IsValid w → IsValid (execute_transactions txs w).0
unfolding execute_transactions
execute_transactions-IsValid [] w v = v
execute_transactions-IsValid (tx ∷ txs) w v =
    also-IsValid (execute_commands tx.commands w) (execute_transactions txs)
      (execute_commands-IsValid tx.commands w v) (execute_transactions-IsValid txs)

-- The transactions of a verified proposal are some of the proposal's, in its order. Executed on
-- the same tables without any check, every command of them returns true, and the tables are those
-- that the validator had at its end.
pub validate_proposal-replays :
    (p : Proposal) (w : Wsv)
    → Sublist (validate_proposal p w).1.transactions p.transactions
      × (execute_transactions (validate_proposal p w).1.transactions w
          ≡ ((validate_proposal p w).0, true))
validate_proposal-replays p w =
    let s = (validate_proposal-Selects p w).0 in (Selects-Sublist s, Selects-executes s)

-- A verified proposal that is validated again on the same tables stays as it is.
pub validate_proposal_again :
    (p : Proposal) (w : Wsv) → validate_proposal (validate_proposal p w).1 w ≡ validate_proposal p w
unfolding validate_proposal
validate_proposal_again p w =
    let again = Selects-again (validate_proposal-Selects p w).0 in
    ap (λ s. (s.0, record { transactions = s.1; height = p.height })) (accumulate-Selects [] again)
