-- ===== src/Torii/Commands/Answers.antt =====
-- What a client is told of a transaction.
use iroha.Prelude.{
  ◌≡◌, ◌≢◌, refl, sym, subst, ◌∙◌, ℕ, ◌+◌, ◌%◌, ◌^◌, ◌<◌, ◌≤◌, Bool, true, false, [], ◌∷◌, ◌++◌,
  map, append-nil, some, Blob, is_some, if◌then◌else◌, traverse, bind_inv, some_inj, arith,
  Bool-cases, inl, inr, ◌⊎◌,
}
use iroha.Model.Command.{Transaction}
use iroha.Model.Hash.{Kind, kind, hash_transaction}
use iroha.Model.Hash.Collisions.{hash_transaction_collides}
use iroha.Ledger.Stateless.{validate, validate_iff, max_delay}
use iroha.Wire.Messages.{PbTransaction}
use iroha.Wire.Commands.{deserialize_abstract_command}
use iroha.Wire.Transactions.{deserialize_signature, deserialize_transaction}
use iroha.Torii.Handlers.{find, insert, write, find-insert, write_same, write_other}
use iroha.Torii.Commands.{
  stateless_validation_failed, stateless_validation_success, CommandService, transaction_handle,
  notify, take_transaction, torii_async,
}

module _ (verify : Transaction → Bool) (now : ℕ) where
  -- The signatures verify, and the transaction is at most a day old and not of the future.
  abbrev pub IsAccepted : Transaction → Type 0
  IsAccepted tx = (verify tx ≡ true) × (tx.created_ts ≤ now) × (now ≤ tx.created_ts + max_delay)

  abbrev is_taken : Transaction → CommandService → Bool
  is_taken tx service = is_some (find tx.tx_hash service.handler_map)

  -- After a transaction that is new.
  abbrev after : Transaction → ℕ → Bool → CommandService → CommandService
  after tx response passed service = record {
    handler_map = insert tx.tx_hash response service.handler_map;
    responses =
        write response
          (if passed then stateless_validation_success else stateless_validation_failed)
          service.responses;
    propagated = if passed then service.propagated ++ tx ∷ [] else service.propagated;
  }

  take_new :
      (tx : Transaction) (response : ℕ) (service : CommandService)
      → is_taken tx service ≡ false
      → take_transaction verify now tx response service
        ≡ some (after tx response (validate (verify tx) now tx.created_ts) service)
  unfolding take_transaction transaction_handle notify
  take_new tx response service h =
      let found : find tx.tx_hash (insert tx.tx_hash response service.handler_map) ≡ some response =
        ground (arith, find-insert tx.tx_hash response service.handler_map) in
      elim (Bool-cases (validate (verify tx) now tx.created_ts)) [
        | inl v ↦ rw (h, v, found) refl
        | inr v ↦ rw (h, v, found, append-nil service.propagated) refl
      ]

  take_taken :
      (tx : Transaction) (response : ℕ) (service : CommandService)
      → is_taken tx service ≡ true
      → take_transaction verify now tx response service
        ≡ some (record service {
          responses = write response stateless_validation_failed service.responses;
        })
  unfolding take_transaction
  take_taken tx response service h = rw h refl

  -- The client hears of success, and the peers get the transaction, if it is new and acceptable, and
  -- only then; no other response changes, and from now on the hash is known.
  pub record IsOutcome (tx : Transaction) (response : ℕ) (before service : CommandService)
      : Type 0 where
    pub told :
        ((is_taken tx before ≡ false)
          × IsAccepted tx
          × (service.responses response ≡ stateless_validation_success)
          × (service.propagated ≡ before.propagated ++ tx ∷ []))
        ⊎ (¬ ((is_taken tx before ≡ false) × IsAccepted tx)
            × (service.responses response ≡ stateless_validation_failed)
            × (service.propagated ≡ before.propagated))
    pub others : (r : ℕ) → r ≢ response → service.responses r ≡ before.responses r
    pub known : is_taken tx service ≡ true

  is_taken-after :
      (tx : Transaction) (response : ℕ) (b : Bool) (service : CommandService)
      → is_taken tx (after tx response b service) ≡ true
  is_taken-after tx response b service =
      ground (arith, find-insert tx.tx_hash response service.handler_map)

  after-IsOutcome :
      (tx : Transaction) (response : ℕ) (service : CommandService)
      → now < 2 ^ 64
      → tx.created_ts < 2 ^ 64
      → is_taken tx service ≡ false
      → IsOutcome tx response service
          (after tx response (validate (verify tx) now tx.created_ts) service)
  after-IsOutcome tx response service hn hc h =
      let valid = validate_iff (verify tx) now tx.created_ts hn hc in
      elim (Bool-cases (validate (verify tx) now tx.created_ts)) [
        | inl v ↦ rw v (record {
          told = inl (h, valid.0 v, write_same response _ service.responses, refl);
          others = λ r n. write_other response r _ service.responses n;
          known = is_taken-after tx response true service;
        })
        | inr v ↦ rw v (record {
          told = inr (
            (λ p. absurd (ground (arith, valid.1 p.1))),
            write_same response _ service.responses,
            refl,
          );
          others = λ r n. write_other response r _ service.responses n;
          known = is_taken-after tx response false service;
        })
      ]

  taken-IsOutcome :
      (tx : Transaction) (response : ℕ) (service : CommandService)
      → is_taken tx service ≡ true
      → IsOutcome tx response service (record service {
        responses = write response stateless_validation_failed service.responses;
      })
  taken-IsOutcome tx response service h = record {
    told = inr ((λ p. absurd (ground arith)), write_same response _ service.responses, refl);
    others = λ r n. write_other response r _ service.responses n;
    known = h;
  }

  -- For times of type uint64_t, the service answers every transaction that it takes: the client
  -- hears of success, and the peers get the transaction, exactly if its hash is new, its signatures
  -- verify, and it was created at most a day before now and not after now. No other client's
  -- response changes, and the hash counts as known afterwards.
  pub take_transaction-IsOutcome :
      (tx : Transaction) (response : ℕ) (before : CommandService)
      → now < 2 ^ 64
      → tx.created_ts < 2 ^ 64
      → (service : CommandService) × ((take_transaction verify now tx response before
            ≡ some service)
          × IsOutcome tx response before service)
  take_transaction-IsOutcome tx response before hn hc = elim (Bool-cases (is_taken tx before)) [
    | inl h ↦ (_, (take_taken tx response before h, taken-IsOutcome tx response before h))
    | inr h ↦ (_, (take_new tx response before h, after-IsOutcome tx response before hn hc h))
  ]

  taken_later :
      (tx : Transaction) (response : ℕ) (before service : CommandService)
      → take_transaction verify now tx response before ≡ some service
      → is_taken tx service ≡ true
  taken_later tx response before service e = elim (Bool-cases (is_taken tx before)) [
    | inl h ↦ rw (← some_inj _ service (sym (take_taken tx response before h) ∙ e)) h
    | inr h ↦
        rw (← some_inj _ service (sym (take_new tx response before h) ∙ e))
          (is_taken-after tx response (validate (verify tx) now tx.created_ts) before)
  ]

  module _ (sha3_256 : Blob → Blob) (vtable : Kind → Blob) (uninit : ℕ → Blob) where
    deserialize-hash :
        (pb_tx : PbTransaction) (tx : Transaction)
        → deserialize_transaction sha3_256 vtable uninit pb_tx ≡ some tx
        → tx.tx_hash ≡ hash_transaction sha3_256 vtable tx
    unfolding deserialize_transaction
    deserialize-hash pb_tx tx e =
        let signatures =
          bind_inv (traverse (deserialize_signature (uninit 32) (uninit 64)) pb_tx.signatures) _ tx
            e in
        let pointers =
          bind_inv (traverse (deserialize_abstract_command uninit) pb_tx.commands) _ tx
            signatures.1.1 in
        let commands = bind_inv (traverse (λ c. c) pointers.0) _ tx pointers.1.1 in
        subst (λ (x : Transaction). x.tx_hash ≡ hash_transaction sha3_256 vtable x)
          (some_inj _ tx commands.1.1) refl

    -- After a transaction that the service has taken, another one of the same creator with commands
    -- of the same types in the same order and a counter that agrees mod 256 is refused, whatever
    -- its signatures, accounts and amounts: nothing goes to the peers, and only its own response is
    -- written.
    pub torii_async_collides :
        (pb_t pb_u : PbTransaction) (t u : Transaction) (r q : ℕ) (before service : CommandService)
        → deserialize_transaction sha3_256 vtable uninit pb_t ≡ some t
        → deserialize_transaction sha3_256 vtable uninit pb_u ≡ some u
        → map kind t.commands ≡ map kind u.commands
        → t.creator_account_id ≡ u.creator_account_id
        → t.tx_counter % 256 ≡ u.tx_counter % 256
        → torii_async verify now sha3_256 vtable uninit pb_t r before ≡ some service
        → torii_async verify now sha3_256 vtable uninit pb_u q service
          ≡ some
              (record service { responses = write q stateless_validation_failed service.responses })
    unfolding torii_async
    torii_async_collides pb_t pb_u t u r q before service dt du k c n e =
        let taken : is_taken t service ≡ true = taken_later t r before service (rw dt at e) in
        let collide = hash_transaction_collides sha3_256 vtable t u k c n in
        let same : t.tx_hash ≡ u.tx_hash =
          deserialize-hash pb_t t dt ∙ collide.0 ∙ sym (deserialize-hash pb_u u du) in
        rw du (take_taken u q service (rw same at taken))
