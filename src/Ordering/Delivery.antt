-- ===== src/Ordering/Delivery.antt =====
-- What the ordering service delivers over any sequence of events.
use iroha.Prelude.{
  ◌≡◌, refl, ℕ, zero, suc, ◌+◌, ◌%◌, ◌^◌, ◌<◌, ◌≤◌, List, [], ◌∷◌, ◌++◌, Option, none, some, length,
  leb, arith, Bool-cases, inl, inr, append_assoc, append-nil, ap, sym, ◌∙◌, length-append,
}
use iroha.Model.Types.{Peer}
use iroha.Model.Command.{Transaction, Proposal}
use iroha.Ordering.{
  OrderingService, one_proposal, pop, prepare_peers_for_proposal_round, publish_proposal,
  generate_proposal, Event, transaction, timer, handle_transaction, on_timer, step, run,
}

pub delivered : List Proposal → List Transaction
delivered [] = []
delivered (p ∷ ps) = p.transactions ++ delivered ps

pub arrived : List (Option (List Peer) × Event) → List Transaction
arrived [] = []
arrived ((ledger_peers, transaction tx) ∷ es) = tx ∷ arrived es
arrived ((ledger_peers, timer) ∷ es) = arrived es

delivered-append : (ps qs : List Proposal) → delivered (ps ++ qs) ≡ delivered ps ++ delivered qs
unfolding delivered
delivered-append [] qs = refl
delivered-append (p ∷ ps) qs =
    rw (delivered-append ps qs) (sym (append_assoc p.transactions (delivered ps) (delivered qs)))

pop-append : (n : ℕ) (queue : List Transaction) → (pop n queue).0 ++ (pop n queue).1 ≡ queue
unfolding pop
pop-append zero queue = refl
pop-append (suc n) [] = refl
pop-append (suc n) (tx ∷ queue) = ap (λ l. tx ∷ l) (pop-append n queue)

length-pop : (n : ℕ) (queue : List Transaction) → length (pop n queue).0 ≤ n
unfolding pop
length-pop zero queue = omega arith
length-pop (suc n) [] = omega arith
length-pop (suc n) (tx ∷ queue) = ground (arith, length-pop n queue)

length-pop_rest : (n : ℕ) (queue : List Transaction) → length queue ≤ n → length (pop n queue).1 ≡ 0
unfolding pop
length-pop_rest zero queue h = ground arith
length-pop_rest (suc n) [] h = refl
length-pop_rest (suc n) (tx ∷ queue) h = ground (arith, length-pop_rest n queue)

-- Proposals with the heights that follow one another from the first one, of at most n transactions.
pub IsNumbered : ℕ → ℕ → List Proposal → Type 0
IsNumbered n height [] = Unit
IsNumbered n height (p ∷ ps) =
    (p.height ≡ height) × (length p.transactions ≤ n) × IsNumbered n ((height + 1) % 2 ^ 64) ps

module _ (max_size : ℕ) where
  generate_proposal-delivers :
      (ledger_peers : Option (List Peer)) (s : OrderingService)
      → delivered (one_proposal (generate_proposal max_size ledger_peers s)).1
          ++ (one_proposal (generate_proposal max_size ledger_peers s)).0.queue
        ≡ s.queue
  unfolding generate_proposal publish_proposal prepare_peers_for_proposal_round delivered
  generate_proposal-delivers none s =
      rw (append-nil (pop max_size s.queue).0) (pop-append max_size s.queue)
  generate_proposal-delivers (some ps) s =
      rw (append-nil (pop max_size s.queue).0) (pop-append max_size s.queue)

  step-delivers :
      (ledger_peers : Option (List Peer)) (e : Event) (s : OrderingService)
      → delivered (step max_size ledger_peers e s).1 ++ (step max_size ledger_peers e s).0.queue
        ≡ s.queue ++ arrived ((ledger_peers, e) ∷ [])
  unfolding step handle_transaction on_timer arrived delivered
  step-delivers ledger_peers (transaction tx) s =
      let s' : OrderingService = record s { queue = s.queue ++ tx ∷ [] } in
      elim (Bool-cases (leb max_size (length s'.queue))) [
        | inl h ↦ rw h (generate_proposal-delivers ledger_peers s')
        | inr h ↦ rw h refl
      ]
  step-delivers ledger_peers timer s = elim (Bool-cases (leb 1 (length s.queue))) [
    | inl h ↦ rw h (generate_proposal-delivers ledger_peers s ∙ sym (append-nil s.queue))
    | inr h ↦ rw h (sym (append-nil s.queue))
  ]

  arrived-cons :
      (x : Option (List Peer) × Event) (es : List (Option (List Peer) × Event))
      → arrived (x ∷ es) ≡ arrived (x ∷ []) ++ arrived es
  unfolding arrived
  arrived-cons (o, transaction tx) es = refl
  arrived-cons (o, timer) es = refl

  -- Over any events, the transactions of the proposals that are made, one proposal after another,
  -- and then those that are still queued, are those that were queued at first and then those that
  -- arrived, in their order. Whether a proposal is sent to anyone is not said.
  pub run-delivers :
      (es : List (Option (List Peer) × Event)) (s : OrderingService)
      → delivered (run max_size es s).1 ++ (run max_size es s).0.queue ≡ s.queue ++ arrived es
  unfolding run arrived delivered
  run-delivers [] s = sym (append-nil s.queue)
  run-delivers ((ledger_peers, e) ∷ es) s =
      let one = step max_size ledger_peers e s in
      let rest = run max_size es one.0 in
      rw
        (
          delivered-append one.1 rest.1,
          append_assoc (delivered one.1) (delivered rest.1) rest.0.queue,
          run-delivers es one.0,
          arrived-cons (ledger_peers, e) es,
        )
        (sym (append_assoc (delivered one.1) one.0.queue (arrived es))
          ∙ ap (λ l. l ++ arrived es) (step-delivers ledger_peers e s)
          ∙ append_assoc s.queue (arrived ((ledger_peers, e) ∷ [])) (arrived es))

  generate_proposal-IsNumbered :
      (ledger_peers : Option (List Peer)) (s : OrderingService) (rest : List Proposal)
      → IsNumbered max_size (generate_proposal max_size ledger_peers s).0.proposal_height rest
      → IsNumbered max_size s.proposal_height
          ((one_proposal (generate_proposal max_size ledger_peers s)).1 ++ rest)
  unfolding generate_proposal publish_proposal prepare_peers_for_proposal_round IsNumbered
  generate_proposal-IsNumbered none s rest h = (refl, length-pop max_size s.queue, h)
  generate_proposal-IsNumbered (some ps) s rest h = (refl, length-pop max_size s.queue, h)

  step-IsNumbered :
      (ledger_peers : Option (List Peer)) (e : Event) (s : OrderingService) (rest : List Proposal)
      → IsNumbered max_size (step max_size ledger_peers e s).0.proposal_height rest
      → IsNumbered max_size s.proposal_height ((step max_size ledger_peers e s).1 ++ rest)
  unfolding step handle_transaction on_timer
  step-IsNumbered ledger_peers (transaction tx) s rest h =
      let s' : OrderingService = record s { queue = s.queue ++ tx ∷ [] } in
      elim (Bool-cases (leb max_size (length s'.queue))) [
        | inl q ↦ rw q (generate_proposal-IsNumbered ledger_peers s' rest (rw q at h))
        | inr q ↦ rw q (rw q at h)
      ]
  step-IsNumbered ledger_peers timer s rest h = elim (Bool-cases (leb 1 (length s.queue))) [
    | inl q ↦ rw q (generate_proposal-IsNumbered ledger_peers s rest (rw q at h))
    | inr q ↦ rw q (rw q at h)
  ]

  -- Over any events, the proposals have heights that follow one another (mod 2^64) from the
  -- service's own, and none has more than `max_size` transactions.
  pub run-IsNumbered :
      (es : List (Option (List Peer) × Event)) (s : OrderingService)
      → IsNumbered max_size s.proposal_height (run max_size es s).1
  unfolding run IsNumbered
  run-IsNumbered [] s = tt
  run-IsNumbered ((ledger_peers, e) ∷ es) s =
      step-IsNumbered ledger_peers e s (run max_size es (step max_size ledger_peers e s).0).1
        (run-IsNumbered es (step max_size ledger_peers e s).0)

  generate_proposal-bound :
      (ledger_peers : Option (List Peer)) (s : OrderingService)
      → length s.queue ≤ max_size
      → length (one_proposal (generate_proposal max_size ledger_peers s)).0.queue ≡ 0
  unfolding generate_proposal publish_proposal prepare_peers_for_proposal_round
  generate_proposal-bound none s h = length-pop_rest max_size s.queue h
  generate_proposal-bound (some ps) s h = length-pop_rest max_size s.queue h

  -- If fewer transactions than `max_size` are queued, then so it is after any event.
  pub step-bound :
      (ledger_peers : Option (List Peer)) (e : Event) (s : OrderingService)
      → length s.queue < max_size
      → length (step max_size ledger_peers e s).0.queue < max_size
  unfolding step handle_transaction on_timer
  step-bound ledger_peers (transaction tx) s h =
      let s' : OrderingService = record s { queue = s.queue ++ tx ∷ [] } in
      let grown : length s'.queue ≡ length s.queue + 1 = length-append s.queue (tx ∷ []) in
      elim (Bool-cases (leb max_size (length s'.queue))) [
        | inl q ↦ rw (q, generate_proposal-bound ledger_peers s' (omega arith)) (omega arith)
        | inr q ↦ rw q (ground arith)
      ]
  step-bound ledger_peers timer s h = elim (Bool-cases (leb 1 (length s.queue))) [
    | inl q ↦ rw (q, generate_proposal-bound ledger_peers s (omega arith)) (omega arith)
    | inr q ↦ rw q h
  ]
