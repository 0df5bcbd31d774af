-- ===== src/Ordering.antt =====
-- irohad/ordering/impl/ordering_service_impl.cpp: transactions are queued, and go out in
-- proposals when there are enough of them or when the timer fires. What the peer query answers is
-- a parameter of each step.
pub mod Delivery
pub mod Reach
pub mod Gate
pub mod Tests
use iroha.Prelude.{
  ◌≡◌, ℕ, zero, suc, ◌+◌, ◌%◌, ◌^◌, Bool, true, false, List, [], ◌∷◌, ◌++◌, map, Option, none, some,
  length, leb, if◌then◌else◌, Blob,
}
use iroha.Model.Types.{Peer}
use iroha.Model.Command.{Transaction, Proposal}

pub record OrderingService : Type 0 where
  pub queue : List Transaction
  pub proposal_height : ℕ
  pub peers : List Blob

-- What is sent: a proposal to an address.
pub record Sent : Type 0 where
  pub address : Blob
  pub proposal : Proposal

abbrev pub create : OrderingService
create = record { queue = []; proposal_height = 2; peers = [] }

-- The loop `for (…; txs.size() < max_size_ and queue_.try_pop(tx);)`: what it takes, what it leaves.
unfoldable pub pop : ℕ → List Transaction → List Transaction × List Transaction
pop zero queue = ([], queue)
pop (suc n) [] = ([], [])
pop (suc n) (tx ∷ queue) = (tx ∷ (pop n queue).0, (pop n queue).1)

unfoldable pub prepare_peers_for_proposal_round :
    Option (List Peer) → OrderingService → OrderingService
prepare_peers_for_proposal_round none s = record s { peers = [] }
prepare_peers_for_proposal_round (some round_peers) s = record s {
  peers = map (λ p. p.address) round_peers;
}

unfoldable pub publish_proposal :
    Option (List Peer) → Proposal → OrderingService → OrderingService × List Sent
unfolding prepare_peers_for_proposal_round
publish_proposal ledger_peers proposal s =
    let s' = prepare_peers_for_proposal_round ledger_peers s in
    (s', map (λ a. record { address = a; proposal = proposal }) s'.peers)

-- A transaction that arrives, or the timer.
pub data Event : Type 0 where
  transaction : (tx : Transaction) → Event
  timer : Event

abbrev pub one_proposal :
    OrderingService × Proposal × List Sent → OrderingService × List Proposal × List Sent
one_proposal (s, p, sent) = (s, p ∷ [], sent)

module _ (max_size : ℕ) where
  -- The proposal that is made, and what is sent.
  unfoldable pub generate_proposal :
      Option (List Peer) → OrderingService → OrderingService × Proposal × List Sent
  unfolding pop publish_proposal
  generate_proposal ledger_peers s =
      let popped = pop max_size s.queue in
      let proposal : Proposal = record { transactions = popped.0; height = s.proposal_height } in
      let s' : OrderingService = record s {
        queue = popped.1;
        proposal_height = (s.proposal_height + 1) % 2 ^ 64;
      } in
      let published = publish_proposal ledger_peers proposal s' in
      (published.0, proposal, published.1)

  unfoldable pub handle_transaction :
      Option (List Peer)
      → Transaction
      → OrderingService
      → OrderingService × List Proposal × List Sent
  unfolding generate_proposal
  handle_transaction ledger_peers tx s =
      let s' : OrderingService = record s { queue = s.queue ++ tx ∷ [] } in
      if leb max_size (length s'.queue)
      then one_proposal (generate_proposal ledger_peers s')
      else (s', [], [])

  unfoldable pub on_timer :
      Option (List Peer) → OrderingService → OrderingService × List Proposal × List Sent
  unfolding generate_proposal
  on_timer ledger_peers s =
      if leb 1 (length s.queue)
      then one_proposal (generate_proposal ledger_peers s)
      else (s, [], [])

  unfoldable pub step :
      Option (List Peer) → Event → OrderingService → OrderingService × List Proposal × List Sent
  unfolding handle_transaction on_timer
  step ledger_peers (transaction tx) s = handle_transaction ledger_peers tx s
  step ledger_peers timer s = on_timer ledger_peers s

  -- A sequence of events, each with what the peer query answers then.
  unfoldable pub run :
      List (Option (List Peer) × Event)
      → OrderingService
      → OrderingService × List Proposal × List Sent
  unfolding step
  run [] s = (s, [], [])
  run ((ledger_peers, e) ∷ es) s =
      let one = step ledger_peers e s in
      let rest = run es one.0 in (rest.0, one.1 ++ rest.1, one.2 ++ rest.2)
