-- ===== src/Yac/Round/Voting.antt =====
-- A round that nothing interrupts: the vote goes to every peer in turn, and then the timer rests.
use iroha.Prelude.{
  ◌≡◌, refl, sym, ap, ◌∙◌, false, List, [], ◌∷◌, ◌++◌, ℕ, zero, suc, some, none, arith, map, length,
  length-append, get_elem?, ◌+◌, ◌<◌, ◌^◌,
}
use mathlib.Core.List.{append_assoc, append-nil}
use iroha.Yac.Messages.{YacHash, Peer}
use iroha.Yac.VoteStorage
use iroha.Yac.ClusterOrdering
use iroha.Yac.ClusterOrdering.{ClusterOrdering, current_leader, has_next, switch_to_next}
use iroha.Yac.Round.{
  Yac, CryptoProvider, Sent, vote, on_hash, on_timer, is_committed, run, Event, timer_event,
}

-- The k timer events that follow.
abbrev pub timers : ℕ → List Event
timers zero = []
timers (suc k) = timer_event ∷ timers k

get_elem?-middle :
    (pre : List Peer) (p : Peer) (rest : List Peer)
    → get_elem? (pre ++ p ∷ rest) (length pre) ≡ some p
get_elem?-middle [] p rest = refl
get_elem?-middle (x ∷ pre) p rest = get_elem?-middle pre p rest

module _ (crypto : CryptoProvider) (hash : YacHash) where
  abbrev pub ballots : List Peer → List Sent
  ballots = map λ p. vote p (crypto.get_vote hash)

  -- The state in which the peers before `rest` have been asked, the last of them at `index`.
  record IsWaiting (y : Yac) (pre rest : List Peer) : Type 0 where
    order : y.cluster_order.order ≡ pre ++ rest
    index : y.cluster_order.index + 1 ≡ length pre
    small : length (pre ++ rest) < 2 ^ 32
    timer : y.timer ≡ some hash
    undecided : is_committed (VoteStorage.find_proposal y.vote_storage hash) ≡ false

  on_timer_last :
      (y : Yac) (pre : List Peer)
      → IsWaiting y pre []
      → ((on_timer crypto y).sent ≡ y.sent)
        × ((on_timer crypto y).timer ≡ none)
        × ((on_timer crypto y).vote_storage ≡ y.vote_storage)
        × ((on_timer crypto y).failed ≡ y.failed)
  unfolding on_timer switch_to_next has_next
  on_timer_last y pre w =
      ground (arith, length-append pre [], ap length w.order, w.timer, w.index, w.small)

  -- The state after the next peer has been asked.
  abbrev asked : Yac → List Peer → Peer → Yac
  asked y pre p = record y {
    cluster_order = record y.cluster_order { index = length pre };
    sent = y.sent ++ vote p (crypto.get_vote hash) ∷ [];
    timer = some hash;
  }

  on_timer_next :
      (y : Yac) (pre : List Peer) (p : Peer) (rest : List Peer)
      → IsWaiting y pre (p ∷ rest)
      → on_timer crypto y ≡ asked y pre p
  unfolding on_timer switch_to_next has_next current_leader
  on_timer_next y pre p rest w = ground (
    arith,
    length-append pre (p ∷ rest),
    ap length w.order,
    ap (λ o. get_elem? o (length pre)) w.order ∙ get_elem?-middle pre p rest,
    w.timer,
    w.index,
    w.small,
    w.undecided,
  )

  asked-IsWaiting :
      (y : Yac) (pre : List Peer) (p : Peer) (rest : List Peer)
      → IsWaiting y pre (p ∷ rest)
      → IsWaiting (asked y pre p) (pre ++ p ∷ []) rest
  asked-IsWaiting y pre p rest w = record {
    order = w.order ∙ sym (append_assoc pre (p ∷ []) rest);
    index = omega (arith, length-append pre (p ∷ []));
    small = rw (append_assoc pre (p ∷ []) rest) w.small;
    timer = refl;
    undecided = w.undecided;
  }

  timers_ask_all :
      (y : Yac) (pre rest : List Peer)
      → IsWaiting y pre rest
      → let y' = run crypto y (timers (suc (length rest))) in
        (y'.sent ≡ y.sent ++ ballots rest)
        × (y'.timer ≡ none)
        × (y'.vote_storage ≡ y.vote_storage)
        × (y'.failed ≡ y.failed)
  unfolding run
  timers_ask_all y pre [] w =
      let r = on_timer_last y pre w in (r.0 ∙ sym (append-nil y.sent), r.1, r.2, r.3)
  timers_ask_all y pre (p ∷ rest) w =
      let next =
        timers_ask_all (asked y pre p) (pre ++ p ∷ []) rest (asked-IsWaiting y pre p rest w) in
      rw (on_timer_next y pre p rest w, run)
        (
          next.0 ∙ append_assoc y.sent (vote p (crypto.get_vote hash) ∷ []) (ballots rest),
          next.1,
          next.2,
          next.3,
        )

  on_hash_first :
      (y : Yac) (p : Peer) (rest : List Peer)
      → is_committed (VoteStorage.find_proposal y.vote_storage hash) ≡ false
      → on_hash crypto y hash (ClusterOrdering.create (p ∷ rest))
        ≡ asked (record y { cluster_order = ClusterOrdering.create (p ∷ rest) }) [] p
  unfolding on_hash current_leader
  on_hash_first y p rest e = ground (arith, e)

  -- A vote for a hash whose proposal is not in the state `committed`, with an ordering of
  -- 0 < n < 2^32 peers: after n runs of the timer, and no message between them, the ballot for the
  -- hash has been sent to each peer once, in their order, the timer rests, nothing has failed,
  -- and the vote storage is as it was.
  pub voting_asks_everyone :
      (y : Yac) (p : Peer) (rest : List Peer)
      → is_committed (VoteStorage.find_proposal y.vote_storage hash) ≡ false
      → length (p ∷ rest) < 2 ^ 32
      → let voted = on_hash crypto y hash (ClusterOrdering.create (p ∷ rest)) in
        let y' = run crypto voted (timers (length (p ∷ rest))) in
        (y'.sent ≡ y.sent ++ ballots (p ∷ rest))
        × (y'.timer ≡ none)
        × (y'.vote_storage ≡ y.vote_storage)
        × (y'.failed ≡ y.failed)
  voting_asks_everyone y p rest e small =
      let started = record y { cluster_order = ClusterOrdering.create (p ∷ rest) } in
      let w : IsWaiting (asked started [] p) (p ∷ []) rest = record {
        order = refl;
        index = omega arith;
        small = small;
        timer = refl;
        undecided = e;
      } in
      let r = timers_ask_all (asked started [] p) (p ∷ []) rest w in
      rw (on_hash_first y p rest e) (
        r.0 ∙ append_assoc y.sent (vote p (crypto.get_vote hash) ∷ []) (ballots rest),
        r.1,
        r.2,
        r.3,
      )
