-- ===== src/Yac/Round.antt =====
-- irohad/consensus/yac/impl/yac.cpp with timer_impl.cpp: the state machine of a peer. A handler
-- takes the state to the state after it, in which what was sent and notified is listed. The
-- network and the crypto provider are not modelled: sending is recorded in `sent`, and
-- `verify_…` and `get_vote` are parameters.
pub mod Voting
pub mod Soundness
pub mod Repeats
use iroha.Prelude.{
  ◌≡◌, Bool, true, false, List, [], ◌∷◌, ◌++◌, ℕ, some, none, Option, if◌then◌else◌, map,
}
use iroha.Yac.Messages.{YacHash, VoteMessage, CommitMessage, RejectMessage, Peer}
use iroha.Yac.StorageResult.{
  StorageResult, CommitState, not_committed, committed, committed_before, Answer,
}
use iroha.Yac.VoteStorage
use iroha.Yac.VoteStorage.{YacVoteStorage}
use iroha.Yac.ClusterOrdering.{
  ClusterOrdering, current_leader, has_next, switch_to_next, get_number_of_peers,
}

pub data Sent : Type 0 where
  vote : Peer → VoteMessage → Sent
  commit : Peer → CommitMessage → Sent
  reject : Peer → RejectMessage → Sent

-- `timer` is the hash of the voting step that waits, if the timer runs. `failed` is set when a
-- leader is asked of an ordering without peers: the exception of `at` leaves the handler.
pub record Yac : Type 0 where
  pub vote_storage : YacVoteStorage
  pub cluster_order : ClusterOrdering
  pub timer : Option YacHash
  pub sent : List Sent
  pub notified : List CommitMessage
  pub failed : Bool

-- `consensus/yac/yac_crypto_provider.hpp`.
pub record CryptoProvider : Type 0 where
  pub verify_vote : VoteMessage → Bool
  pub verify_commit : CommitMessage → Bool
  pub verify_reject : RejectMessage → Bool
  pub get_vote : YacHash → VoteMessage

unfoldable pub create : ClusterOrdering → Yac
create order = record {
  vote_storage = VoteStorage.empty;
  cluster_order = order;
  timer = none;
  sent = [];
  notified = [];
  failed = false;
}

abbrev pub send : Yac → List Sent → Yac
send y ms = record y { sent = y.sent ++ ms }

-- `timer_->deny()`
abbrev pub close_round : Yac → Yac
close_round y = record y { timer = none }

abbrev pub to_all : {M : Type 0} → (Peer → M → Sent) → List Peer → M → List Sent
to_all f peers msg = map (λ p. f p msg) peers

unfoldable pub propagate_commit : Yac → CommitMessage → Yac
propagate_commit y msg = send y (to_all commit y.cluster_order.order msg)

unfoldable pub propagate_commit_directly : Yac → Peer → CommitMessage → Yac
propagate_commit_directly y to msg = send y (commit to msg ∷ [])

unfoldable pub propagate_reject : Yac → RejectMessage → Yac
propagate_reject y msg = send y (to_all reject y.cluster_order.order msg)

unfoldable pub propagate_reject_directly : Yac → Peer → RejectMessage → Yac
propagate_reject_directly y to msg = send y (reject to msg ∷ [])

abbrev pub if_some : {A : Type 0} → Option A → (A → Yac → Yac) → Yac → Yac
if_some none f y = y
if_some (some a) f y = f a y

-- The switch of `applyVote`.
unfoldable pub answer_vote : CommitState → Peer → Answer → Yac → Yac
unfolding propagate_commit propagate_commit_directly propagate_reject propagate_reject_directly
answer_vote not_committed from answer y = y
answer_vote committed from answer y =
    if_some answer.reject (λ m y. propagate_reject y m)
      (if_some answer.commit (λ m y. propagate_commit y m) y)
answer_vote committed_before from answer y =
    if_some answer.reject (λ m y. propagate_reject_directly y from m)
      (if_some answer.commit (λ m y. propagate_commit_directly y from m) y)

unfoldable pub apply_vote : Yac → Peer → VoteMessage → Yac
unfolding answer_vote
apply_vote y from msg =
    let (storage, result) =
      VoteStorage.store_vote y.vote_storage msg (get_number_of_peers y.cluster_order) in
    answer_vote result.state from result.answer (record y { vote_storage = storage })

-- The switch of `applyCommit`. In the state `committed` the code reads the commit of the answer,
-- which is there (`Soundness`).
unfoldable pub notify : CommitState → Answer → Yac → Yac
notify not_committed answer y = y
notify committed answer y =
    if_some answer.commit (λ m y. record y { notified = y.notified ++ m ∷ [] }) y
notify committed_before answer y = y

unfoldable pub apply_commit : Yac → Peer → CommitMessage → Yac
unfolding notify
apply_commit y from msg =
    let (storage, result) =
      VoteStorage.apply_commit y.vote_storage msg (get_number_of_peers y.cluster_order) in
    close_round (notify result.state result.answer (record y { vote_storage = storage }))

unfoldable pub apply_reject : Yac → Peer → RejectMessage → Yac
apply_reject y from msg = close_round y

abbrev pub is_committed : Option StorageResult → Bool
is_committed none = false
is_committed (some r) = elim r.state [ committed ↦ true | _ ↦ false ]

pub data Event : Type 0 where
  hash_event : YacHash → ClusterOrdering → Event
  vote_event : Peer → VoteMessage → Event
  commit_event : Peer → CommitMessage → Event
  reject_event : Peer → RejectMessage → Event
  timer_event : Event

module _ (crypto : CryptoProvider) where
  -- With no leader the exception leaves the step before anything is sent or the timer is set.
  abbrev pub sent_to : Yac → YacHash → ClusterOrdering → Option Peer → Yac
  sent_to y hash order none = record y { cluster_order = order; failed = true }
  sent_to y hash order (some peer) = record y {
    cluster_order = order;
    sent = y.sent ++ vote peer (crypto.get_vote hash) ∷ [];
    timer = some hash;
  }

  unfoldable pub send_to_leader : Yac → YacHash → Yac
  send_to_leader y hash =
      let (order, leader) = current_leader y.cluster_order in sent_to y hash order leader

  unfoldable pub voting_step : Yac → YacHash → Yac
  unfolding send_to_leader
  voting_step y hash =
      if is_committed (VoteStorage.find_proposal y.vote_storage hash)
      then y
      else send_to_leader y hash

  -- `vote` of the hash gate.
  unfoldable pub on_hash : Yac → YacHash → ClusterOrdering → Yac
  unfolding voting_step
  on_hash y hash order = voting_step (record y { cluster_order = order }) hash

  unfoldable pub on_vote : Yac → Peer → VoteMessage → Yac
  unfolding apply_vote
  on_vote y from msg = if crypto.verify_vote msg then apply_vote y from msg else y

  unfoldable pub on_commit : Yac → Peer → CommitMessage → Yac
  unfolding apply_commit
  on_commit y from msg = if crypto.verify_commit msg then apply_commit y from msg else y

  unfoldable pub on_reject : Yac → Peer → RejectMessage → Yac
  unfolding apply_reject
  on_reject y from msg = if crypto.verify_reject msg then apply_reject y from msg else y

  abbrev pub next_step : Yac → YacHash → Yac
  next_step y hash =
      let y' = record y { cluster_order = switch_to_next y.cluster_order } in
      if has_next y'.cluster_order then voting_step y' hash else y'

  -- The handler that `votingStep` gave to the timer. It runs once: the timer has no repeat.
  unfoldable pub on_timer : Yac → Yac
  unfolding voting_step
  on_timer y = elim y.timer [ none ↦ y | some hash ↦ next_step (record y { timer = none }) hash ]

  unfoldable pub step : Yac → Event → Yac
  unfolding on_hash on_vote on_commit on_reject on_timer
  step y (hash_event hash order) = on_hash y hash order
  step y (vote_event from msg) = on_vote y from msg
  step y (commit_event from msg) = on_commit y from msg
  step y (reject_event from msg) = on_reject y from msg
  step y timer_event = on_timer y

  unfoldable pub run : Yac → List Event → Yac
  unfolding step
  run y [] = y
  run y (e ∷ es) = run (step y e) es
