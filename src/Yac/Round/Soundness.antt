-- ===== src/Yac/Round/Soundness.antt =====
-- Whatever a peer is told, in any order, what it sends on and notifies is sound.
use iroha.Prelude.{
  ◌≡◌, refl, subst, List, [], ◌∷◌, ◌++◌, ℕ, some, none, Option, arith, length, All, All-append, ◌<◌,
  ◌^◌, ◌≢◌, Bool-cases, inl, inr,
}
use iroha.Yac.Messages.{YacHash, VoteMessage, CommitMessage, Peer}
use iroha.Yac.StorageResult.{StorageResult, CommitState, not_committed, committed, committed_before}
use iroha.Yac.BlockStorage.Sound.{IsSupermajority, IsSound}
use iroha.Yac.VoteStorage
use iroha.Yac.VoteStorage.{YacVoteStorage}
use iroha.Yac.VoteStorage.Invariant as Storage
use iroha.Yac.ClusterOrdering.{ClusterOrdering, current_leader, switch_to_next, has_next}
use iroha.Yac.Round.{
  Yac, CryptoProvider, Sent, vote, commit, reject, Event, hash_event, vote_event, commit_event,
  reject_event, timer_event, create, step, run, answer_vote, apply_vote, notify, apply_commit,
  on_vote, on_commit, on_reject, on_timer, voting_step, send_to_leader, next_step, send, to_all,
  sent_to, is_committed, if_some, propagate_commit, propagate_commit_directly,
}

-- A supermajority of n peers for some hash.
abbrev pub IsProof : ℕ → CommitMessage → Type 0
IsProof n c = (h : YacHash) × IsSupermajority n h c

-- Every commit that is sent on is a proof, and a reject is never sent.
abbrev pub IsSoundSent : ℕ → Sent → Type 0
IsSoundSent n (vote _ _) = Unit
IsSoundSent n (commit _ c) = IsProof n c
IsSoundSent n (reject _ _) = ⊥

-- The state of a peer in a network of n peers.
pub record IsSafe (n : ℕ) (y : Yac) : Type 0 where
  pub storage : Storage.IsValid n y.vote_storage
  pub peers : length y.cluster_order.order ≡ n
  pub sent : All (IsSoundSent n) y.sent
  pub notified : All (IsProof n) y.notified

send-IsSafe :
    (n : ℕ) (y : Yac) (ms : List Sent) → IsSafe n y → All (IsSoundSent n) ms → IsSafe n (send y ms)
send-IsSafe n y ms w h = record {
  storage = w.storage;
  peers = w.peers;
  sent = All-append (IsSoundSent n) y.sent ms w.sent h;
  notified = w.notified;
}

to_all_sound :
    (n : ℕ) (ps : List Peer) (c : CommitMessage)
    → IsProof n c
    → All (IsSoundSent n) (to_all commit ps c)
to_all_sound n [] c w = tt
to_all_sound n (p ∷ ps) c w = (w, to_all_sound n ps c w)

-- The commit of a sound answer is a proof.
answer-IsProof :
    (n : ℕ) (h : YacHash) (r : StorageResult) (c : CommitMessage)
    → IsSound n h r
    → r.state ≢ not_committed
    → r.answer.commit ≡ some c
    → IsProof n c
answer-IsProof n h r c w ne e =
    let (d, f, s) = w.closed_some ne in
    let same : d ≡ c = ground arith in (h, subst (IsSupermajority n h) same s)

if_commit :
    (n : ℕ) (f : CommitMessage → Yac → Yac) (y : Yac) (o : Option CommitMessage)
    → IsSafe n y
    → ((c : CommitMessage) → o ≡ some c → IsSafe n (f c y))
    → IsSafe n (if_some o f y)
if_commit n f y none safe k = safe
if_commit n f y (some c) safe k = k c refl

abbrev Proves : ℕ → StorageResult → Type 0
Proves n r = (c : CommitMessage) → r.answer.commit ≡ some c → IsProof n c

answer_vote-IsSafe :
    (n : ℕ) (c : CommitState) (from : Peer) (r : StorageResult) (y : Yac)
    → r.answer.reject ≡ none
    → (c ≢ not_committed → Proves n r)
    → IsSafe n y
    → IsSafe n (answer_vote c from r.answer y)
unfolding answer_vote
answer_vote-IsSafe n not_committed from r y no_reject proves safe = safe
answer_vote-IsSafe n committed from r y no_reject proves safe = rw no_reject (
    if_commit n (λ m y. propagate_commit y m) y r.answer.commit safe
      (λ c e.
        let ps = y.cluster_order.order in
        send-IsSafe n y (to_all commit ps c) safe (to_all_sound n ps c (proves (λ f. cc) c e))))
answer_vote-IsSafe n committed_before from r y no_reject proves safe = rw no_reject (
    if_commit n (λ m y. propagate_commit_directly y from m) y r.answer.commit safe
      (λ c e. send-IsSafe n y (commit from c ∷ []) safe (proves (λ f. cc) c e, tt)))

notify-IsSafe :
    (n : ℕ) (c : CommitState) (r : StorageResult) (y : Yac)
    → (c ≢ not_committed → Proves n r)
    → IsSafe n y
    → IsSafe n (notify c r.answer y)
unfolding notify
notify-IsSafe n not_committed r y proves safe = safe
notify-IsSafe n committed r y proves safe =
    if_commit n (λ m y. record y { notified = y.notified ++ m ∷ [] }) y r.answer.commit safe
      (λ c e. record {
        storage = safe.storage;
        peers = safe.peers;
        sent = safe.sent;
        notified =
            All-append (IsProof n) y.notified (c ∷ []) safe.notified (proves (λ f. cc) c e, tt);
      })
notify-IsSafe n committed_before r y proves safe = safe

stored-IsSafe :
    (n : ℕ) (y : Yac) (s : YacVoteStorage)
    → IsSafe n y
    → Storage.IsValid n s
    → IsSafe n (record y { vote_storage = s })
stored-IsSafe n y s w v = record {
  storage = v;
  peers = w.peers;
  sent = w.sent;
  notified = w.notified;
}

apply_vote-IsSafe :
    (n : ℕ) (y : Yac) (from : Peer) (v : VoteMessage) → IsSafe n y → IsSafe n (apply_vote y from v)
unfolding apply_vote
apply_vote-IsSafe n y from v w =
    rw (w.peers, apply_vote)
      (let (valid, (b, sound)) = Storage.store_vote-IsValid n y.vote_storage v w.storage in
        let (s, r) = VoteStorage.store_vote y.vote_storage v n in
        answer_vote-IsSafe n r.state from r (record y { vote_storage = s }) sound.no_reject
          (λ ne c e. answer-IsProof n _ r c sound ne e) (stored-IsSafe n y s w valid))

apply_commit-IsSafe :
    (n : ℕ) (y : Yac) (from : Peer) (c : CommitMessage)
    → IsSafe n y
    → IsSafe n (apply_commit y from c)
unfolding apply_commit
apply_commit-IsSafe n y from c w =
    rw (w.peers, apply_commit)
      (let (valid, (p, (b, sound))) = Storage.apply_commit-IsValid n y.vote_storage c w.storage in
        let (s, r) = VoteStorage.apply_commit y.vote_storage c n in
        let safe =
          notify-IsSafe n r.state r (record y { vote_storage = s })
            (λ ne d e. answer-IsProof n _ r d sound ne e) (stored-IsSafe n y s w valid) in
        record {
          storage = safe.storage;
          peers = safe.peers;
          sent = safe.sent;
          notified = safe.notified;
        })

module _ (crypto : CryptoProvider) where
  abbrev with_order : Yac → ClusterOrdering → Yac
  with_order y o = record y { cluster_order = o }

  with_order-IsSafe :
      (n : ℕ) (y : Yac) (o : ClusterOrdering)
      → IsSafe n y
      → length o.order ≡ n
      → IsSafe n (with_order y o)
  with_order-IsSafe n y o w e = record {
    storage = w.storage;
    peers = e;
    sent = w.sent;
    notified = w.notified;
  }

  current_leader_order : (o : ClusterOrdering) → (current_leader o).0.order ≡ o.order
  unfolding current_leader
  current_leader_order o = ground arith

  send_to_leader-IsSafe :
      (n : ℕ) (y : Yac) (h : YacHash) → IsSafe n y → IsSafe n (send_to_leader crypto y h)
  unfolding send_to_leader
  send_to_leader-IsSafe n y h w =
      let o = (current_leader y.cluster_order).0 in
      go (current_leader y.cluster_order).1
        (with_order-IsSafe n y o w (rw (current_leader_order y.cluster_order) w.peers))
    where
      go :
          (leader : Option Peer)
          → IsSafe n (with_order y (current_leader y.cluster_order).0)
          → IsSafe n (sent_to crypto y h (current_leader y.cluster_order).0 leader)
      go none safe = record {
        storage = safe.storage;
        peers = safe.peers;
        sent = safe.sent;
        notified = safe.notified;
      }
      go (some p) safe =
          let s =
            send-IsSafe n (with_order y (current_leader y.cluster_order).0)
              (vote p (crypto.get_vote h) ∷ []) safe (tt, tt) in
          record { storage = s.storage; peers = s.peers; sent = s.sent; notified = s.notified }

  voting_step-IsSafe :
      (n : ℕ) (y : Yac) (h : YacHash) → IsSafe n y → IsSafe n (voting_step crypto y h)
  unfolding voting_step
  voting_step-IsSafe n y h w =
      elim (Bool-cases (is_committed (VoteStorage.find_proposal y.vote_storage h))) [
        | inl e ↦ rw (e, voting_step) w
        | inr e ↦ rw (e, voting_step) (send_to_leader-IsSafe n y h w)
      ]

  timer-IsSafe :
      (n : ℕ) (y : Yac) (t : Option YacHash) → IsSafe n y → IsSafe n (record y { timer = t })
  timer-IsSafe n y t w = record {
    storage = w.storage;
    peers = w.peers;
    sent = w.sent;
    notified = w.notified;
  }

  next_step-IsSafe : (n : ℕ) (y : Yac) (h : YacHash) → IsSafe n y → IsSafe n (next_step crypto y h)
  unfolding switch_to_next
  next_step-IsSafe n y h w =
      let o = switch_to_next y.cluster_order in
      let safe = with_order-IsSafe n y o w w.peers in
      elim (Bool-cases (has_next o)) [
        | inl e ↦ rw e (voting_step-IsSafe n (with_order y o) h safe)
        | inr e ↦ rw e safe
      ]

  on_timer-IsSafe : (n : ℕ) (y : Yac) → IsSafe n y → IsSafe n (on_timer crypto y)
  unfolding on_timer
  on_timer-IsSafe n y w = go y.timer
    where
      go : (t : Option YacHash) → IsSafe n (on_timer crypto (record y { timer = t }))
      go none = timer-IsSafe n y none w
      go (some h) = next_step-IsSafe n (record y { timer = none }) h (timer-IsSafe n y none w)

  -- What the network may ask of a peer: orderings have n peers.
  abbrev pub HasPeers : ℕ → Event → Type 0
  HasPeers n (hash_event _ order) = length order.order ≡ n
  HasPeers n _ = Unit

  step-IsSafe :
      (n : ℕ) (y : Yac) (e : Event) → HasPeers n e → IsSafe n y → IsSafe n (step crypto y e)
  unfolding step
  step-IsSafe n y (hash_event h o) p w =
      voting_step-IsSafe n (with_order y o) h (with_order-IsSafe n y o w p)
  step-IsSafe n y (vote_event from v) p w = elim (Bool-cases (crypto.verify_vote v)) [
    | inl e ↦ rw (e, on_vote) (apply_vote-IsSafe n y from v w)
    | inr e ↦ rw (e, on_vote) w
  ]
  step-IsSafe n y (commit_event from c) p w = elim (Bool-cases (crypto.verify_commit c)) [
    | inl e ↦ rw (e, on_commit) (apply_commit-IsSafe n y from c w)
    | inr e ↦ rw (e, on_commit) w
  ]
  step-IsSafe n y (reject_event from c) p w = elim (Bool-cases (crypto.verify_reject c)) [
    | inl e ↦ rw (e, on_reject) (timer-IsSafe n y none w)
    | inr e ↦ rw (e, on_reject) w
  ]
  step-IsSafe n y timer_event p w = on_timer-IsSafe n y w

  run-IsSafe :
      (n : ℕ) (y : Yac) (es : List Event)
      → All (HasPeers n) es
      → IsSafe n y
      → IsSafe n (run crypto y es)
  unfolding run
  run-IsSafe n y [] p w = w
  run-IsSafe n y (e ∷ es) p w = run-IsSafe n (step crypto y e) es p.1 (step-IsSafe n y e p.0 w)

  -- After any sequence of votes, commits, rejects, hashes and timer runs, verified or not, in a
  -- network whose orderings have n peers (0 < n < 2^64): every commit that the peer has sent on or
  -- notified consists of distinct votes for one hash, 2n + 1 at least when counted three times,
  -- and no reject has been sent.
  pub run-create-IsSafe :
      (o : ClusterOrdering) (es : List Event)
      → 0 < length o.order
      → length o.order < 2 ^ 64
      → All (HasPeers (length o.order)) es
      → IsSafe (length o.order) (run crypto (create o) es)
  unfolding create
  run-create-IsSafe o es pos small p = run-IsSafe (length o.order) (create o) es p (record {
    storage = record { some_peers = pos; few_peers = small; storages = tt };
    peers = refl;
    sent = tt;
    notified = tt;
  })
