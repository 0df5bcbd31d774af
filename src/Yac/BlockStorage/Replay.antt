-- ===== src/Yac/BlockStorage/Replay.antt =====
-- A block storage that is fed votes alone is a set of votes and a threshold; and what a commit
-- that comes a second time does.
use iroha.Prelude.{
  ◌≡◌, refl, List, [], ◌∷◌, ◌++◌, ℕ, length, contains, arith, ◌+◌, ◌<◌, ◌*◌, ◌^◌, length-append,
  if◌then◌else◌, ltb, ◌∙◌, ap,
}
use iroha.Yac.Messages.{YacHash, VoteMessage, vote_discrete}
use iroha.Yac.Supermajority.{has_supermajority_iff}
use iroha.Yac.StorageResult.{CommitState, not_committed, committed, committed_before}
use iroha.Yac.BlockStorage.{YacBlockStorage, create, insert, insert_votes}
use iroha.Yac.BlockStorage.Invariant.{IsValid, insert-IsValid, create-IsValid}

-- The state that k distinct votes of n peers make: the vote that reaches two thirds commits.
unfoldable pub state_at : ℕ → ℕ → CommitState
state_at n k =
    if ltb (3 * k) (2 * n + 1)
    then not_committed
    else if ltb (3 * k) (2 * n + 4)
    then committed
    else committed_before

-- The distinct votes of a history, in the order of their first arrival, after those of `acc`.
unfoldable pub distinct_votes : List VoteMessage → List VoteMessage → List VoteMessage
distinct_votes acc [] = acc
distinct_votes acc (v ∷ vs) =
    distinct_votes (if contains vote_discrete v acc then acc else acc ++ v ∷ []) vs

insert-state_at :
    (s : YacBlockStorage) (v : VoteMessage)
    → IsValid s
    → s.current_state.state ≡ state_at s.peers_in_round (length s.votes)
    → let t = (insert s v).0 in t.current_state.state ≡ state_at t.peers_in_round (length t.votes)
unfolding insert state_at
insert-state_at s v w e = ground (
  arith,
  length-append s.votes (v ∷ []),
  has_supermajority_iff (length (s.votes ++ v ∷ [])) s.peers_in_round w.some_peers w.few_peers,
)

insert_votes-state_at :
    (s : YacBlockStorage) (vs : List VoteMessage)
    → IsValid s
    → s.current_state.state ≡ state_at s.peers_in_round (length s.votes)
    → let t = insert_votes s vs in
      (t.votes ≡ distinct_votes s.votes vs)
      × (t.peers_in_round ≡ s.peers_in_round)
      × (t.current_state.state ≡ state_at s.peers_in_round (length t.votes))
unfolding insert_votes distinct_votes insert
insert_votes-state_at s [] w e = (refl, refl, e)
insert_votes-state_at s (v ∷ vs) w e = ground (
  arith,
  insert_votes-state_at (insert s v).0 vs (insert-IsValid s v w) (insert-state_at s v w e),
)

-- Votes that arrive one by one at a new storage of n peers (0 < n < 2^64), in any order and with
-- any repetitions, leave it with the distinct ones in the order of first arrival, in the state
-- that their number makes.
pub insert_votes-refines :
    (h : YacHash) (n : ℕ) (vs : List VoteMessage)
    → 0 < n
    → n < 2 ^ 64
    → let t = insert_votes (create h n) vs in
      (t.votes ≡ distinct_votes [] vs)
      × (t.current_state.state ≡ state_at n (length (distinct_votes [] vs)))
unfolding create state_at
insert_votes-refines h n vs pos small =
    let r = insert_votes-state_at (create h n) vs (create-IsValid h n pos small) (ground arith) in
    (r.0, r.2 ∙ ap (λ xs. state_at n (length xs)) r.0)
