-- ===== src/Yac/BlockStorage/Invariant.antt =====
-- What holds of a block storage after any sequence of votes and commits.
use iroha.Prelude.{
  ◌≡◌, List, [], ◌∷◌, ◌++◌, ℕ, some, none, length, arith, IsDistinct, append-IsDistinct, ◌≢◌, ◌+◌,
  ◌<◌, ◌≤◌, ◌*◌, ◌^◌, length-append,
}
use iroha.Yac.Messages.{YacHash, VoteMessage, CommitMessage, vote_discrete}
use iroha.Yac.Supermajority.{has_supermajority_iff}
use iroha.Yac.StorageResult.{CommitState, not_committed}
use iroha.Yac.BlockStorage.{
  YacBlockStorage, create, insert, insert_votes, report_commit, insert_commit,
}

-- The votes are distinct. Short of two thirds nothing is answered and the state says so; from
-- two thirds on the answer is a commit of all votes, and never a reject.
pub record IsValid (s : YacBlockStorage) : Type 0 where
  pub some_peers : 0 < s.peers_in_round
  pub few_peers : s.peers_in_round < 2 ^ 64
  pub distinct : IsDistinct vote_discrete s.votes
  pub open_below :
      s.current_state.state ≡ not_committed
      → (3 * length s.votes < 2 * s.peers_in_round + 1) × (s.current_state.answer.commit ≡ none)
  pub closed_above :
      s.current_state.state ≢ not_committed
      → (2 * s.peers_in_round + 1 ≤ 3 * length s.votes)
        × (s.current_state.answer.commit ≡ some (record { votes = s.votes }))
  pub no_reject : s.current_state.answer.reject ≡ none

pub create-IsValid : (h : YacHash) (n : ℕ) → 0 < n → n < 2 ^ 64 → IsValid (create h n)
unfolding create
create-IsValid h n pos small = ground arith

pub insert-IsValid : (s : YacBlockStorage) (v : VoteMessage) → IsValid s → IsValid (insert s v).0
unfolding insert
insert-IsValid s v w = ground (
  arith,
  append-IsDistinct vote_discrete s.votes v,
  length-append s.votes (v ∷ []),
  has_supermajority_iff (length (s.votes ++ v ∷ [])) s.peers_in_round,
)

pub insert_votes-IsValid :
    (s : YacBlockStorage) (vs : List VoteMessage) → IsValid s → IsValid (insert_votes s vs)
unfolding insert_votes insert
insert_votes-IsValid s [] w = w
insert_votes-IsValid s (v ∷ vs) w = insert_votes-IsValid (insert s v).0 vs (insert-IsValid s v w)

report_commit-IsValid :
    (c : CommitState) (s : YacBlockStorage)
    → IsValid s
    → IsValid (record s { current_state = report_commit c s.current_state })
unfolding report_commit
report_commit-IsValid c s w = ground arith

-- If a block storage is valid (distinct votes; a commit of all of them is answered exactly from two
-- thirds of the peers on; never a reject), it is so after any commit message, also one that repeats
-- votes or holds votes for another hash.
pub insert_commit-IsValid :
    (s : YacBlockStorage) (c : CommitMessage) → IsValid s → IsValid (insert_commit s c).0
unfolding insert_commit
insert_commit-IsValid s c w = ground (
  arith,
  report_commit-IsValid s.current_state.state (insert_votes s c.votes)
      (insert_votes-IsValid s c.votes w),
)
