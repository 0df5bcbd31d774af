-- ===== src/Yac/BlockStorage.antt =====
-- irohad/consensus/yac/storage/impl/yac_block_storage.cpp: the votes for one block of one
-- proposal, and whether they are a supermajority.
pub mod Invariant
pub mod Replay
pub mod Sound
pub mod Scheme
pub mod Commits
pub mod Peers
use iroha.Prelude.{
  ◌≡◌, Bool, true, false, not, ◌&&◌, List, [], ◌∷◌, ◌++◌, ℕ, some, length, all, contains,
  if◌then◌else◌,
}
use iroha.Yac.Messages.{YacHash, VoteMessage, CommitMessage, vote_discrete, ◌=ʰ◌}
use iroha.Yac.Supermajority.{has_supermajority}
use iroha.Yac.StorageResult.{
  StorageResult, CommitState, not_committed, committed, committed_before, Answer, empty_result,
}

pub record YacBlockStorage : Type 0 where
  pub hash : YacHash
  pub peers_in_round : ℕ
  pub votes : List VoteMessage
  pub current_state : StorageResult

-- The constructor.
unfoldable pub create : YacHash → ℕ → YacBlockStorage
create hash peers_in_round = record {
  hash = hash;
  peers_in_round = peers_in_round;
  votes = [];
  current_state = empty_result;
}

unfoldable pub unique_vote : YacBlockStorage → VoteMessage → Bool
unique_vote s msg = not (contains vote_discrete msg s.votes)

-- The votes with the new one at the end, and whether it was new.
unfoldable pub try_insert : YacBlockStorage → VoteMessage → YacBlockStorage × Bool
unfolding unique_vote
try_insert s msg =
    if unique_vote s msg then (record s { votes = s.votes ++ msg ∷ [] }, true) else (s, false)

unfoldable pub update_supermajority_state : YacBlockStorage → CommitState
update_supermajority_state s =
    if has_supermajority (length s.votes) s.peers_in_round then committed else not_committed

-- `current_state_.answer.commit = CommitMessage(votes_)`
abbrev pub answer_commit : YacBlockStorage → Answer
answer_commit s = record s.current_state.answer { commit = some (record { votes = s.votes }) }

-- The switch on the state before, once a vote has been added.
unfoldable pub update_state : CommitState → YacBlockStorage → StorageResult
unfolding update_supermajority_state
update_state not_committed s = elim (update_supermajority_state s) [
  | committed ↦ record { answer = answer_commit s; state = committed }
  | other ↦ record s.current_state { state = other }
]
update_state committed s = record { answer = answer_commit s; state = committed_before }
update_state committed_before s = record s.current_state { answer = answer_commit s }

-- `insert(VoteMessage)`
unfoldable pub insert : YacBlockStorage → VoteMessage → YacBlockStorage × StorageResult
unfolding try_insert update_state
insert s msg =
    let (s', inserted) = try_insert s msg in
    let s'' =
      if inserted
      then record s' { current_state = update_state s'.current_state.state s' }
      else s' in
    (s'', s''.current_state)

abbrev same_hash : YacHash → List VoteMessage → Bool
same_hash h = all λ v. h =ʰ v.hash

-- The first vote is read by `at(0)`; a supermajority is never empty.
unfoldable pub check_commit_scheme : YacBlockStorage → CommitMessage → Bool
check_commit_scheme s commit =
    has_supermajority (length commit.votes) s.peers_in_round
    && elim commit.votes [ [] ↦ false | v ∷ vs ↦ v.hash =ʰ s.hash && same_hash v.hash (v ∷ vs) ]

-- The loop of `insert(CommitMessage)`: `current_state_ = insert(vote)` for each vote.
unfoldable pub insert_votes : YacBlockStorage → List VoteMessage → YacBlockStorage
unfolding insert
insert_votes s [] = s
insert_votes s (v ∷ vs) =
    let (s', result) = insert s v in insert_votes (record s' { current_state = result }) vs

-- A commit that made the storage pass the supermajority is reported as new, whatever votes
-- followed in the same commit.
unfoldable pub report_commit : CommitState → StorageResult → StorageResult
report_commit not_committed r = elim r.state [
  | committed_before ↦ record r { state = committed }
  | _ ↦ r
]
report_commit _ r = r

-- `insert(CommitMessage)`
unfoldable pub insert_commit : YacBlockStorage → CommitMessage → YacBlockStorage × StorageResult
unfolding check_commit_scheme insert_votes report_commit
insert_commit s commit =
    let initial_state = s.current_state.state in
    let inserted = insert_votes s commit.votes in
    let reported = record inserted {
      current_state = report_commit initial_state inserted.current_state;
    } in
    if check_commit_scheme s commit then (reported, reported.current_state) else (s, empty_result)
