-- ===== src/Yac/ProposalStorage.antt =====
-- irohad/consensus/yac/storage/impl/yac_proposal_storage.cpp: the block storages of one proposal.
pub mod Agreement
pub mod Invariant
use iroha.Prelude.{
  ◌≡◌, Bool, true, false, ◌&&◌, ◌||◌, List, [], ◌∷◌, ◌++◌, ℕ, some, none, Option, suc, zero, length,
  if◌then◌else◌, Blob, blob_discrete, ◌=ᵇ◌,
}
use iroha.Yac.Messages.{YacHash, VoteMessage, CommitMessage, RejectMessage}
use iroha.Yac.StorageResult.{
  StorageResult, CommitState, not_committed, committed, committed_before, Answer, empty_result,
}
use iroha.Yac.Slots.{find_or_push, modify_at}
use iroha.Yac.BlockStorage
use iroha.Yac.BlockStorage.{YacBlockStorage}

pub record YacProposalStorage : Type 0 where
  pub hash : Blob
  pub peers_in_round : ℕ
  pub block_votes : List YacBlockStorage
  pub current_state : StorageResult

-- The constructor.
unfoldable pub create : Blob → ℕ → YacProposalStorage
create hash peers_in_round = record {
  hash = hash;
  peers_in_round = peers_in_round;
  block_votes = [];
  current_state = empty_result;
}

-- Not implemented in the source: every vote counts as one of another peer.
unfoldable pub check_peer_uniqueness : YacProposalStorage → VoteMessage → Bool
check_peer_uniqueness s msg = true

-- Not implemented in the source: there is never a proof for a reject.
unfoldable pub has_reject_proof : YacProposalStorage → Bool
has_reject_proof s = false

unfoldable pub should_insert : YacProposalStorage → VoteMessage → Bool
unfolding check_peer_uniqueness
should_insert s msg = (msg.hash.proposal_hash =ᵇ s.hash) && check_peer_uniqueness s msg

abbrev pub is_store : Blob → Blob → YacBlockStorage → Bool
is_store proposal_hash block_hash b =
    (b.hash.proposal_hash =ᵇ proposal_hash) && (b.hash.block_hash =ᵇ block_hash)

abbrev pub new_store : YacProposalStorage → YacHash → YacBlockStorage
new_store s h = BlockStorage.create h s.peers_in_round

-- `findStore`: the storages, with a new one where there was none, and the index.
unfoldable pub find_store : YacProposalStorage → YacHash → List YacBlockStorage × ℕ
find_store s h = find_or_push (is_store h.proposal_hash h.block_hash) (new_store s h) s.block_votes

-- `block_votes_.at(findStore(…))` with a change made to it.
unfoldable pub update_store :
    YacProposalStorage
    → YacHash
    → (YacBlockStorage → YacBlockStorage × StorageResult)
    → List YacBlockStorage × StorageResult
unfolding find_store
update_store s h f = let (stores, index) = find_store s h in modify_at f empty_result stores index

unfoldable pub aggregate_all : List YacBlockStorage → List VoteMessage
aggregate_all [] = []
aggregate_all (s ∷ ss) = s.votes ++ aggregate_all ss

-- The inner switch, which a proof for a reject would reach.
unfoldable pub reject_state : List VoteMessage → StorageResult → StorageResult
reject_state votes r = elim r.state [
  | not_committed ↦ record {
    answer = record r.answer { reject = some (record { votes = votes }) };
    state = committed;
  }
  | committed ↦ record {
    answer = record r.answer { reject = some (record { votes = votes }) };
    state = committed_before;
  }
  | committed_before ↦ r
]

-- The switch on the state of the block storage.
unfoldable pub update_state : YacProposalStorage → StorageResult → StorageResult
unfolding has_reject_proof reject_state
update_state s block_state = elim block_state.state [
  | not_committed ↦
      if has_reject_proof s
      then reject_state (aggregate_all s.block_votes) s.current_state
      else s.current_state
  | committed ↦ block_state
  | committed_before ↦ block_state
]

unfoldable pub insert : YacProposalStorage → VoteMessage → YacProposalStorage × StorageResult
unfolding should_insert update_state update_store
insert s msg =
    let (stores, block_state) = update_store s msg.hash (λ b. BlockStorage.insert b msg) in
    let s' = record s { block_votes = stores } in
    let s'' = record s' { current_state = update_state s' block_state } in
    if should_insert s msg then (s'', s''.current_state) else (s, s.current_state)

-- The new state if it is `committed`, else the old one.
abbrev pub keep_committed : CommitState → StorageResult → StorageResult → StorageResult
keep_committed committed old r = r
keep_committed _ old r = old

-- The number of peers that the caller passes is not used: a new block storage takes that of the
-- proposal storage.
unfoldable pub apply_commit :
    YacProposalStorage → CommitMessage → ℕ → YacProposalStorage × StorageResult
unfolding update_store
apply_commit s commit peers_in_round = elim commit.votes [
  | [] ↦ (s, empty_result)
  | v ∷ _ ↦
      let (stores, result) = update_store s v.hash (λ b. BlockStorage.insert_commit b commit) in
      (
        record s {
          block_votes = stores;
          current_state = keep_committed result.state s.current_state result;
        },
        result,
      )
]

-- Not implemented in the source.
unfoldable pub apply_reject :
    YacProposalStorage → RejectMessage → ℕ → YacProposalStorage × StorageResult
apply_reject s reject peers_in_round = (s, empty_result)
