-- ===== src/Yac/VoteStorage.antt =====
-- irohad/consensus/yac/storage/impl/yac_vote_storage.cpp: the proposal storages of all rounds.
pub mod Invariant
pub mod Lookup
use iroha.Prelude.{
  ◌≡◌, Bool, List, [], ◌∷◌, ℕ, some, none, Option, if◌then◌else◌, Blob, blob_discrete, ◌=ᵇ◌,
}
use iroha.Yac.Messages.{YacHash, VoteMessage, CommitMessage, RejectMessage}
use iroha.Yac.StorageResult.{StorageResult, empty_result}
use iroha.Yac.Slots.{find_or_push, modify_at}
use iroha.Yac.ProposalStorage
use iroha.Yac.ProposalStorage.{YacProposalStorage}

pub record YacVoteStorage : Type 0 where
  pub proposal_storages : List YacProposalStorage

abbrev pub empty : YacVoteStorage
empty = record { proposal_storages = [] }

abbrev pub is_proposal : Blob → YacProposalStorage → Bool
is_proposal proposal_hash s = s.hash =ᵇ proposal_hash

-- `findProposalStorage`: the storages, with a new one where there was none, and the index.
unfoldable pub find_proposal_storage :
    YacVoteStorage → VoteMessage → ℕ → List YacProposalStorage × ℕ
find_proposal_storage s msg peers_in_round =
    let p = msg.hash.proposal_hash in
    find_or_push (is_proposal p) (ProposalStorage.create p peers_in_round) s.proposal_storages

-- `proposal_storages_.at(findProposalStorage(…))` with a change made to it.
unfoldable pub update_proposal :
    YacVoteStorage
    → VoteMessage
    → ℕ
    → (YacProposalStorage → YacProposalStorage × StorageResult)
    → YacVoteStorage × StorageResult
unfolding find_proposal_storage
update_proposal s msg peers_in_round f =
    let (storages, index) = find_proposal_storage s msg peers_in_round in
    let (storages', r) = modify_at f empty_result storages index in
    (record { proposal_storages = storages' }, r)

unfoldable pub store_vote : YacVoteStorage → VoteMessage → ℕ → YacVoteStorage × StorageResult
unfolding update_proposal
store_vote s msg peers_in_round =
    update_proposal s msg peers_in_round (λ p. ProposalStorage.insert p msg)

unfoldable pub apply_commit : YacVoteStorage → CommitMessage → ℕ → YacVoteStorage × StorageResult
unfolding update_proposal
apply_commit s commit peers_in_round = elim commit.votes [
  | [] ↦ (s, empty_result)
  | v ∷ _ ↦
      update_proposal s v peers_in_round (λ p. ProposalStorage.apply_commit p commit peers_in_round)
]

unfoldable pub apply_reject : YacVoteStorage → RejectMessage → ℕ → YacVoteStorage × StorageResult
unfolding update_proposal
apply_reject s reject peers_in_round = elim reject.votes [
  | [] ↦ (s, empty_result)
  | v ∷ _ ↦
      update_proposal s v peers_in_round (λ p. ProposalStorage.apply_reject p reject peers_in_round)
]

find_state : Blob → List YacProposalStorage → Option StorageResult
find_state p [] = none
find_state p (s ∷ ss) = if is_proposal p s then some s.current_state else find_state p ss

unfoldable pub find_proposal : YacVoteStorage → YacHash → Option StorageResult
unfolding find_state
find_proposal s hash = find_state hash.proposal_hash s.proposal_storages
