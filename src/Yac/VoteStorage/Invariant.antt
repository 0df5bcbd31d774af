-- ===== src/Yac/VoteStorage/Invariant.antt =====
-- Every answer of a vote storage is sound, whatever votes and commits it was given.
use iroha.Prelude.{◌≡◌, true, List, [], ◌∷◌, ℕ, arith, ◌<◌, ◌^◌, All, Blob, sym, subst}
use iroha.Yac.Messages.{VoteMessage, CommitMessage}
use iroha.Yac.StorageResult.{StorageResult, empty_result}
use iroha.Yac.Slots.{update_or_push, modify_at-find_or_push, update_or_push-All}
use iroha.Yac.BlockStorage.Sound.{empty_result-IsSound}
use iroha.Yac.ProposalStorage
use iroha.Yac.ProposalStorage.{YacProposalStorage}
use iroha.Yac.ProposalStorage.Invariant as Proposal
use iroha.Yac.ProposalStorage.Invariant.{IsAnswer, IsAbout}
use iroha.Yac.VoteStorage.{YacVoteStorage, store_vote, apply_commit, update_proposal, is_proposal}

-- Every proposal storage is a valid one of a round of n peers.
pub record IsValid (n : ℕ) (s : YacVoteStorage) : Type 0 where
  pub some_peers : 0 < n
  pub few_peers : n < 2 ^ 64
  pub storages : All (Proposal.IsValid n) s.proposal_storages

pub update_proposal_lem :
    (s : YacVoteStorage) (v : VoteMessage) (n : ℕ)
    (f : YacProposalStorage → YacProposalStorage × StorageResult)
    → update_proposal s v n f ≡ (
        let p = v.hash.proposal_hash in
        let (ss, r) =
          update_or_push (is_proposal p) (ProposalStorage.create p n) f s.proposal_storages in
        (record { proposal_storages = ss }, r))
unfolding update_proposal
update_proposal_lem s v n f =
    let p = v.hash.proposal_hash in
    rw (
      modify_at-find_or_push (is_proposal p) (ProposalStorage.create p n) f empty_result
        s.proposal_storages)

is_proposal_hash : (p : Blob) (s : YacProposalStorage) → is_proposal p s ≡ true → s.hash ≡ p
is_proposal_hash p s e = ground arith

update_proposal-IsValid :
    (n : ℕ) (s : YacVoteStorage) (v : VoteMessage)
    (f : YacProposalStorage → YacProposalStorage × StorageResult)
    → IsValid n s
    → ((p : YacProposalStorage)
        → Proposal.IsValid n p
        → p.hash ≡ v.hash.proposal_hash
        → Proposal.IsValid n (f p).0 × IsAnswer n v.hash.proposal_hash (f p).1)
    → let (t, r) = update_proposal s v n f in IsValid n t × IsAnswer n v.hash.proposal_hash r
unfolding ProposalStorage.create
update_proposal-IsValid n s v f w keep =
    let p = v.hash.proposal_hash in
    let r =
      update_or_push-All (Proposal.IsValid n) (IsAnswer n p) (is_proposal p)
        (ProposalStorage.create p n) f (λ x wx fits. keep x wx (is_proposal_hash p x fits))
        (Proposal.create-IsValid p n w.some_peers w.few_peers) (ground arith) s.proposal_storages
        w.storages in
    rw (update_proposal_lem s v n f)
      (record { some_peers = w.some_peers; few_peers = w.few_peers; storages = r.0 }, r.1)

-- Storing a vote in a round of n peers keeps the storage valid, and what it answers is sound for
-- a block of the vote's proposal.
pub store_vote-IsValid :
    (n : ℕ) (s : YacVoteStorage) (v : VoteMessage)
    → IsValid n s
    → let (t, r) = store_vote s v n in IsValid n t × IsAnswer n v.hash.proposal_hash r
unfolding store_vote
store_vote-IsValid n s v w =
    update_proposal-IsValid n s v (λ p. ProposalStorage.insert p v) w
      (λ p wp e.
        let r = Proposal.insert-IsValid n p v wp in
        (r.0, subst (λ q. IsAnswer n q (ProposalStorage.insert p v).1) e r.2))

apply_commit_cons :
    (n : ℕ) (s : YacVoteStorage) (v : VoteMessage) (vs : List VoteMessage)
    → IsValid n s
    → let (t, r) = apply_commit s (record { votes = v ∷ vs }) n in
      IsValid n t × IsAnswer n v.hash.proposal_hash r
unfolding apply_commit
apply_commit_cons n s v vs w =
    let c : CommitMessage = record { votes = v ∷ vs } in
    update_proposal-IsValid n s v (λ p. ProposalStorage.apply_commit p c n) w
      (λ p wp e.
        let r = Proposal.apply_commit-IsValid n p c n wp (sym e) in
        (r.0, subst (λ q. IsAnswer n q (ProposalStorage.apply_commit p c n).1) e r.2))

-- So does applying any commit message, the empty one included.
pub apply_commit-IsValid :
    (n : ℕ) (s : YacVoteStorage) (c : CommitMessage)
    → IsValid n s
    → let (t, r) = apply_commit s c n in IsValid n t × ((p : Blob) × IsAnswer n p r)
unfolding apply_commit
apply_commit-IsValid n s c w = go c.votes
  where
    go :
        (vs : List VoteMessage)
        → let (t, r) = apply_commit s (record { votes = vs }) n in
          IsValid n t × ((p : Blob) × IsAnswer n p r)
    go [] = (w, ([], ([], empty_result-IsSound n (record { proposal_hash = []; block_hash = [] }))))
    go (v ∷ vs) = let r = apply_commit_cons n s v vs w in (r.0, (v.hash.proposal_hash, r.1))
