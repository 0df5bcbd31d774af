-- ===== src/Yac/VoteStorage/Lookup.antt =====
-- The vote storage as a map from proposals to their states.
use iroha.Prelude.{◌≡◌, sym, subst, List, [], ◌∷◌, ℕ, arith, Blob, ◌=ᵇ◌, some, if◌then◌else◌}
use iroha.Yac.Messages.{YacHash, VoteMessage}
use iroha.Yac.StorageResult.{StorageResult}
use iroha.Yac.Slots.{update_or_push}
use iroha.Yac.ProposalStorage
use iroha.Yac.ProposalStorage.{YacProposalStorage}
use iroha.Yac.VoteStorage.{YacVoteStorage, store_vote, is_proposal, find_state, find_proposal}
use iroha.Yac.VoteStorage.Invariant.{update_proposal_lem}

find_state-update_or_push :
    (p q : Blob) (n : ℕ) (f : YacProposalStorage → YacProposalStorage × StorageResult)
    (ss : List YacProposalStorage)
    → ((s : YacProposalStorage) → ((f s).0.hash ≡ s.hash) × ((f s).1 ≡ (f s).0.current_state))
    → let (ts, r) = update_or_push (is_proposal p) (ProposalStorage.create p n) f ss in
      find_state q ts ≡ (if q =ᵇ p then some r else find_state q ss)
unfolding find_state update_or_push ProposalStorage.create
find_state-update_or_push p q n f [] keep = ground (arith, keep (ProposalStorage.create p n))
find_state-update_or_push p q n f (s ∷ ss) keep =
    ground (arith, keep s, find_state-update_or_push p q n f ss keep)

insert_keeps :
    (v : VoteMessage) (s : YacProposalStorage)
    → ((ProposalStorage.insert s v).0.hash ≡ s.hash)
      × ((ProposalStorage.insert s v).1 ≡ (ProposalStorage.insert s v).0.current_state)
unfolding ProposalStorage.insert
insert_keeps v s = ground arith

-- After a vote is stored, the state found for its proposal is the answer that was given, and that
-- of every other proposal is what it was.
pub find_proposal-store_vote :
    (s : YacVoteStorage) (v : VoteMessage) (n : ℕ) (h : YacHash)
    → let (t, r) = store_vote s v n in
      find_proposal t h
      ≡ (if h.proposal_hash =ᵇ v.hash.proposal_hash then some r else find_proposal s h)
unfolding store_vote find_proposal
find_proposal-store_vote s v n h =
    subst
      (λ (x : YacVoteStorage × StorageResult).
        find_proposal x.0 h
        ≡ (if h.proposal_hash =ᵇ v.hash.proposal_hash then some x.1 else find_proposal s h))
      (sym (update_proposal_lem s v n (λ p. ProposalStorage.insert p v)))
      (find_state-update_or_push v.hash.proposal_hash h.proposal_hash n
        (λ p. ProposalStorage.insert p v) s.proposal_storages (insert_keeps v))
