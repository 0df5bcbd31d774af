-- ===== src/Yac/Round/Repeats.antt =====
-- A commit message that comes again is notified again.
use iroha.Prelude.{
  ◌≡◌, refl, sym, ap, subst, ◌∙◌, true, List, [], ◌∷◌, ◌++◌, ℕ, arith, some, length, ◌=ᵇ◌, ◌&&◌,
}
use iroha.Yac.Messages.{YacHash, VoteMessage, CommitMessage, Peer}
use iroha.Yac.StorageResult.{StorageResult, CommitState, not_committed, committed, committed_before}
use iroha.Yac.Slots.{update_or_push, update_or_push_again}
use iroha.Yac.BlockStorage
use iroha.Yac.BlockStorage.{YacBlockStorage}
use iroha.Yac.BlockStorage.Commits.{insert_commit_repeats}
use iroha.Yac.ProposalStorage
use iroha.Yac.ProposalStorage.{YacProposalStorage, keep_committed}
use iroha.Yac.ProposalStorage.Invariant.{update_store_lem}
use iroha.Yac.VoteStorage
use iroha.Yac.VoteStorage.{YacVoteStorage, is_proposal}
use iroha.Yac.VoteStorage.Invariant.{update_proposal_lem}
use iroha.Yac.Round.{Yac, CryptoProvider, on_commit, notify}

abbrev Committed : StorageResult → Type 0
Committed r = r.state ≡ committed

-- The block storages, the second time.
stores_repeat :
    (s : YacProposalStorage) (h : YacHash) (c : CommitMessage) (r : StorageResult)
    → let f = λ (b : YacBlockStorage). BlockStorage.insert_commit b c in
      let (ss, q) = ProposalStorage.update_store s h f in
      Committed q
      → ProposalStorage.update_store (record s { block_votes = ss; current_state = r }) h f
        ≡ (ss, q)
unfolding BlockStorage.create
stores_repeat s h c r e =
    let f = λ (b : YacBlockStorage). BlockStorage.insert_commit b c in
    let p = ProposalStorage.is_store h.proposal_hash h.block_hash in
    let new = ProposalStorage.new_store s h in
    let once = update_store_lem s h f in
    let again =
      update_or_push_again Committed p new f
        (λ b fits q.
          let (same, k) = insert_commit_repeats b c q in
          (
            subst
                (λ x.
                  ((x.proposal_hash =ᵇ h.proposal_hash) && (x.block_hash =ᵇ h.block_hash)) ≡ true)
                (sym same) fits,
            k,
          ))
        (ground arith) s.block_votes
        (subst (λ (x : List YacBlockStorage × StorageResult). Committed x.1) once e) in
    update_store_lem
      (record s { block_votes = (ProposalStorage.update_store s h f).0; current_state = r }) h f
    ∙ ap (λ (x : List YacBlockStorage × StorageResult). update_or_push p new f x.0) once
    ∙ again
    ∙ sym once

keep_twice :
    (c : CommitState) (old r : StorageResult)
    → keep_committed c (keep_committed c old r) r ≡ keep_committed c old r
keep_twice not_committed old r = refl
keep_twice committed old r = refl
keep_twice committed_before old r = refl

apply_commit_repeats :
    (s : YacProposalStorage) (c : CommitMessage) (n : ℕ)
    → Committed (ProposalStorage.apply_commit s c n).1
    → let (t, r) = ProposalStorage.apply_commit s c n in
      (t.hash ≡ s.hash) × (ProposalStorage.apply_commit t c n ≡ (t, r))
unfolding ProposalStorage.apply_commit
apply_commit_repeats s c n e = go c.votes e
  where
    go :
        (vs : List VoteMessage)
        → Committed (ProposalStorage.apply_commit s (record { votes = vs }) n).1
        → let (t, r) = ProposalStorage.apply_commit s (record { votes = vs }) n in
          (t.hash ≡ s.hash) × (ProposalStorage.apply_commit t (record { votes = vs }) n ≡ (t, r))
    go [] e = absurd (ground arith)
    go (v ∷ vs) e =
        let f = λ (b : YacBlockStorage). BlockStorage.insert_commit b (record { votes = v ∷ vs }) in
        let (ss, r) = ProposalStorage.update_store s v.hash f in
        let kept = keep_committed r.state s.current_state r in
        let after = λ (old : StorageResult) (x : List YacBlockStorage × StorageResult).
          let y : YacProposalStorage × StorageResult = (
            record s { block_votes = x.0; current_state = keep_committed x.1.state old x.1 },
            x.1,
          ) in
          y in
        (
          refl,
          ap (after kept) (stores_repeat s v.hash (record { votes = v ∷ vs }) kept e)
              ∙ ap
                  (λ (k : StorageResult).
                    let y : YacProposalStorage × StorageResult =
                      (record s { block_votes = ss; current_state = k }, r) in
                    y)
                  (keep_twice r.state s.current_state r),
        )

proposals_repeat :
    (s : YacVoteStorage) (v : VoteMessage) (c : CommitMessage) (n : ℕ)
    → let f = λ (p : YacProposalStorage). ProposalStorage.apply_commit p c n in
      let (t, r) = VoteStorage.update_proposal s v n f in
      Committed r → VoteStorage.update_proposal t v n f ≡ (t, r)
unfolding ProposalStorage.create
proposals_repeat s v c n e =
    let f = λ (p : YacProposalStorage). ProposalStorage.apply_commit p c n in
    let h = v.hash.proposal_hash in
    let new = ProposalStorage.create h n in
    let once = update_proposal_lem s v n f in
    let again =
      update_or_push_again Committed (is_proposal h) new f
        (λ p fits q.
          let (same, k) = apply_commit_repeats p c n q in
          (subst (λ x. (x =ᵇ h) ≡ true) (sym same) fits, k))
        (ground arith) s.proposal_storages
        (subst (λ (x : YacVoteStorage × StorageResult). Committed x.1) once e) in
    let wrap = λ (x : List YacProposalStorage × StorageResult).
      let y : YacVoteStorage × StorageResult = (record { proposal_storages = x.0 }, x.1) in y in
    update_proposal_lem (VoteStorage.update_proposal s v n f).0 v n f
    ∙ ap
        (λ (x : YacVoteStorage × StorageResult).
          wrap (update_or_push (is_proposal h) new f x.0.proposal_storages))
        once
    ∙ ap wrap again
    ∙ sym once

-- In the vote storage a commit message that was answered with `committed` is answered so again,
-- and changes nothing the second time.
pub apply_commit-repeats :
    (s : YacVoteStorage) (c : CommitMessage) (n : ℕ)
    → Committed (VoteStorage.apply_commit s c n).1
    → let (t, r) = VoteStorage.apply_commit s c n in VoteStorage.apply_commit t c n ≡ (t, r)
unfolding VoteStorage.apply_commit
apply_commit-repeats s c n e = go c.votes e
  where
    go :
        (vs : List VoteMessage)
        → Committed (VoteStorage.apply_commit s (record { votes = vs }) n).1
        → let (t, r) = VoteStorage.apply_commit s (record { votes = vs }) n in
          VoteStorage.apply_commit t (record { votes = vs }) n ≡ (t, r)
    go [] e = absurd (ground arith)
    go (v ∷ vs) e = proposals_repeat s v (record { votes = v ∷ vs }) n e

-- How the storage of a peer answers a commit message.
abbrev pub commit_answer : Yac → CommitMessage → StorageResult
commit_answer y c = (VoteStorage.apply_commit y.vote_storage c (length y.cluster_order.order)).1

module _ (crypto : CryptoProvider) where
  -- A verified commit message that the storage answers with `committed` is notified each time that
  -- it arrives: a second copy, from any peer, notifies the same commit once more.
  pub on_commit_notifies_again :
      (y : Yac) (from other : Peer) (c m : CommitMessage)
      → crypto.verify_commit c ≡ true
      → (commit_answer y c).state ≡ committed
      → (commit_answer y c).answer.commit ≡ some m
      → let y' = on_commit crypto y from c in
        (y'.notified ≡ y.notified ++ m ∷ [])
        × ((on_commit crypto y' other c).notified ≡ (y.notified ++ m ∷ []) ++ m ∷ [])
  unfolding on_commit notify
  on_commit_notifies_again y from other c m v e f =
      ground (arith, apply_commit-repeats y.vote_storage c (length y.cluster_order.order) e)
