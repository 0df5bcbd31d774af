-- ===== src/Yac/ProposalStorage/Invariant.antt =====
-- What holds of a proposal storage after any sequence of votes and commits.
use iroha.Prelude.{
  ◌≡◌, refl, true, List, [], ◌∷◌, ℕ, arith, inl, inr, ◌<◌, ◌^◌, All, Blob, sym, subst, Bool-cases,
}
use iroha.Yac.Messages.{YacHash, VoteMessage, CommitMessage}
use iroha.Yac.StorageResult.{
  StorageResult, CommitState, not_committed, committed, committed_before, empty_result,
}
use iroha.Yac.Slots.{update_or_push, modify_at-find_or_push, update_or_push-All}
use iroha.Yac.BlockStorage
use iroha.Yac.BlockStorage.{YacBlockStorage}
use iroha.Yac.BlockStorage.Sound.{
  IsSound, IsStore, empty_result-IsSound, create-IsStore, insert-IsStore, insert_commit-IsStore,
}
use iroha.Yac.ProposalStorage.{
  YacProposalStorage, create, insert, apply_commit, update_store, is_store, new_store,
  should_insert, update_state, keep_committed,
}

-- `update_store` in one pass.
pub update_store_lem :
    (s : YacProposalStorage) (h : YacHash) (f : YacBlockStorage → YacBlockStorage × StorageResult)
    → update_store s h f
      ≡ update_or_push (is_store h.proposal_hash h.block_hash) (new_store s h) f s.block_votes
unfolding update_store
update_store_lem s h f =
    modify_at-find_or_push (is_store h.proposal_hash h.block_hash) (new_store s h) f empty_result
      s.block_votes

-- The hash for which an answer is sound is that of some block of the proposal.
abbrev pub IsAnswer : ℕ → Blob → StorageResult → Type 0
IsAnswer n p r = (b : Blob) × IsSound n (record { proposal_hash = p; block_hash = b }) r

-- A valid proposal storage: its block storages are valid, each for its own hash, and what it
-- answers is sound.
pub record IsValid (n : ℕ) (s : YacProposalStorage) : Type 0 where
  pub some_peers : 0 < n
  pub few_peers : n < 2 ^ 64
  pub peers : s.peers_in_round ≡ n
  pub stores : All (IsStore n) s.block_votes
  pub answer : IsAnswer n s.hash s.current_state

pub create-IsValid : (p : Blob) (n : ℕ) → 0 < n → n < 2 ^ 64 → IsValid n (create p n)
unfolding create
create-IsValid p n pos small = record {
  some_peers = pos;
  few_peers = small;
  peers = refl;
  stores = tt;
  answer = ([], empty_result-IsSound n (record { proposal_hash = p; block_hash = [] }));
}

is_store_hash :
    (h : YacHash) (b : YacBlockStorage)
    → is_store h.proposal_hash h.block_hash b ≡ true
    → b.hash ≡ h
is_store_hash h b e = ground arith

-- A change that keeps a block storage of hash h, and answers soundly for h, does so through the
-- search for h.
update_store-IsStore :
    (n : ℕ) (s : YacProposalStorage) (h : YacHash)
    (f : YacBlockStorage → YacBlockStorage × StorageResult)
    → IsValid n s
    → ((b : YacBlockStorage) → IsStore n b → b.hash ≡ h → IsStore n (f b).0 × IsSound n h (f b).1)
    → All (IsStore n) (update_store s h f).0 × IsSound n h (update_store s h f).1
unfolding BlockStorage.create
update_store-IsStore n s h f w keep = rw (update_store_lem s h f) (
    update_or_push-All (IsStore n) (IsSound n h) (is_store h.proposal_hash h.block_hash)
      (new_store s h) f (λ b wb fits. keep b wb (is_store_hash h b fits))
      (rw w.peers (create-IsStore h n w.some_peers w.few_peers)) (ground arith) s.block_votes
      w.stores)

insert_vote-IsStore :
    (n : ℕ) (s : YacProposalStorage) (v : VoteMessage)
    → IsValid n s
    → let (stores, r) = update_store s v.hash (λ b. BlockStorage.insert b v) in
      All (IsStore n) stores × IsSound n v.hash r
insert_vote-IsStore n s v w =
    update_store-IsStore n s v.hash (λ b. BlockStorage.insert b v) w
      (λ b wb e.
        let r = insert-IsStore n b v wb (sym e) in
        (r.0, subst (λ h. IsSound n h (BlockStorage.insert b v).1) e r.1))

abbrev AnswerFor : ℕ → YacHash → StorageResult → Type 0
AnswerFor n h = IsAnswer n h.proposal_hash

sound-answer : (n : ℕ) (h : YacHash) (r : StorageResult) → IsSound n h r → AnswerFor n h r
sound-answer n h r w = (h.block_hash, w)

update_state-IsAnswer :
    (n : ℕ) (p : Blob) (s : YacProposalStorage) (r : StorageResult)
    → IsAnswer n p s.current_state
    → IsAnswer n p r
    → IsAnswer n p (update_state s r)
unfolding update_state
update_state-IsAnswer n p s r old new = go r.state refl
  where
    go : (c : CommitState) → r.state ≡ c → IsAnswer n p (update_state s r)
    go not_committed e = rw (e, update_state) old
    go committed e = rw (e, update_state) new
    go committed_before e = rw (e, update_state) new

should_insert_hash :
    (s : YacProposalStorage) (v : VoteMessage)
    → should_insert s v ≡ true
    → v.hash.proposal_hash ≡ s.hash
unfolding should_insert
should_insert_hash s v e = ground arith

-- Storing any vote keeps the proposal storage valid, and the answer is sound.
pub insert-IsValid :
    (n : ℕ) (s : YacProposalStorage) (v : VoteMessage)
    → IsValid n s
    → let (t, r) = insert s v in IsValid n t × (t.hash ≡ s.hash) × IsAnswer n s.hash r
unfolding insert
insert-IsValid n s v w = elim (Bool-cases (should_insert s v)) [
  | inr e ↦ rw (e, insert) (w, refl, w.answer)
  | inl e ↦
      let r = insert_vote-IsStore n s v w in
      let stores = (update_store s v.hash (λ b. BlockStorage.insert b v)).0 in
      let a =
        update_state-IsAnswer n s.hash (record s { block_votes = stores })
          (update_store s v.hash (λ b. BlockStorage.insert b v)).1 w.answer
          (subst (λ p. IsAnswer n p (update_store s v.hash (λ b. BlockStorage.insert b v)).1)
            (should_insert_hash s v e) (sound-answer n v.hash _ r.1)) in
      rw (e, insert)
        (
          record {
            some_peers = w.some_peers;
            few_peers = w.few_peers;
            peers = w.peers;
            stores = r.0;
            answer = a;
          },
          refl,
          a,
        )
]

commit-IsStore :
    (n : ℕ) (s : YacProposalStorage) (h : YacHash) (c : CommitMessage)
    → IsValid n s
    → let (stores, r) = update_store s h (λ b. BlockStorage.insert_commit b c) in
      All (IsStore n) stores × IsSound n h r
commit-IsStore n s h c w =
    update_store-IsStore n s h (λ b. BlockStorage.insert_commit b c) w
      (λ b wb e.
        let r = insert_commit-IsStore n b c wb in
        (r.0, subst (λ k. IsSound n k (BlockStorage.insert_commit b c).1) e r.1))

keep_committed-IsAnswer :
    (n : ℕ) (p : Blob) (c : CommitState) (old r : StorageResult)
    → IsAnswer n p old
    → IsAnswer n p r
    → IsAnswer n p (keep_committed c old r)
keep_committed-IsAnswer n p committed old r a b = b
keep_committed-IsAnswer n p _ old r a b = a

apply_commit_cons :
    (n : ℕ) (s : YacProposalStorage) (v : VoteMessage) (vs : List VoteMessage) (m : ℕ)
    → IsValid n s
    → v.hash.proposal_hash ≡ s.hash
    → let (t, r) = apply_commit s (record { votes = v ∷ vs }) m in
      IsValid n t × (t.hash ≡ s.hash) × IsAnswer n s.hash r
unfolding apply_commit
apply_commit_cons n s v vs m w e =
    let c : CommitMessage = record { votes = v ∷ vs } in
    let r = commit-IsStore n s v.hash c w in
    let res = (update_store s v.hash (λ b. BlockStorage.insert_commit b c)).1 in
    let a = subst (λ p. IsAnswer n p res) e (sound-answer n v.hash res r.1) in
    (
      record {
        some_peers = w.some_peers;
        few_peers = w.few_peers;
        peers = w.peers;
        stores = r.0;
        answer = keep_committed-IsAnswer n s.hash res.state s.current_state res w.answer a;
      },
      refl,
      a,
    )

-- The first vote's proposal is that of the storage: how the vote storage calls `applyCommit`.
abbrev pub IsAbout : Blob → List VoteMessage → Type 0
IsAbout p [] = Unit
IsAbout p (v ∷ vs) = v.hash.proposal_hash ≡ p

-- So does applying a commit message about the proposal, whatever votes it holds.
pub apply_commit-IsValid :
    (n : ℕ) (s : YacProposalStorage) (c : CommitMessage) (m : ℕ)
    → IsValid n s
    → IsAbout s.hash c.votes
    → let (t, r) = apply_commit s c m in IsValid n t × (t.hash ≡ s.hash) × IsAnswer n s.hash r
unfolding apply_commit
apply_commit-IsValid n s c m w e = go c.votes e
  where
    go :
        (vs : List VoteMessage)
        → IsAbout s.hash vs
        → let (t, r) = apply_commit s (record { votes = vs }) m in
          IsValid n t × (t.hash ≡ s.hash) × IsAnswer n s.hash r
    go [] a =
        (w, refl, ([], empty_result-IsSound n (record { proposal_hash = s.hash; block_hash = [] })))
    go (v ∷ vs) a = apply_commit_cons n s v vs m w a
