-- ===== src/Yac/ProposalStorage/Agreement.antt =====
-- Agreement inside a proposal: as long as no peer votes twice, at most one block commits.
use iroha.Prelude.{
  ◌≡◌, refl, List, [], ◌∷◌, ℕ, zero, suc, length, arith, ◌≢◌, map, length-append, length-map, ◌+◌,
  ◌≤◌, ◌<◌, ◌^◌, ◌*◌, All, subst, sym, Blob, blob_discrete, IsDistinct, IsWithin,
  length-le_of_within,
}
use iroha.Yac.Messages.{VoteMessage, CommitMessage}
use iroha.Yac.StorageResult.{CommitState, not_committed, committed, committed_before}
use iroha.Yac.BlockStorage.{YacBlockStorage}
use iroha.Yac.BlockStorage.Sound.{IsStore}
use iroha.Yac.ProposalStorage.{YacProposalStorage, aggregate_all, create, insert, apply_commit}
use iroha.Yac.ProposalStorage.Invariant.{
  IsValid, IsAbout, create-IsValid, insert-IsValid, apply_commit-IsValid,
}

abbrev counts : CommitState → ℕ
counts not_committed = 0
counts _ = 1

-- How many block storages have committed.
unfoldable pub committed_count : List YacBlockStorage → ℕ
committed_count [] = 0
committed_count (s ∷ ss) = counts s.current_state.state + committed_count ss

counts-le :
    (n : ℕ) (s : YacBlockStorage)
    → IsStore n s
    → counts s.current_state.state * (2 * n + 1) ≤ 3 * length s.votes
counts-le n s w = go s.current_state.state refl
  where
    closed : s.current_state.state ≢ not_committed → 2 * n + 1 ≤ 3 * length s.votes
    closed ne = omega (arith, w.peers, (w.valid.closed_above ne).0)

    go :
        (c : CommitState)
        → s.current_state.state ≡ c
        → counts s.current_state.state * (2 * n + 1) ≤ 3 * length s.votes
    go not_committed e = rw e (omega arith)
    go committed e = let k = closed (λ f. cc) in rw e (omega arith)
    go committed_before e = let k = closed (λ f. cc) in rw e (omega arith)

committed_count-le :
    (n : ℕ) (ss : List YacBlockStorage)
    → All (IsStore n) ss
    → committed_count ss * (2 * n + 1) ≤ 3 * length (aggregate_all ss)
unfolding committed_count aggregate_all
committed_count-le n [] w = omega arith
committed_count-le n (s ∷ ss) w = omega (
  arith,
  counts-le n s w.0,
  committed_count-le n ss w.1,
  length-append s.votes (aggregate_all ss),
)

le_one : (n c : ℕ) → c * (2 * n + 1) ≤ 3 * n → c ≤ 1
le_one n zero h = omega arith
le_one n (suc zero) h = omega arith
le_one n (suc (suc c)) h = absurd (omega arith)

-- In a valid proposal storage of n peers, where every stored vote is signed with the key of
-- another one of the n peers, at most one block has committed.
pub agreement :
    (s : YacProposalStorage) (peers : List Blob)
    → IsValid (length peers) s
    → IsDistinct blob_discrete (map (λ v. v.signature.pubkey) (aggregate_all s.block_votes))
    → IsWithin blob_discrete (map (λ v. v.signature.pubkey) (aggregate_all s.block_votes)) peers
    → committed_count s.block_votes ≤ 1
agreement s peers w d k =
    let votes = aggregate_all s.block_votes in
    le_one (length peers) (committed_count s.block_votes) (
      omega (
        arith,
        committed_count-le (length peers) s.block_votes w.stores,
        length-map votes (λ v. v.signature.pubkey),
        length-le_of_within blob_discrete (map (λ v. v.signature.pubkey) votes) peers d k,
      ))

-- What arrives for a proposal.
pub data Message : Type 0 where
  vote : VoteMessage → Message
  commit : CommitMessage → Message

-- The vote storage passes on a commit message by the proposal of its first vote.
abbrev pub IsFor : Blob → Message → Type 0
IsFor p (vote v) = Unit
IsFor p (commit c) = IsAbout p c.votes

unfoldable pub receive : ℕ → YacProposalStorage → List Message → YacProposalStorage
receive n s [] = s
receive n s (vote v ∷ ms) = receive n (insert s v).0 ms
receive n s (commit c ∷ ms) = receive n (apply_commit s c n).0 ms

abbrev pub signers : YacProposalStorage → List Blob
signers s = map (λ v. v.signature.pubkey) (aggregate_all s.block_votes)

receive-IsValid :
    (n : ℕ) (s : YacProposalStorage) (ms : List Message)
    → IsValid n s
    → All (IsFor s.hash) ms
    → IsValid n (receive n s ms)
unfolding receive
receive-IsValid n s [] w h = w
receive-IsValid n s (vote v ∷ ms) w h =
    let t = insert-IsValid n s v w in
    receive-IsValid n (insert s v).0 ms t.0 (subst (λ p. All (IsFor p) ms) (sym t.1) h.1)
receive-IsValid n s (commit c ∷ ms) w h =
    let t = apply_commit-IsValid n s c n w h.0 in
    receive-IsValid n (apply_commit s c n).0 ms t.0 (subst (λ p. All (IsFor p) ms) (sym t.1) h.1)

-- In a new proposal storage of n peers (0 < n < 2^64) that has received any votes, and any commit
-- messages whose first vote is for the proposal, at most one block has committed, if the votes that
-- it has stored are signed with distinct keys of the n peers.
pub agreement_of_messages :
    (p : Blob) (peers : List Blob) (ms : List Message)
    → 0 < length peers
    → length peers < 2 ^ 64
    → All (IsFor p) ms
    → IsDistinct blob_discrete (signers (receive (length peers) (create p (length peers)) ms))
    → IsWithin blob_discrete (signers (receive (length peers) (create p (length peers)) ms)) peers
    → committed_count (receive (length peers) (create p (length peers)) ms).block_votes ≤ 1
unfolding create
agreement_of_messages p peers ms some_ few h d w =
    let n = length peers in
    agreement (receive n (create p n) ms) peers
      (receive-IsValid n (create p n) ms (create-IsValid p n some_ few) h) d w
