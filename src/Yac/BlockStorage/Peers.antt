-- ===== src/Yac/BlockStorage/Peers.antt =====
-- Votes are told apart by hash and signature, not by the peer that signed them.
use iroha.Prelude.{
  ◌≡◌, refl, false, List, [], ◌∷◌, ◌++◌, ℕ, map, length, contains, arith, ◌≢◌, ◌+◌, ◌<◌, ◌≤◌, ◌*◌,
  ◌^◌, IsDistinct, Blob, blob_discrete, length-append, IsDistinct-middle, length-map,
}
use mathlib.Core.List.{append_assoc}
use iroha.Yac.Messages.{YacHash, VoteMessage, vote_discrete}
use iroha.Yac.StorageResult.{not_committed}
use iroha.Yac.BlockStorage.{create, insert_votes}
use iroha.Yac.BlockStorage.Replay.{state_at, distinct_votes, insert_votes-refines}

-- The votes of one peer for one block, under several signatures.
abbrev pub vote_of : YacHash → Blob → Blob → VoteMessage
vote_of h key s = record { hash = h; signature = record { signature = s; pubkey = key } }

abbrev pub votes_of : YacHash → Blob → List Blob → List VoteMessage
votes_of h key = map (vote_of h key)

contains-votes_of :
    (h : YacHash) (key s : Blob) (sigs : List Blob)
    → contains blob_discrete s sigs ≡ false
    → contains vote_discrete (vote_of h key s) (votes_of h key sigs) ≡ false
unfolding contains
contains-votes_of h key s [] e = refl
contains-votes_of h key s (t ∷ sigs) e = ground (arith, contains-votes_of h key s sigs)

votes_of-IsDistinct :
    (h : YacHash) (key : Blob) (sigs : List Blob)
    → IsDistinct blob_discrete sigs
    → IsDistinct vote_discrete (votes_of h key sigs)
votes_of-IsDistinct h key [] d = tt
votes_of-IsDistinct h key (s ∷ sigs) d =
    (contains-votes_of h key s sigs d.0, votes_of-IsDistinct h key sigs d.1)

length-distinct_votes :
    (acc vs : List VoteMessage)
    → IsDistinct vote_discrete (acc ++ vs)
    → length (distinct_votes acc vs) ≡ length acc + length vs
unfolding distinct_votes
length-distinct_votes acc [] d = omega arith
length-distinct_votes acc (v ∷ vs) d = ground (
  arith,
  IsDistinct-middle vote_discrete acc v vs d,
  length-append acc (v ∷ []),
  length-distinct_votes (acc ++ v ∷ []) vs (rw (append_assoc acc (v ∷ []) vs) d),
)

-- Nothing counts the peers: one peer with one key that votes for a block under k different
-- signatures, 3k ≥ 2n + 1, makes the storage of a round of n peers (0 < n < 2^64) commit.
pub votes_of_one_peer_commit :
    (h : YacHash) (n : ℕ) (key : Blob) (sigs : List Blob)
    → 0 < n
    → n < 2 ^ 64
    → IsDistinct blob_discrete sigs
    → 2 * n + 1 ≤ 3 * length sigs
    → (insert_votes (create h n) (votes_of h key sigs)).current_state.state ≢ not_committed
unfolding state_at
votes_of_one_peer_commit h n key sigs pos small d enough =
    let r = insert_votes-refines h n (votes_of h key sigs) pos small in
    ground (
      arith,
      length-distinct_votes [] (votes_of h key sigs) (votes_of-IsDistinct h key sigs d),
      length-map sigs (vote_of h key),
    )
