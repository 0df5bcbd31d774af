-- ===== src/Yac/Gate.antt =====
-- irohad/consensus/yac/impl/yac_gate_impl.cpp, with `makeHash` of yac_hash_provider_impl.cpp and
-- `getOrdering` of peer_orderer_impl.cpp: a block goes into a round, and comes out of a commit.
pub mod Commits
use iroha.Prelude.{◌≡◌, Bool, List, [], ◌∷◌, Option, none, some, map, if◌then◌else◌}
use iroha.Model.Command.{Block}
use iroha.Yac.Messages.{YacHash, VoteMessage, CommitMessage, Peer, ◌=ʰ◌}
use iroha.Yac.ClusterOrdering
use iroha.Yac.ClusterOrdering.{ClusterOrdering}
use iroha.Ledger.Simulator.{empty_block}

-- `current_block_`
pub record YacGate : Type 0 where
  pub current_hash : YacHash
  pub current_block : Block

-- The hash of the block stands for that of the proposal, too.
unfoldable pub make_hash : Block → YacHash
make_hash block = record { proposal_hash = block.hash; block_hash = block.hash }

-- The peers that the query answers, in its order.
unfoldable pub get_ordering : Option (List Peer) → Option ClusterOrdering
get_ordering none = none
get_ordering (some peers) = some (ClusterOrdering.create peers)

-- The gate after a block, and what goes to `vote` of the hash gate.
unfoldable pub gate_vote :
    Option (List Peer) → Block → YacGate → YacGate × Option (YacHash × ClusterOrdering)
unfolding make_hash get_ordering
gate_vote peers block g =
    let hash = make_hash block in
    elim (get_ordering peers) [
      | none ↦ (g, none)
      | some order ↦ (record { current_hash = hash; current_block = block }, some (hash, order))
    ]

-- The gate after a commit message, and the block that comes out; `none` where `at(0)` throws.
unfoldable pub gate_on_commit : CommitMessage → YacGate → YacGate × Option Block
gate_on_commit commit g = elim commit.votes [
  | [] ↦ (g, none)
  | v ∷ _ ↦
      let block = record g.current_block { sigs = map (λ u. u.signature) commit.votes } in
      if v.hash =ʰ g.current_hash
      then (record g { current_block = block }, some block)
      else (g, some empty_block)
]
