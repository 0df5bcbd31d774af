-- ===== src/Yac/Gate/Commits.antt =====
-- The block that comes out of the commit of its round.
use iroha.Prelude.{
  ◌≡◌, ◌≤◌, ◌+◌, ◌*◌, true, List, [], ◌∷◌, some, map, length, length-map, arith, All,
}
use iroha.Model.Command.{Block}
use iroha.Wsv.Tables.{Wsv}
use iroha.Wsv.Query.{get_peers}
use iroha.Yac.Messages.{VoteMessage, CommitMessage}
use iroha.Yac.BlockStorage.Sound.{IsSupermajority}
use iroha.Yac.Gate.{YacGate, make_hash, gate_vote, gate_on_commit}
use iroha.Ledger.Chain.{check_supermajority}

-- After the gate has put a block into a round with the peers of the tables, every commit message
-- that is a supermajority of them for the hash of the block brings out that block, signed with the
-- signatures of the votes, and these are enough for the chain validator on the same tables.
pub gate_on_commit-block :
    (w : Wsv) (block : Block) (g : YacGate) (c : CommitMessage)
    → IsSupermajority (length w.peer) (make_hash block) c
    → ((gate_on_commit c (gate_vote (get_peers w) block g).0).1
        ≡ some (record block { sigs = map (λ v. v.signature) c.votes }))
      × (check_supermajority w (length (map (λ v. v.signature) c.votes)) ≡ true)
unfolding gate_on_commit gate_vote get_peers check_supermajority
gate_on_commit-block w block g c s = go c.votes s.same s.enough
  where
    go :
        (vs : List VoteMessage)
        → All (λ v. v.hash ≡ make_hash block) vs
        → 2 * length w.peer + 1 ≤ 3 * length vs
        → ((gate_on_commit (record { votes = vs }) (gate_vote (get_peers w) block g).0).1
            ≡ some (record block { sigs = map (λ v. v.signature) vs }))
          × (check_supermajority w (length (map (λ v. v.signature) vs)) ≡ true)
    go [] h e = absurd (omega arith)
    go (v ∷ vs) h e = (ground (arith, h.0), ground (arith, length-map (v ∷ vs) (λ u. u.signature)))
