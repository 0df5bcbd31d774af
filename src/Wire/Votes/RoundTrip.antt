-- ===== src/Wire/Votes/RoundTrip.antt =====
-- A vote that goes from peer to peer.
use iroha.Prelude.{◌≡◌, ℕ, true, List, [], Blob, All, contains, length}
use iroha.Model.Types.{Peer}
use iroha.Yac.Messages.{VoteMessage}
use iroha.Wsv.Tables.{peer_discrete}
use iroha.Wire.Blocks.RoundTrip.{IsSignature}
use iroha.Wire.Votes.{NetworkImpl}

abbrev pub IsKnown : Peer → List Peer → Type 0
IsKnown p peers = contains peer_discrete p peers ≡ true

-- No other peer has the address of `p`.
abbrev pub IsAlone : Peer → List Peer → Type 0
IsAlone p peers = All (λ q. q.address ≡ p.address → q ≡ p) peers

abbrev start : Blob → NetworkImpl
start address = record { address = address; peers = []; peers_addresses = [] }

module _ (uninit : ℕ → Blob) (sized : (n : ℕ) → length (uninit n) ≡ n) where
  abbrev pub IsVote : VoteMessage → Type 0
  IsVote vote = IsSignature vote.signature
