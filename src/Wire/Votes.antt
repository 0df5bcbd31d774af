-- ===== src/Wire/Votes.antt =====
-- irohad/consensus/yac/impl/network_impl.cpp, with the messages of schema/yac.proto. A request on
-- its way is the stub that it is sent through, the metadata that names the sender, and the message;
-- what gRPC does with it is left out.
pub mod RoundTrip
use iroha.Prelude.{
  ◌≡◌, ℕ, List, [], ◌∷◌, Option, none, some, Blob, blob_discrete, map, is_yes, ◌=ᵇ◌, if◌then◌else◌,
  ◌>>=◌, traverse,
}
use iroha.Model.Types.{Peer}
use iroha.Yac.Messages.{YacHash, VoteMessage, CommitMessage, RejectMessage}
use iroha.Wsv.Tables.{peer_discrete}
use iroha.Wire.Messages.{PbSignature}
use iroha.Wire.Transactions.{serialize_signature, deserialize_signature}

pub record PbVote : Type 0 where
  pub proposal : Blob
  pub block : Blob
  pub signature : PbSignature

pub record PbCommit : Type 0 where
  pub votes : List PbVote

pub record PbReject : Type 0 where
  pub votes : List PbVote

-- `peers_[peer] = …` and `peers_addresses_[peer.address] = peer`: the later entry replaces an
-- earlier one, so the later is looked up first. A stub is the address that it is connected to.
pub record NetworkImpl : Type 0 where
  pub address : Blob
  pub peers : List (Peer × Blob)
  pub peers_addresses : List (Blob × Peer)

unfoldable pub add_peers : List Peer → NetworkImpl → NetworkImpl
add_peers [] network = network
add_peers (peer ∷ rest) network = add_peers rest (record network {
  peers = (peer, peer.address) ∷ network.peers;
  peers_addresses = (peer.address, peer) ∷ network.peers_addresses;
})

abbrev pub network_impl : Blob → List Peer → NetworkImpl
network_impl address peers =
    add_peers peers (record { address = address; peers = []; peers_addresses = [] })

-- `at` throws where there is no entry.
unfoldable pub stub_at : Peer → List (Peer × Blob) → Option Blob
stub_at to [] = none
stub_at to (entry ∷ entries) =
    if is_yes (peer_discrete to entry.0) then some entry.1 else stub_at to entries

unfoldable pub peer_at : Blob → List (Blob × Peer) → Option Peer
peer_at address [] = none
peer_at address (entry ∷ entries) =
    if address =ᵇ entry.0 then some entry.1 else peer_at address entries

pub record Request (M : Type 0) : Type 0 where
  pub stub : Blob
  pub metadata : Option Blob
  pub message : M

unfoldable pub write_vote : VoteMessage → PbVote
write_vote vote = record {
  proposal = vote.hash.proposal_hash;
  block = vote.hash.block_hash;
  signature = serialize_signature vote.signature;
}

abbrev pub send : {M : Type 0} → NetworkImpl → Peer → M → Option (Request M)
send network to message = do
  stub ← stub_at to network.peers
  some (record { stub = stub; metadata = some network.address; message = message })

unfoldable pub send_vote : NetworkImpl → Peer → VoteMessage → Option (Request PbVote)
unfolding write_vote stub_at
send_vote network to vote = send network to (write_vote vote)

unfoldable pub send_commit : NetworkImpl → Peer → CommitMessage → Option (Request PbCommit)
unfolding write_vote stub_at
send_commit network to commit = send network to (record { votes = map write_vote commit.votes })

unfoldable pub send_reject : NetworkImpl → Peer → RejectMessage → Option (Request PbReject)
unfolding write_vote stub_at
send_reject network to reject = send network to (record { votes = map write_vote reject.votes })

-- What the handler is called with: `on_vote(peer, vote)` and so on. A request without the metadata
-- dereferences `end()`, which C++ leaves undefined: `none`.
module _ (uninit : ℕ → Blob) where
  unfoldable pub read_vote : PbVote → Option VoteMessage
  unfolding deserialize_signature
  read_vote pb_vote = do
    signature ← deserialize_signature (uninit 32) (uninit 64) pb_vote.signature
    some (record {
      hash = record { proposal_hash = pb_vote.proposal; block_hash = pb_vote.block };
      signature = signature;
    })

  abbrev pub sender : {M : Type 0} → NetworkImpl → Request M → Option Peer
  sender network request = do address ← request.metadata; peer_at address network.peers_addresses

  unfoldable pub receive_vote : NetworkImpl → Request PbVote → Option (Peer × VoteMessage)
  unfolding read_vote peer_at
  receive_vote network request = do
    peer ← sender network request
    vote ← read_vote request.message
    some (peer, vote)

  unfoldable pub receive_commit : NetworkImpl → Request PbCommit → Option (Peer × CommitMessage)
  unfolding read_vote peer_at
  receive_commit network request = do
    peer ← sender network request
    votes ← traverse read_vote request.message.votes
    some (peer, record { votes = votes })

  unfoldable pub receive_reject : NetworkImpl → Request PbReject → Option (Peer × RejectMessage)
  unfolding read_vote peer_at
  receive_reject network request = do
    peer ← sender network request
    votes ← traverse read_vote request.message.votes
    some (peer, record { votes = votes })
