-- ===== src/Wire/Tests.antt =====
-- A block, votes and answers on the wire.
use iroha.Prelude.{◌≡◌, refl, true, [], ◌∷◌, some, Blob, arith}
use iroha.Model.Types.{Signature, Peer, Permissions, no_permissions}
use iroha.Model.Command.{set_account_permissions, add_peer, Transaction, Block}
use iroha.Model.Hash.{Kind, hash_transaction, hash_block}
use iroha.Ledger.Simulator.{zeros}
use iroha.Yac.Messages.{VoteMessage}
use iroha.Wire.Blocks.{serialize_block, deserialize_block}
use iroha.Wire.Blocks.RoundTrip.{
  length-zeros, IsSignature, IsTransaction, IsBlock, received_transaction,
  deserialize-serialize_block,
}

abbrev pub sha3_256 : Blob → Blob
sha3_256 s = zeros 32

abbrev pub vtable : Kind → Blob
vtable k = 1 ∷ []

abbrev pub signature : Signature
signature = record { signature = zeros 64; pubkey = zeros 32 }

abbrev pub manager : Permissions
manager = record no_permissions { set_permissions = true }

abbrev pub transaction : Transaction
transaction = record {
  signatures = signature ∷ [];
  created_ts = 5;
  creator_account_id = b'a' ∷ [];
  tx_counter = 7;
  tx_hash = zeros 32;
  commands = set_account_permissions (b'b' ∷ []) manager ∷ add_peer (zeros 32) (b'p' ∷ []) ∷ [];
}

abbrev pub block : Block
block = record {
  hash = zeros 32;
  sigs = signature ∷ [];
  created_ts = 6;
  height = 3;
  prev_hash = zeros 32;
  txs_number = 1;
  merkle_root = zeros 32;
  transactions = transaction ∷ [];
}

signature-IsSignature : IsSignature signature
signature-IsSignature = record { key_size = length-zeros 32; signature_size = length-zeros 64 }

hashed : hash_transaction sha3_256 vtable transaction ≡ zeros 32
unfolding hash_transaction
hashed = refl

block_hashed : hash_block sha3_256 vtable block ≡ zeros 32
unfolding hash_block
block_hashed = refl

transaction-IsTransaction : IsTransaction sha3_256 vtable transaction
unfolding hash_transaction
transaction-IsTransaction = record {
  signatures = (signature-IsSignature, tt);
  commands = (tt, (length-zeros 32, tt));
  hash = refl;
}

block-IsBlock : IsBlock sha3_256 vtable block
unfolding hash_block
block-IsBlock = record {
  sigs = (signature-IsSignature, tt);
  merkle_root = length-zeros 32;
  prev_hash = length-zeros 32;
  txs_number = omega arith;
  transactions = (transaction-IsTransaction, tt);
  hash = refl;
}

deserialize-serialize_block_example :
    deserialize_block sha3_256 vtable zeros (serialize_block block)
    ≡ some (record block { transactions = received_transaction transaction ∷ [] })
deserialize-serialize_block_example =
    deserialize-serialize_block sha3_256 vtable zeros length-zeros block block-IsBlock

abbrev first : Peer
first = record { address = b'1' ∷ []; pubkey = zeros 32 }

abbrev second : Peer
second = record { address = b'2' ∷ []; pubkey = zeros 32 }

abbrev vote : VoteMessage
vote = record {
  hash = record { proposal_hash = 1 ∷ []; block_hash = 2 ∷ [] };
  signature = signature;
}
