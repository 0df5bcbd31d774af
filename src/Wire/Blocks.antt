-- ===== src/Wire/Blocks.antt =====
-- irohad/model/converters/impl/pb_block_factory.cpp.
pub mod RoundTrip
use iroha.Prelude.{ℕ, ◌%◌, ◌^◌, List, Option, none, some, Blob, map, ◌>>=◌, traverse}
use iroha.Model.Command.{Block}
use iroha.Model.Hash.{Kind, hash_block}
use iroha.Ledger.Simulator.{zeros}
use iroha.Wire.Bytes.{copy}
use iroha.Wire.Messages.{PbBlock}
use iroha.Wire.Transactions.{
  serialize_signature, deserialize_signature, serialize_transaction, deserialize_transaction,
}

unfoldable pub serialize_block : Block → PbBlock
unfolding serialize_transaction
serialize_block block = record {
  created_time = block.created_ts;
  signatures = map serialize_signature block.sigs;
  tx_number = block.txs_number;
  height = block.height;
  merkle_root = block.merkle_root;
  prev_block_hash = block.prev_hash;
  transactions = map serialize_transaction block.transactions;
}

module _ (sha3_256 : Blob → Blob) (vtable : Kind → Blob) (uninit : ℕ → Blob) where
  -- The arrays of a signature are zeros at first here.
  unfoldable pub deserialize_block : PbBlock → Option Block
  unfolding deserialize_transaction deserialize_signature copy hash_block
  deserialize_block pb_block = do
    sigs ← traverse (deserialize_signature (zeros 32) (zeros 64)) pb_block.signatures
    merkle_root ← copy pb_block.merkle_root (uninit 32)
    prev_hash ← copy pb_block.prev_block_hash (uninit 32)
    transactions ← traverse (deserialize_transaction sha3_256 vtable uninit) pb_block.transactions
    let block : Block = record {
      hash = uninit 32;
      sigs = sigs;
      created_ts = pb_block.created_time;
      height = pb_block.height;
      prev_hash = prev_hash;
      txs_number = pb_block.tx_number % 2 ^ 16;
      merkle_root = merkle_root;
      transactions = transactions;
    }
    some (record block { hash = hash_block sha3_256 vtable block })
