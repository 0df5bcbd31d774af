-- ===== src/Wire/Transactions.antt =====
-- irohad/model/converters/impl/pb_transaction_factory.cpp.
use iroha.Prelude.{ℕ, Option, some, Blob, map, ◌>>=◌, traverse}
use iroha.Model.Types.{Signature}
use iroha.Model.Command.{Transaction}
use iroha.Model.Hash.{Kind, hash_transaction}
use iroha.Wire.Bytes.{copy}
use iroha.Wire.Messages.{PbSignature, PbTransaction}
use iroha.Wire.Commands.{serialize_abstract_command, deserialize_abstract_command}

abbrev pub serialize_signature : Signature → PbSignature
serialize_signature s = record { pubkey = s.pubkey; signature = s.signature }

-- A signature read into arrays that hold `pubkey` and `signature`.
unfoldable pub deserialize_signature : Blob → Blob → PbSignature → Option Signature
unfolding copy
deserialize_signature pubkey signature pb_sign = do
  key ← copy pb_sign.pubkey pubkey
  sign ← copy pb_sign.signature signature
  some (record { signature = sign; pubkey = key })

unfoldable pub serialize_transaction : Transaction → PbTransaction
unfolding serialize_abstract_command
serialize_transaction tx = record {
  created_time = tx.created_ts;
  signatures = map serialize_signature tx.signatures;
  creator_account_id = tx.creator_account_id;
  tx_counter = tx.tx_counter;
  commands = map serialize_abstract_command tx.commands;
}

module _ (sha3_256 : Blob → Blob) (vtable : Kind → Blob) (uninit : ℕ → Blob) where
  -- The hash reads through the pointer of every command: a null pointer is `none`.
  unfoldable pub deserialize_transaction : PbTransaction → Option Transaction
  unfolding deserialize_abstract_command deserialize_signature hash_transaction
  deserialize_transaction pb_tx = do
    signatures ← traverse (deserialize_signature (uninit 32) (uninit 64)) pb_tx.signatures
    pointers ← traverse (deserialize_abstract_command uninit) pb_tx.commands
    commands ← traverse (λ c. c) pointers
    let tx : Transaction = record {
      signatures = signatures;
      created_ts = pb_tx.created_time;
      creator_account_id = pb_tx.creator_account_id;
      tx_counter = pb_tx.tx_counter;
      tx_hash = uninit 32;
      commands = commands;
    }
    some (record tx { tx_hash = hash_transaction sha3_256 vtable tx })
