-- ===== src/Json/Blocks.antt =====
-- irohad/model/converters/impl/json_common.cpp (signatures), json_transaction_factory.cpp and
-- json_block_factory.cpp. The objects that are read are zero at first, but for the commands.
pub mod RoundTrip
pub mod Format
use Prim.Native.String.{String}
use iroha.Prelude.{
  ◌≡◌, ℕ, ◌%◌, ◌^◌, Bool, true, false, not, List, [], ◌∷◌, Option, none, some, Blob, if◌then◌else◌,
  ◌>>=◌,
}
use iroha.Model.Types.{Signature}
use iroha.Model.Command.{Transaction, Block}
use iroha.Ledger.Simulator.{zeros}
use iroha.Json.{
  Json, json_uint, json_string, json_array, json_object, object, to_values, string_at, uint_at,
  uint64_at, array_at, verify_required_members,
}
use iroha.Json.Hex.{to_hexstring, hexstring_to_array}
use iroha.Json.Commands.{serialize_abstract_command, hex}
use iroha.Json.Commands.Read.{deserialize_abstract_command}
use iroha.Store.Storage.{BlockFormat}

unfoldable pub serialize_signature : Signature → Json
serialize_signature signature =
    json_object
      (object (("pubkey", hex signature.pubkey) ∷ ("signature", hex signature.signature) ∷ []))

unfoldable pub serialize_transaction : Transaction → Json
unfolding serialize_signature serialize_abstract_command
serialize_transaction transaction = json_object (
    object (
      ("signatures", json_array (to_values serialize_signature transaction.signatures))
      ∷ ("created_ts", json_uint transaction.created_ts)
      ∷ ("creator_account_id", json_string transaction.creator_account_id)
      ∷ ("tx_counter", json_uint transaction.tx_counter)
      ∷ ("commands", json_array (to_values serialize_abstract_command transaction.commands))
      ∷ []))

unfoldable pub serialize_block : Block → Json
unfolding serialize_signature serialize_transaction
serialize_block block = json_object (
    object (
      ("signatures", json_array (to_values serialize_signature block.sigs))
      ∷ ("created_ts", json_uint block.created_ts)
      ∷ ("hash", hex block.hash)
      ∷ ("prev_hash", hex block.prev_hash)
      ∷ ("height", json_uint block.height)
      ∷ ("txs_number", json_uint block.txs_number)
      ∷ ("merkle_root", hex block.merkle_root)
      ∷ ("transactions", json_array (to_values serialize_transaction block.transactions))
      ∷ []))

module _ (strtol : Blob → ℕ) where
  abbrev pub hash_at : ℕ → String → Json → Option Blob
  hash_at size name document = do
    string ← string_at name document
    hexstring_to_array strtol string (zeros size)

  unfoldable pub deserialize_signature : Json → Option Signature
  deserialize_signature document = do
    pubkey ← hash_at 32 "pubkey" document
    signature ← hash_at 64 "signature" document
    some (record { signature = signature; pubkey = pubkey })

  module _ (uninit : ℕ → Blob) where
    unfoldable pub deserialize_transaction : Json → Option Transaction
    deserialize_transaction document =
        if not (
          verify_required_members document
            ("creator_account_id" ∷ "tx_counter" ∷ "commands" ∷ "signatures" ∷ "created_ts" ∷ []))
        then none
        else do
          signatures ← array_at (deserialize_signature) "signatures" document
          created_ts ← uint64_at "created_ts" document
          creator_account_id ← string_at "creator_account_id" document
          tx_counter ← uint64_at "tx_counter" document
          commands ← array_at (deserialize_abstract_command strtol uninit) "commands" document
          some (record {
            signatures = signatures;
            created_ts = created_ts;
            creator_account_id = creator_account_id;
            tx_counter = tx_counter;
            tx_hash = zeros 32;
            commands = commands;
          })

    unfoldable pub deserialize_block : Json → Option Block
    deserialize_block document =
        if not (
          verify_required_members document
            ("hash" ∷ "signatures" ∷ "created_ts" ∷ "height" ∷ "prev_hash" ∷ "txs_number" ∷ []))
        then none
        else do
          sigs ← array_at (deserialize_signature) "signatures" document
          created_ts ← uint64_at "created_ts" document
          height ← uint64_at "height" document
          txs_number ← uint_at "txs_number" document
          hash ← hash_at 32 "hash" document
          prev_hash ← hash_at 32 "prev_hash" document
          merkle_root ← hash_at 32 "merkle_root" document
          transactions ← array_at (deserialize_transaction) "transactions" document
          some (record {
            hash = hash;
            sigs = sigs;
            created_ts = created_ts;
            height = height;
            prev_hash = prev_hash;
            txs_number = txs_number % 2 ^ 16;
            merkle_root = merkle_root;
            transactions = transactions;
          })

    -- The format of the block store; `print` and `parse` are rapidjson's.
    abbrev pub json_format : (Json → Blob) → (Blob → Option Json) → BlockFormat
    json_format print parse = record {
      to_bytes = λ block. print (serialize_block block);
      from_bytes = λ bytes. parse bytes >>= deserialize_block;
    }
