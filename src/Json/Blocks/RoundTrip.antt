-- ===== src/Json/Blocks/RoundTrip.antt =====
-- A block that is written as JSON and read again.
use iroha.Prelude.{
  ◌≡◌, refl, ap, ◌∙◌, ℕ, ◌<◌, ◌^◌, List, some, Blob, length, map, map-id, All, arith,
}
use iroha.Model.Types.{Signature}
use iroha.Model.Command.{Transaction, Block}
use iroha.Ledger.Simulator.{zeros}
use iroha.Wire.Blocks.RoundTrip.{length-zeros}
use iroha.Json.{
  c_string_all, IsText, get, get_string, get_uint, get_uint64, get_array, to_values, from_values,
  from_values-to_values, verify_required_members,
}
use iroha.Json.Hex.{hex_pair}
use iroha.Json.Commands.{serialize_abstract_command}
use iroha.Json.Commands.Read.{deserialize_abstract_command}
use iroha.Json.Commands.RoundTrip.{IsWritable, IsBytes, read_hex, read-serialize}
use iroha.Json.Blocks.{
  serialize_signature, serialize_transaction, serialize_block, deserialize_signature,
  deserialize_transaction, deserialize_block,
}

pub record IsWritableSignature (s : Signature) : Type 0 where
  pub pubkey : IsBytes 32 s.pubkey
  pub signature : IsBytes 64 s.signature

pub record IsWritableTransaction (tx : Transaction) : Type 0 where
  pub signatures : All IsWritableSignature tx.signatures
  pub created_ts : tx.created_ts < 2 ^ 64
  pub creator_account_id : IsText tx.creator_account_id
  pub tx_counter : tx.tx_counter < 2 ^ 64
  pub commands : All IsWritable tx.commands

-- Fields of the sizes and widths of their types, and strings without a zero byte.
pub record IsWritableBlock (b : Block) : Type 0 where
  pub hash : IsBytes 32 b.hash
  pub sigs : All IsWritableSignature b.sigs
  pub created_ts : b.created_ts < 2 ^ 64
  pub height : b.height < 2 ^ 64
  pub prev_hash : IsBytes 32 b.prev_hash
  pub txs_number : b.txs_number < 2 ^ 16
  pub merkle_root : IsBytes 32 b.merkle_root
  pub transactions : All IsWritableTransaction b.transactions

-- The hash of a transaction is not written.
abbrev pub stored_transaction : Transaction → Transaction
stored_transaction tx = record tx { tx_hash = zeros 32 }

module _ (strtol : Blob → ℕ) (law : (n : ℕ) → n < 256 → strtol (hex_pair n) ≡ n) where
  signature_round_trip :
      (s : Signature)
      → IsWritableSignature s
      → deserialize_signature strtol (serialize_signature s) ≡ some s
  unfolding deserialize_signature serialize_signature get get_string
  signature_round_trip s h =
      rw
        (
          read_hex strtol law 32 s.pubkey (zeros 32) h.pubkey (length-zeros 32),
          read_hex strtol law 64 s.signature (zeros 64) h.signature (length-zeros 64),
        )
        refl

  signatures_round_trip :
      (signatures : List Signature)
      → All IsWritableSignature signatures
      → from_values (deserialize_signature strtol) (to_values serialize_signature signatures)
        ≡ some signatures
  signatures_round_trip signatures h =
      from_values-to_values IsWritableSignature (deserialize_signature strtol) serialize_signature
        (λ s. s) signature_round_trip signatures h
      ∙ ap some (map-id signatures)

  module _ (uninit : ℕ → Blob) (sized : (n : ℕ) → length (uninit n) ≡ n) where
    transaction_round_trip :
        (tx : Transaction)
        → IsWritableTransaction tx
        → deserialize_transaction strtol uninit (serialize_transaction tx)
          ≡ some (stored_transaction tx)
    unfolding deserialize_transaction serialize_transaction get get_string get_uint64 get_array
        verify_required_members
    transaction_round_trip tx h =
        let commands =
          from_values-to_values IsWritable (deserialize_abstract_command strtol uninit)
            serialize_abstract_command (λ c. c) (read-serialize strtol law uninit sized) tx.commands
            h.commands
          ∙ ap some (map-id tx.commands) in
        rw
          (
            signatures_round_trip tx.signatures h.signatures,
            commands,
            c_string_all tx.creator_account_id h.creator_account_id,
          )
          (ground (arith, h.created_ts, h.tx_counter))

    -- A block with fields of the sizes and widths of their types, and strings without a zero byte,
    -- is read as it was written, but for the hashes of its transactions, which are zero.
    pub deserialize-serialize_json :
        (b : Block)
        → IsWritableBlock b
        → deserialize_block strtol uninit (serialize_block b)
          ≡ some (record b { transactions = map stored_transaction b.transactions })
    unfolding deserialize_block serialize_block get get_string get_uint get_uint64 get_array
        verify_required_members
    deserialize-serialize_json b h =
        let transactions =
          from_values-to_values IsWritableTransaction (deserialize_transaction strtol uninit)
            serialize_transaction stored_transaction transaction_round_trip b.transactions
            h.transactions in
        rw
          (
            signatures_round_trip b.sigs h.sigs,
            transactions,
            read_hex strtol law 32 b.hash (zeros 32) h.hash (length-zeros 32),
            read_hex strtol law 32 b.prev_hash (zeros 32) h.prev_hash (length-zeros 32),
            read_hex strtol law 32 b.merkle_root (zeros 32) h.merkle_root (length-zeros 32),
          )
          (ground (arith, h.created_ts, h.height, h.txs_number))
