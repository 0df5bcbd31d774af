-- ===== src/Json/Tests.antt =====
-- A block as JSON.
use iroha.Prelude.{
  ◌≡◌, ℕ, zero, suc, ◌+◌, ◌-◌, ◌*◌, ◌<◌, [], ◌∷◌, some, Blob, leb, if◌then◌else◌, map, All, arith,
}
use iroha.Ledger.Simulator.{zeros}
use iroha.Wire.Blocks.RoundTrip.{length-zeros}
use iroha.Wire.Tests.{signature, transaction, block}
use iroha.Json.Hex.{hex_digit, hex_pair}
use iroha.Json.Commands.RoundTrip.{IsBytes}
use iroha.Json.Blocks.{serialize_block, deserialize_block}
use iroha.Json.Blocks.RoundTrip.{
  IsWritableSignature, IsWritableTransaction, IsWritableBlock, stored_transaction,
  deserialize-serialize_json,
}

abbrev digit : ℕ → ℕ
digit c = if leb b'a' c then c - b'a' + 10 else c - b'0'

abbrev strtol : Blob → ℕ
strtol (a ∷ b ∷ []) = 16 * digit a + digit b
strtol _ = 0

strtol-hex_pair : (n : ℕ) → n < 256 → strtol (hex_pair n) ≡ n
unfolding hex_digit
strtol-hex_pair n h = ground arith

zeros-All : (n : ℕ) → All (λ x. x < 256) (zeros n)
unfolding zeros
zeros-All zero = tt
zeros-All (suc n) = (omega arith, zeros-All n)

zeros-IsBytes : (n : ℕ) → IsBytes n (zeros n)
zeros-IsBytes n = (length-zeros n, zeros-All n)

signature-IsWritable : IsWritableSignature signature
signature-IsWritable = record { pubkey = zeros-IsBytes 32; signature = zeros-IsBytes 64 }

transaction-IsWritable : IsWritableTransaction transaction
transaction-IsWritable = record {
  signatures = (signature-IsWritable, tt);
  created_ts = omega arith;
  creator_account_id = ground arith;
  tx_counter = omega arith;
  commands = (ground arith, ((ground arith, zeros-IsBytes 32), tt));
}

block-IsWritable : IsWritableBlock block
block-IsWritable = record {
  hash = zeros-IsBytes 32;
  sigs = (signature-IsWritable, tt);
  created_ts = omega arith;
  height = omega arith;
  prev_hash = zeros-IsBytes 32;
  txs_number = omega arith;
  merkle_root = zeros-IsBytes 32;
  transactions = (transaction-IsWritable, tt);
}

deserialize-serialize_json_example :
    deserialize_block strtol zeros (serialize_block block)
    ≡ some (record block { transactions = map stored_transaction block.transactions })
deserialize-serialize_json_example =
    deserialize-serialize_json strtol strtol-hex_pair zeros length-zeros block block-IsWritable
