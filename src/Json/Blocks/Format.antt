-- ===== src/Json/Blocks/Format.antt =====
-- The format of the block store, as the storage uses it.
use iroha.Prelude.{◌≡◌, refl, ℕ, ◌<◌, map, Option, some, Blob, length}
use iroha.Model.Command.{Block}
use iroha.Json.{Json}
use iroha.Json.Hex.{hex_pair}
use iroha.Json.Blocks.{serialize_block, json_format}
use iroha.Json.Blocks.RoundTrip.{IsWritableBlock, stored_transaction, deserialize-serialize_json}

-- If rapidjson parses what it printed, a block with fields of the sizes and widths of their types,
-- and strings without a zero byte, comes out of its bytes, with its hash.
pub json_format-reads :
    (strtol : Blob → ℕ)
    → ((n : ℕ) → n < 256 → strtol (hex_pair n) ≡ n)
    → (uninit : ℕ → Blob) → ((n : ℕ) → length (uninit n) ≡ n)
    → (print : Json → Blob) (parse : Blob → Option Json) (b : Block)
    → parse (print (serialize_block b)) ≡ some (serialize_block b)
    → IsWritableBlock b
    → (back : Block) × (((json_format strtol uninit print parse).from_bytes
            ((json_format strtol uninit print parse).to_bytes b)
          ≡ some back)
        × (back.hash ≡ b.hash))
json_format-reads strtol law uninit sized print parse b e h = (
  record b { transactions = map stored_transaction b.transactions },
  (rw (e, deserialize-serialize_json strtol law uninit sized b h) refl, refl),
)
