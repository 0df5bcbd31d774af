-- ===== src/Ledger/Chain.antt =====
-- irohad/validation/impl/chain_validator_impl.cpp, with `MutableStorageImpl` of
-- irohad/ametsuchi/impl/mutable_storage_impl.cpp. What verifies a block's signatures is a
-- parameter.
pub mod Links
pub mod Stops
use iroha.Prelude.{
  ◌≡◌, ℕ, ◌+◌, ◌*◌, ◌%◌, ◌^◌, Bool, true, false, not, ◌&&◌, List, [], ◌∷◌, ◌++◌, Option, none, some,
  leb, length, if◌then◌else◌, Blob, ◌=ᵇ◌, ◌==◌,
}
use iroha.Model.Command.{Command, Transaction, Block}
use iroha.Wsv.Tables.{Wsv}
use iroha.Wsv.Query.{get_peers}
use iroha.Ledger.Execution.{also, execute}

-- `block_store_` holds the blocks that were applied, by their height, cut off to 32 bits; the first one to come stays.
pub record MutableStorage : Type 0 where
  pub wsv : Wsv
  pub top_hash : Blob
  pub block_store : List (ℕ × Block)

unfoldable pub execute_commands : List Command → Wsv → Wsv × Bool
execute_commands [] w = (w, true)
execute_commands (c ∷ cs) w = also (execute c w) (execute_commands cs)

unfoldable pub execute_transactions : List Transaction → Wsv → Wsv × Bool
unfolding execute_commands
execute_transactions [] w = (w, true)
execute_transactions (tx ∷ txs) w = also (execute_commands tx.commands w) (execute_transactions txs)

unfoldable pub apply_block : Block → Blob → Wsv → Wsv × Bool
unfolding execute_transactions
apply_block block top_hash w =
    if block.prev_hash =ᵇ top_hash then execute_transactions block.transactions w else (w, false)

-- `std::unordered_map::insert` leaves a block that is there.
unfoldable pub store : ℕ × Block → List (ℕ × Block) → List (ℕ × Block)
store b [] = b ∷ []
store b (x ∷ xs) = if b.0 == x.0 then x ∷ xs else x ∷ store b xs

unfoldable pub apply : Block → (Blob → Wsv → Wsv × Bool) → MutableStorage → MutableStorage × Bool
unfolding store
apply block function storage =
    let result = function storage.top_hash storage.wsv in
    if result.1
    then (
      record {
        wsv = result.0;
        top_hash = block.hash;
        block_store = store (block.height % 2 ^ 32, block) storage.block_store;
      },
      true,
    )
    else (storage, false)

-- `f = (all - 1) / 3.0; signs_num >= 2 * f + 1`: as `all` is at least 0, that is
-- 3 * signs_num >= 2 * all + 1. (The division by 3 is exact where the test is at its edge.)
unfoldable pub check_supermajority : Wsv → ℕ → Bool
check_supermajority w signs_num = elim (get_peers w) [
  | none ↦ false
  | some all_peers ↦ leb (2 * length all_peers + 1) (3 * signs_num)
]

module _ (verify : Block → Bool) where
  unfoldable pub validate_block : Block → MutableStorage → MutableStorage × Bool
  unfolding apply apply_block check_supermajority
  validate_block block storage =
      if check_supermajority storage.wsv (length block.sigs) && verify block
      then apply block (apply_block block) storage
      else (storage, false)

  -- `blocks.all(…)` stops at the first block that fails.
  unfoldable pub validate_chain : List Block → MutableStorage → MutableStorage × Bool
  unfolding validate_block
  validate_chain [] storage = (storage, true)
  validate_chain (block ∷ blocks) storage =
      let result = validate_block block storage in
      if result.1 then validate_chain blocks result.0 else (result.0, false)
