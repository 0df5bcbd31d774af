-- ===== src/Sync/Insertion.antt =====
-- `applyToLedger` of irohad/main/impl/raw_block_insertion.cpp: blocks go in without validation.
use iroha.Prelude.{ℕ, Bool, List, [], ◌∷◌, Option, some, ◌>>=◌}
use iroha.Model.Command.{Block}
use iroha.Ledger.Chain.{MutableStorage, apply, execute_transactions}
use iroha.Store.Storage.{BlockFormat, Storage, create_mutable_storage, commit}

-- A block whose commands fail is left out, and the loop goes on.
unfoldable pub apply_blocks : List Block → MutableStorage → MutableStorage
unfolding apply execute_transactions
apply_blocks [] storage = storage
apply_blocks (block ∷ blocks) storage =
    apply_blocks blocks
      (apply block (λ top_hash w. execute_transactions block.transactions w) storage).0

-- The storage is used without a test: a null pointer is `none`.
unfoldable pub apply_to_ledger :
    BlockFormat
    → (List (ℕ × Block) → List (ℕ × Block))
    → Bool
    → List Block
    → Storage
    → Option Storage
unfolding create_mutable_storage apply_blocks commit
apply_to_ledger format order connected blocks storage = do
  mutable_storage ← create_mutable_storage format connected storage
  some (commit format order (apply_blocks blocks mutable_storage) storage)
