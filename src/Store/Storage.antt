-- ===== src/Store/Storage.antt =====
-- irohad/ametsuchi/impl/storage_impl.cpp. The connections to PostgreSQL and Redis, the range of
-- rxcpp and the order in which a `std::unordered_map` is walked are parameters; the converters of
-- blocks stand behind `BlockFormat`.
pub mod Commits
use iroha.Prelude.{
  ◌≡◌, ℕ, zero, suc, ◌%◌, ◌^◌, Bool, true, false, not, List, [], ◌∷◌, ◌++◌, Option, none, some,
  Blob, ◌=ᵇ◌, ◌==◌, ltb, if◌then◌else◌, ◌>>=◌, traverse, map,
}
use iroha.Model.Command.{Transaction, Block}
use iroha.Wsv.Tables.{Wsv}
use iroha.Ledger.Chain.{MutableStorage}
use iroha.Ledger.Simulator.{zeros}
use iroha.Store.FlatFile.{FlatFile, add, get, last_id}

-- `jsonToVector(serializer_.serialize(block))`, and `vectorToJson` with `serializer_.deserialize`.
pub record BlockFormat : Type 0 where
  pub to_bytes : Block → Blob
  pub from_bytes : Blob → Option Block

-- The block store and the tables that are committed.
pub record Storage : Type 0 where
  pub block_store : FlatFile
  pub wsv : Wsv

unfoldable pub concat_transactions : List Block → List Transaction
concat_transactions [] = []
concat_transactions (block ∷ blocks) = block.transactions ++ concat_transactions blocks

unfoldable pub filter_creator : Blob → List Transaction → List Transaction
filter_creator account_id [] = []
filter_creator account_id (tx ∷ txs) =
    let rest = filter_creator account_id txs in
    if tx.creator_account_id =ᵇ account_id then tx ∷ rest else rest

module _ (format : BlockFormat) where
  -- `none` is the null pointer.
  unfoldable pub top_hash_of : FlatFile → Option Blob
  top_hash_of block_store = if last_id block_store == 0 then some (zeros 32) else do
    blob ← get (last_id block_store) block_store
    block ← format.from_bytes blob
    some block.hash

  unfoldable pub create_mutable_storage : Bool → Storage → Option MutableStorage
  create_mutable_storage connected storage = if not connected then none else do
    top_hash ← top_hash_of storage.block_store
    some (record { wsv = storage.wsv; top_hash = top_hash; block_store = [] })

  unfoldable pub add_blocks : List (ℕ × Block) → FlatFile → FlatFile
  add_blocks [] block_store = block_store
  add_blocks (b ∷ bs) block_store = add_blocks bs (add b.0 (format.to_bytes b.1) block_store)

  -- `order`: the entries in the order of the walk.
  unfoldable pub commit : (List (ℕ × Block) → List (ℕ × Block)) → MutableStorage → Storage → Storage
  unfolding add_blocks
  commit order mutable_storage storage = record {
    block_store = add_blocks (order mutable_storage.block_store) storage.block_store;
    wsv = mutable_storage.wsv;
  }

  module _ (range : ℕ → ℕ → List ℕ) where
    -- `none`: the value of an optional that has none is taken, which throws.
    unfoldable pub get_blocks : ℕ → ℕ → Storage → Option (List Block)
    get_blocks from to storage =
        let last = last_id storage.block_store in
        traverse (λ i. do bytes ← get i storage.block_store; format.from_bytes bytes)
          (range from (if ltb last to then last else to))

    unfoldable pub get_account_transactions : Blob → Storage → Option (List Transaction)
    unfolding get_blocks concat_transactions filter_creator
    get_account_transactions account_id storage = do
      blocks ← get_blocks 1 (last_id storage.block_store) storage
      some (filter_creator account_id (concat_transactions blocks))
