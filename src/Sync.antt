-- ===== src/Sync.antt =====
-- irohad/synchronizer/impl/synchronizer_impl.cpp. The gate of the consensus calls `process_commit`;
-- what verifies the signatures of a block, and the loader of blocks, are parameters.
pub mod Outcome
pub mod Insertion
pub mod Tests
use iroha.Prelude.{ℕ, Bool, true, false, List, [], ◌∷◌, Option, none, some, Blob, if◌then◌else◌}
use iroha.Model.Types.{Signature}
use iroha.Model.Command.{Block}
use iroha.Ledger.Chain.{MutableStorage, validate_block, validate_chain}
use iroha.Store.Storage.{BlockFormat, Storage, create_mutable_storage, commit}

module _ (format : BlockFormat) (order : List (ℕ × Block) → List (ℕ × Block)) (connected : Bool)
    (verify : Block → Bool) (request_blocks : Blob → List Block) where
  -- The loop over the signatures: the storage, and what the subscribers hear.
  unfoldable pub download : List Signature → Storage → Storage × List (List Block)
  download [] storage = (storage, [])
  download (signature ∷ signatures) storage =
      let chain = request_blocks signature.pubkey in
      let rest = download signatures storage in
      elim (create_mutable_storage format connected storage) [
        | none ↦ (storage, [])
        | some mutable_storage ↦
            let result = validate_chain verify chain mutable_storage in
            if result.1 then (commit format order result.0 storage, chain ∷ []) else rest
      ]

  unfoldable pub process_commit : Block → Storage → Storage × List (List Block)
  unfolding download
  process_commit commit_message storage = elim (create_mutable_storage format connected storage) [
    | none ↦ (storage, [])
    | some mutable_storage ↦
        let result = validate_block verify commit_message mutable_storage in
        if result.1
        then (commit format order result.0 storage, (commit_message ∷ []) ∷ [])
        else download commit_message.sigs storage
  ]
