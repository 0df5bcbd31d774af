-- ===== src/Store/Storage/Commits.antt =====
-- What a commit keeps.
use iroha.Prelude.{
  ◌≡◌, ◌≢◌, refl, ℕ, ◌^◌, ◌<◌, true, false, List, [], ◌∷◌, none, some, Blob, ◌==◌, All, arith,
}
use iroha.Model.Command.{Block}
use iroha.Ledger.Chain.{MutableStorage}
use iroha.Store.FlatFile.{FlatFile, add, get, last_id}
use iroha.Store.FlatFile.Blocks.{get-add}
use iroha.Store.Storage.{
  BlockFormat, Storage, top_hash_of, create_mutable_storage, add_blocks, commit,
}

module _ (format : BlockFormat) where
  -- Blocks that are there stay.
  pub get-add_blocks :
      (bs : List (ℕ × Block)) (s : FlatFile) (id : ℕ) (bytes : Blob)
      → All (λ b. b.0 < 2 ^ 32) bs
      → id < 2 ^ 32
      → get id s ≡ some bytes
      → get id (add_blocks format bs s) ≡ some bytes
  unfolding add_blocks
  get-add_blocks [] s id bytes hs h e = e
  get-add_blocks (b ∷ bs) s id bytes hs h e =
      get-add_blocks bs (add b.0 (format.to_bytes b.1) s) id bytes hs.1 h
        (ground (arith, e, (get-add b.0 id (format.to_bytes b.1) s hs.0 h).0))

  top_hash_of-add :
      (block back : Block) (s : FlatFile)
      → block.height ≢ 0
      → block.height < 2 ^ 32
      → get block.height s ≡ none
      → format.from_bytes (format.to_bytes block) ≡ some back
      → back.hash ≡ block.hash
      → top_hash_of format (add block.height (format.to_bytes block) s) ≡ some block.hash
  unfolding top_hash_of get
  top_hash_of-add block back s nz h fresh e same =
      let added = get-add block.height block.height (format.to_bytes block) s h h in
      let top : last_id (add block.height (format.to_bytes block) s) ≡ block.height =
        ground (arith, fresh, added.1) in
      let found : get block.height (add block.height (format.to_bytes block) s)
          ≡ some (format.to_bytes block) =
        ground (arith, fresh, added.0) in
      let other : (block.height == 0) ≡ false = ground (arith, nz) in
      rw (top, other, found, e, same) refl

  -- After the commit of one block of a height that is not 0, fits in 32 bits and is not there yet,
  -- and that the format reads back with its hash, the next mutable storage starts from the tables that were
  -- committed and from the hash of the block.
  pub commit_continues :
      (order : List (ℕ × Block) → List (ℕ × Block)) (block back : Block) (m : MutableStorage)
      (s : Storage)
      → order ((block.height, block) ∷ []) ≡ (block.height, block) ∷ []
      → m.block_store ≡ (block.height, block) ∷ []
      → block.height ≢ 0
      → block.height < 2 ^ 32
      → get block.height s.block_store ≡ none
      → format.from_bytes (format.to_bytes block) ≡ some back
      → back.hash ≡ block.hash
      → create_mutable_storage format true (commit format order m s)
        ≡ some (record { wsv = m.wsv; top_hash = block.hash; block_store = [] })
  unfolding create_mutable_storage commit
  commit_continues order block back m s o one nz h fresh e same =
      rw (one, o, top_hash_of-add block back s.block_store nz h fresh e same) refl
