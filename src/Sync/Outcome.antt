-- ===== src/Sync/Outcome.antt =====
-- What a commit of the consensus leads to.
use iroha.Prelude.{
  ◌≡◌, ◌≢◌, refl, sym, ap, subst, ◌∙◌, ℕ, ◌%◌, ◌^◌, ◌<◌, Bool, true, false, List, [], ◌∷◌, none,
  some, Blob, arith, Bool-cases, Option-cases, bind_inv, some_inj, inl, inr, ◌⊎◌,
}
use iroha.Model.Types.{Signature}
use iroha.Model.Command.{Block}
use iroha.Ledger.Chain.{MutableStorage, apply, store, validate_block, validate_chain}
use iroha.Ledger.Chain.Links.{IsChain, done, next, validate_block-IsNext, validate_chain-IsChain}
use iroha.Store.FlatFile.{get}
use iroha.Store.Storage.{BlockFormat, Storage, create_mutable_storage, commit, top_hash_of}
use iroha.Store.Storage.Commits.{commit_continues}
use iroha.Sync.{download, process_commit}

module _ (format : BlockFormat) (order : List (ℕ × Block) → List (ℕ × Block)) (connected : Bool)
    (verify : Block → Bool) (request_blocks : Blob → List Block) where
  -- The blocks that one of the peers that signed sends.
  abbrev pub IsOffered : List Signature → List Block → Type 0
  IsOffered [] blocks = ⊥
  IsOffered (signature ∷ signatures) blocks =
      (blocks ≡ request_blocks signature.pubkey) ⊎ IsOffered signatures blocks

  -- The subscribers hear of one list of blocks, which is a chain from where the storage was to where
  -- it is.
  pub record IsSynced (P : List Block → Type 0) (before after : Storage) (heard : List (List Block))
      : Type 0 where
    pub blocks : List Block
    pub origin : P blocks
    pub heard_of : heard ≡ blocks ∷ []
    pub start : MutableStorage
    pub started : create_mutable_storage format connected before ≡ some start
    pub last_hash : Blob
    pub chain : IsChain verify start.wsv start.top_hash blocks after.wsv last_hash

  abbrev pub Outcome : (List Block → Type 0) → Storage → Storage × List (List Block) → Type 0
  Outcome P before result =
      ((result.0 ≡ before) × (result.1 ≡ [])) ⊎ IsSynced P before result.0 result.1

  later :
      (signature : Signature) (signatures : List Signature) (before : Storage)
      (result : Storage × List (List Block))
      → Outcome (IsOffered signatures) before result
      → Outcome (IsOffered (signature ∷ signatures)) before result
  later signature signatures before result (inl same) = inl same
  later signature signatures before result (inr s) = inr (record {
    blocks = s.blocks;
    origin = inr s.origin;
    heard_of = s.heard_of;
    start = s.start;
    started = s.started;
    last_hash = s.last_hash;
    chain = s.chain;
  })

  commit-wsv : (m : MutableStorage) (s : Storage) → (commit format order m s).wsv ≡ m.wsv
  unfolding commit
  commit-wsv m s = refl

  abbrev run : List Signature → Storage → Storage × List (List Block)
  run = download format order connected verify request_blocks

  abbrev downloaded : Signature → MutableStorage → MutableStorage × Bool
  downloaded signature m = validate_chain verify (request_blocks signature.pubkey) m

  download-none :
      (signature : Signature) (signatures : List Signature) (before : Storage)
      → create_mutable_storage format connected before ≡ none
      → run (signature ∷ signatures) before ≡ (before, [])
  unfolding download
  download-none signature signatures before n = rw (n, download) refl

  download-valid :
      (signature : Signature) (signatures : List Signature) (before : Storage) (m : MutableStorage)
      → create_mutable_storage format connected before ≡ some m
      → (downloaded signature m).1 ≡ true
      → run (signature ∷ signatures) before ≡ (
        commit format order (downloaded signature m).0 before,
        request_blocks signature.pubkey ∷ [],
      )
  unfolding download
  download-valid signature signatures before m e v = rw (e, v, download) refl

  download-later :
      (signature : Signature) (signatures : List Signature) (before : Storage) (m : MutableStorage)
      → create_mutable_storage format connected before ≡ some m
      → (downloaded signature m).1 ≡ false
      → run (signature ∷ signatures) before ≡ run signatures before
  unfolding download
  download-later signature signatures before m e v = rw (e, v, download) refl

  download-Outcome :
      (signatures : List Signature) (before : Storage)
      → Outcome (IsOffered signatures) before (run signatures before)
  unfolding download commit
  download-Outcome [] before = inl (refl, refl)
  download-Outcome (signature ∷ signatures) before =
      let P = Outcome (IsOffered (signature ∷ signatures)) before in
      elim (Option-cases (create_mutable_storage format connected before)) [
        | inl n ↦ subst P (sym (download-none signature signatures before n)) (inl (refl, refl))
        | inr (m, e) ↦ elim (Bool-cases (downloaded signature m).1) [
          | inl v ↦ subst P (sym (download-valid signature signatures before m e v)) (
              inr (record {
                blocks = request_blocks signature.pubkey;
                origin = inl refl;
                heard_of = refl;
                start = m;
                started = e;
                last_hash = (downloaded signature m).0.top_hash;
                chain = validate_chain-IsChain verify (request_blocks signature.pubkey) m v;
              }))
          | inr v ↦ subst P (sym (download-later signature signatures before m e v)) (
              later signature signatures before (run signatures before)
                (download-Outcome signatures before))
        ]
      ]

  abbrev process : Block → Storage → Storage × List (List Block)
  process = process_commit format order connected verify request_blocks

  process-none :
      (block : Block) (before : Storage)
      → create_mutable_storage format connected before ≡ none
      → process block before ≡ (before, [])
  unfolding process_commit
  process-none block before n = rw (n, process_commit) refl

  process-valid :
      (block : Block) (before : Storage) (m : MutableStorage)
      → create_mutable_storage format connected before ≡ some m
      → (validate_block verify block m).1 ≡ true
      → process block before
        ≡ (commit format order (validate_block verify block m).0 before, (block ∷ []) ∷ [])
  unfolding process_commit
  process-valid block before m e v = rw (e, v, process_commit) refl

  process-refused :
      (block : Block) (before : Storage) (m : MutableStorage)
      → create_mutable_storage format connected before ≡ some m
      → (validate_block verify block m).1 ≡ false
      → process block before ≡ run block.sigs before
  unfolding process_commit
  process-refused block before m e v = rw (e, v, process_commit) refl

  abbrev pub IsOrigin : Block → List Block → Type 0
  IsOrigin block blocks = (blocks ≡ block ∷ []) ⊎ IsOffered block.sigs blocks

  offered :
      (block : Block) (before : Storage) (result : Storage × List (List Block))
      → Outcome (IsOffered block.sigs) before result
      → Outcome (IsOrigin block) before result
  offered block before result (inl same) = inl same
  offered block before result (inr s) = inr (record {
    blocks = s.blocks;
    origin = inr s.origin;
    heard_of = s.heard_of;
    start = s.start;
    started = s.started;
    last_hash = s.last_hash;
    chain = s.chain;
  })

  -- Whatever block the consensus commits and whatever the peers send: either the storage stays as
  -- it is and the subscribers hear nothing, or they hear once, of the block alone or of what one of
  -- its signatories sent, and these blocks are a chain from the tables and top hash of the storage
  -- before to the tables after.
  pub process_commit-Outcome :
      (block : Block) (before : Storage)
      → Outcome
          (IsOrigin block)
          before
          (process_commit format order connected verify request_blocks block before)
  unfolding commit
  process_commit-Outcome block before =
      let P = Outcome (IsOrigin block) before in
      elim (Option-cases (create_mutable_storage format connected before)) [
        | inl n ↦ subst P (sym (process-none block before n)) (inl (refl, refl))
        | inr (m, e) ↦ elim (Bool-cases (validate_block verify block m).1) [
          | inl v ↦
              let s = (validate_block verify block m).0 in
              let n = validate_block-IsNext verify block m s (ap (λ b. (s, b)) v) in
              subst P (sym (process-valid block before m e v)) (
                inr (record {
                  blocks = block ∷ [];
                  origin = inl refl;
                  heard_of = refl;
                  start = m;
                  started = e;
                  last_hash = block.hash;
                  chain = next block n.0 (done s.wsv block.hash);
                }))
          | inr v ↦
              subst P (sym (process-refused block before m e v))
                (offered block before (run block.sigs before) (download-Outcome block.sigs before))
        ]
      ]

  stored_alone :
      (block : Block) (m : MutableStorage)
      → m.block_store ≡ []
      → block.height < 2 ^ 32
      → (validate_block verify block m).1 ≡ true
      → (validate_block verify block m).0.block_store ≡ (block.height, block) ∷ []
  unfolding validate_block apply store
  stored_alone block m e h v =
      let number : block.height % 2 ^ 32 ≡ block.height = ground (arith, h) in
      let stored : store (block.height % 2 ^ 32, block) m.block_store ≡ (block.height, block) ∷ [] =
        rw (e, number) refl in
      ground (arith, stored, v)

  create-block_store :
      (s : Storage) (m : MutableStorage)
      → create_mutable_storage format connected s ≡ some m
      → m.block_store ≡ []
  unfolding create_mutable_storage
  create-block_store s m e = elim (Bool-cases connected) [
    | inl c ↦
        let start =
          bind_inv (top_hash_of format s.block_store) _ m (rw (c, create_mutable_storage) at e) in
        subst (λ (x : MutableStorage). x.block_store ≡ []) (some_inj _ m start.1.1) refl
    | inr c ↦ absurd (ground (arith, c))
  ]

  -- A block that the chain validator accepts on the storage, of a height that is not 0, fits in 32
  -- bits and is not there yet, and that the format reads back with its hash: the subscribers hear of it, and the
  -- next mutable storage starts from the tables after the block and from its hash.
  pub process_commit_continues :
      (block back : Block) (before : Storage) (m : MutableStorage)
      → order ((block.height, block) ∷ []) ≡ (block.height, block) ∷ []
      → connected ≡ true
      → create_mutable_storage format connected before ≡ some m
      → (validate_block verify block m).1 ≡ true
      → block.height ≢ 0
      → block.height < 2 ^ 32
      → get block.height before.block_store ≡ none
      → format.from_bytes (format.to_bytes block) ≡ some back
      → back.hash ≡ block.hash
      → ((process_commit format order connected verify request_blocks block before).1
          ≡ (block ∷ []) ∷ [])
        × (create_mutable_storage format connected
              (process_commit format order connected verify request_blocks block before).0
            ≡ some (record {
              wsv = (validate_block verify block m).0.wsv;
              top_hash = block.hash;
              block_store = [];
            }))
  process_commit_continues block back before m one c e v nz h fresh read same =
      let after : Storage × List (List Block) =
        (commit format order (validate_block verify block m).0 before, (block ∷ []) ∷ []) in
      let heard = process-valid block before m e v in
      let stored = stored_alone block m (create-block_store before m e) h v in
      let continues =
        commit_continues format order block back (validate_block verify block m).0 before one stored
          nz h fresh read same in
      (
        ap (λ r. r.1) heard,
        ap (λ r. create_mutable_storage format connected r.0) heard
            ∙ ap (λ b. create_mutable_storage format b after.0) c
            ∙ continues,
      )
