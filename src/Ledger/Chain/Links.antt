-- ===== src/Ledger/Chain/Links.antt =====
-- What the chain validator accepts, as a relation.
use iroha.Prelude.{
  ◌≡◌, refl, ℕ, ◌+◌, ◌*◌, ◌<◌, ◌≤◌, ◌^◌, Bool, true, false, List, [], ◌∷◌, arith, Bool-cases, inl,
  inr, ap, sym, length, Blob, ◌↔◌, subst,
}
use iroha.Model.Command.{Block}
use iroha.Wsv.Tables.{Wsv}
use iroha.Wsv.Query.{get_peers}
use iroha.Ledger.Chain.{
  MutableStorage, execute_transactions, apply_block, apply, check_supermajority, validate_block,
  validate_chain,
}
use iroha.Yac.Supermajority.{has_supermajority, has_supermajority_iff}

module _ (verify : Block → Bool) where
  -- A block that the tables and the top hash of a ledger allow, and the tables after it.
  pub record IsNext (w : Wsv) (top_hash : Blob) (block : Block) (w' : Wsv) : Type 0 where
    pub supermajority : 2 * length w.peer + 1 ≤ 3 * length block.sigs
    pub signed : verify block ≡ true
    pub linked : block.prev_hash ≡ top_hash
    pub executed : execute_transactions block.transactions w ≡ (w', true)

  -- Blocks that follow one another, with the tables and the top hash at both ends.
  pub data IsChain : Wsv → Blob → List Block → Wsv → Blob → Type 0 where
    done : (w : Wsv) (top_hash : Blob) → IsChain w top_hash [] w top_hash
    next :
        {w w₁ w' : Wsv} {top_hash last_hash : Blob} (block : Block) {blocks : List Block}
        → IsNext w top_hash block w₁
        → IsChain w₁ block.hash blocks w' last_hash
        → IsChain w top_hash (block ∷ blocks) w' last_hash

  pub validate_block-IsNext :
      (block : Block) (s s' : MutableStorage)
      → validate_block verify block s ≡ (s', true)
      → IsNext s.wsv s.top_hash block s'.wsv × (s'.top_hash ≡ block.hash)
  unfolding validate_block apply apply_block check_supermajority get_peers
  validate_block-IsNext block s s' e = (
    record {
      supermajority = ground arith;
      signed = ground arith;
      linked = ground arith;
      executed = ground arith;
    },
    ground arith,
  )

  pub IsNext-validate_block :
      (block : Block) (s : MutableStorage) (w' : Wsv)
      → IsNext s.wsv s.top_hash block w'
      → ((validate_block verify block s).1 ≡ true)
        × ((validate_block verify block s).0.wsv ≡ w')
        × ((validate_block verify block s).0.top_hash ≡ block.hash)
  unfolding validate_block apply apply_block check_supermajority get_peers
  IsNext-validate_block block s w' n =
      ground (arith, n.supermajority, n.signed, n.linked, n.executed)

  -- A block that is refused leaves the storage as it is.
  pub validate_block-refused :
      (block : Block) (s : MutableStorage)
      → (validate_block verify block s).1 ≡ false
      → (validate_block verify block s).0 ≡ s
  unfolding validate_block apply
  validate_block-refused block s e = ground arith

  pub validate_chain-IsChain :
      (blocks : List Block) (s : MutableStorage)
      → (validate_chain verify blocks s).1 ≡ true
      → IsChain s.wsv s.top_hash blocks
          (validate_chain verify blocks s).0.wsv
          (validate_chain verify blocks s).0.top_hash
  unfolding validate_chain
  validate_chain-IsChain [] s e = done s.wsv s.top_hash
  validate_chain-IsChain (block ∷ blocks) s e =
      elim (Bool-cases (validate_block verify block s).1) [
        | inl h ↦
            let s₁ : MutableStorage = (validate_block verify block s).0 in
            let first = validate_block-IsNext block s s₁ (ap (λ b. (s₁, b)) h) in
            let rest = validate_chain-IsChain blocks s₁ (ground arith) in
            let linked : IsChain s₁.wsv block.hash blocks (validate_chain verify blocks s₁).0.wsv
                (validate_chain verify blocks s₁).0.top_hash =
              subst
                (λ t.
                  IsChain s₁.wsv t blocks (validate_chain verify blocks s₁).0.wsv
                    (validate_chain verify blocks s₁).0.top_hash)
                first.1 rest in
            rw h (next block first.0 linked)
        | inr h ↦ absurd (ground arith)
      ]

  pub IsChain-validate_chain :
      (blocks : List Block) (s : MutableStorage) (w' : Wsv) (last_hash : Blob)
      → IsChain s.wsv s.top_hash blocks w' last_hash
      → ((validate_chain verify blocks s).1 ≡ true)
        × ((validate_chain verify blocks s).0.wsv ≡ w')
        × ((validate_chain verify blocks s).0.top_hash ≡ last_hash)
  unfolding validate_chain
  IsChain-validate_chain [] s w' last_hash (done _ _) = (refl, refl, refl)
  IsChain-validate_chain (block ∷ blocks) s w' last_hash (next {w₁} _ n c) =
      let s₁ : MutableStorage = (validate_block verify block s).0 in
      let first = IsNext-validate_block block s w₁ n in
      let tables : IsChain s₁.wsv block.hash blocks w' last_hash =
        subst (λ v. IsChain v block.hash blocks w' last_hash) (sym first.1) c in
      let linked : IsChain s₁.wsv s₁.top_hash blocks w' last_hash =
        subst (λ t. IsChain s₁.wsv t blocks w' last_hash) (sym first.2) tables in
      rw first.0 (IsChain-validate_chain blocks s₁ w' last_hash linked)

  -- The chain validator returns true on a list of blocks exactly if they form a chain from the
  -- ledger's tables and top hash, where each block has enough signatures for the peers at its
  -- place, a verified signature, the hash of the one before it, and commands that all succeed.
  pub validate_chain_iff :
      (blocks : List Block) (s : MutableStorage)
      → ((validate_chain verify blocks s).1 ≡ true)
        ↔ ((w' : Wsv) × (last_hash : Blob) × IsChain s.wsv s.top_hash blocks w' last_hash)
  validate_chain_iff blocks s = (
    λ e. (_, _, validate_chain-IsChain blocks s e),
    λ c. (IsChain-validate_chain blocks s c.0 c.1 c.2).0,
  )

-- A number of votes that is a supermajority for the consensus, where there is a peer and fewer
-- than 2^64, is one for the chain validator.
pub check_supermajority_of_votes :
    (w : Wsv) (votes : ℕ)
    → 0 < length w.peer
    → length w.peer < 2 ^ 64
    → has_supermajority votes (length w.peer) ≡ true
    → check_supermajority w votes ≡ true
unfolding check_supermajority get_peers
check_supermajority_of_votes w votes some_peer few h =
    let bounds = (has_supermajority_iff votes (length w.peer) some_peer few).0 h in
    ground (arith, bounds.0, bounds.1)
