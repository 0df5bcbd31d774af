-- ===== src/Ledger/Chain/Stops.antt =====
-- What the chain validator does up to the first block that it refuses.
use iroha.Prelude.{
  ◌≡◌, refl, Bool, true, false, List, [], ◌∷◌, ◌++◌, Bool-cases, inl, inr, ap, subst, arith, Blob,
}
use iroha.Model.Command.{Block}
use iroha.Wsv.Tables.{Wsv}
use iroha.Ledger.Chain.{MutableStorage, validate_block, validate_chain}
use iroha.Ledger.Chain.Links.{
  IsNext, IsChain, done, next, validate_block-IsNext, IsNext-validate_block, validate_block-refused,
}

module _ (verify : Block → Bool) where
  -- The blocks after a block that was accepted.
  IsChain-cons :
      (block : Block) (blocks : List Block) (s : MutableStorage) (w' : Wsv) (last_hash : Blob)
      → (validate_block verify block s).1 ≡ true
      → IsChain verify
          (validate_block verify block s).0.wsv
          (validate_block verify block s).0.top_hash
          blocks
          w'
          last_hash
      → IsChain verify s.wsv s.top_hash (block ∷ blocks) w' last_hash
  IsChain-cons block blocks s w' last_hash h c =
      let s₁ : MutableStorage = (validate_block verify block s).0 in
      let first = validate_block-IsNext verify block s s₁ (ap (λ b. (s₁, b)) h) in
      next block first.0 (subst (λ t. IsChain verify s₁.wsv t blocks w' last_hash) first.1 c)

  -- What is left where the validator stops: no block, or a block first that cannot come next.
  pub Stops : MutableStorage → List Block → Bool → Type 0
  Stops t [] accepted = accepted ≡ true
  Stops t (block ∷ blocks) accepted =
      (accepted ≡ false) × ((w' : Wsv) → ¬ IsNext verify t.wsv t.top_hash block w')

  -- The chain validator takes the blocks that form a chain from the tables and the top hash of the
  -- storage, up to the first one that cannot come next, and no further: the storage then has the
  -- tables and the top hash that the blocks before it lead to, and what that block did is undone.
  -- It returns true exactly if no block is left.
  pub validate_chain-Stops :
      (blocks : List Block) (s : MutableStorage)
      → let (t, accepted) = validate_chain verify blocks s in
        (before : List Block) × (after : List Block) × (blocks ≡ before ++ after)
        × IsChain verify s.wsv s.top_hash before t.wsv t.top_hash
        × Stops t after accepted
  unfolding validate_chain Stops
  validate_chain-Stops [] s = ([], [], refl, done s.wsv s.top_hash, refl)
  validate_chain-Stops (block ∷ blocks) s =
      let s₁ : MutableStorage = (validate_block verify block s).0 in
      elim (Bool-cases (validate_block verify block s).1) [
        | inl h ↦
            let (before, after, split, c, stop) = validate_chain-Stops blocks s₁ in
            rw h (
              block ∷ before,
              after,
              ap (λ l. block ∷ l) split,
              IsChain-cons block before s _ _ h c,
              stop,
            )
        | inr h ↦
            rw (h, validate_block-refused verify block s h)
              (
                [],
                block ∷ blocks,
                refl,
                done s.wsv s.top_hash,
                (
                  refl,
                  λ w' n. absurd (ground (arith, h, (IsNext-validate_block verify block s w' n).0)),
                ),
              )
      ]
