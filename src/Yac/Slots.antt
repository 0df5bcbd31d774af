-- ===== src/Yac/Slots.antt =====
-- The search that both storages make (`findStore`, `findProposalStorage`): the index of the first
-- entry that fits, a new entry at the end where none does, and a change of the entry `at(index)`.
use iroha.Prelude.{
  ◌≡◌, refl, Bool, true, List, [], ◌∷◌, ◌++◌, ℕ, some, none, Option, suc, zero, length,
  if◌then◌else◌, arith, All, Bool-cases, inl, inr,
}

module _ {ℓ} {A : Type ℓ} where
  -- The loop from index i.
  unfoldable pub index_of : (A → Bool) → ℕ → List A → Option ℕ
  index_of p i [] = none
  index_of p i (x ∷ xs) = let rest = index_of p (suc i) xs in if p x then some i else rest

  unfoldable pub find_or_push : (A → Bool) → A → List A → List A × ℕ
  unfolding index_of
  find_or_push p new xs = elim (index_of p 0 xs) [
    | some i ↦ (xs, i)
    | none ↦ (xs ++ new ∷ [], length xs)
  ]

  index_of-suc :
      (p : A → Bool) (i : ℕ) (xs : List A)
      → index_of p (suc i) xs ≡ elim (index_of p i xs) [ some j ↦ some (suc j) | none ↦ none ]
  unfolding index_of
  index_of-suc p i [] = refl
  index_of-suc p i (x ∷ xs) = ground (arith, index_of-suc p (suc i) xs)

module _ {ℓ κ} {A : Type ℓ} {R : Type κ} where
  -- A change of the entry `at(i)`, which answers `r`. Out of range `at` throws: the index of
  -- `find_or_push` never is, and the entry `[]` is never used.
  unfoldable pub modify_at : (A → A × R) → R → List A → ℕ → List A × R
  modify_at f r [] i = ([], r)
  modify_at f r (x ∷ xs) zero = let (x', q) = f x in (x' ∷ xs, q)
  modify_at f r (x ∷ xs) (suc i) = let (xs', q) = modify_at f r xs i in (x ∷ xs', q)

  -- The two together in one pass.
  unfoldable pub update_or_push : (A → Bool) → A → (A → A × R) → List A → List A × R
  update_or_push p new f [] = let (x', q) = f new in (x' ∷ [], q)
  update_or_push p new f (x ∷ xs) =
      let (x', q) = f x in
      let (xs', q') = update_or_push p new f xs in if p x then (x' ∷ xs, q) else (x ∷ xs', q')

  modify_at-push :
      (f : A → A × R) (r : R) (new : A) (xs : List A)
      → modify_at f r (xs ++ new ∷ []) (length xs) ≡ (xs ++ (f new).0 ∷ [], (f new).1)
  unfolding modify_at
  modify_at-push f r new [] = refl
  modify_at-push f r new (x ∷ xs) = ground (arith, modify_at-push f r new xs)

  -- The index that the search gives is in range, and holds the entry that fits or the new one.
  pub modify_at-find_or_push :
      (p : A → Bool) (new : A) (f : A → A × R) (r : R) (xs : List A)
      → let (ys, i) = find_or_push p new xs in modify_at f r ys i ≡ update_or_push p new f xs
  unfolding find_or_push modify_at update_or_push
  modify_at-find_or_push p new f r [] = refl
  modify_at-find_or_push p new f r (x ∷ xs) =
      ground (arith, index_of-suc p 0 xs, modify_at-find_or_push p new f r xs)

  -- What holds of all entries and of the new one, and is kept by the change of an entry that
  -- fits, holds of all entries afterwards; the answer is that of an entry that fits.
  pub update_or_push-All {μ ν} :
      (P : A → Type μ) (Q : R → Type ν) (p : A → Bool) (new : A) (f : A → A × R)
      → ((x : A) → P x → p x ≡ true → P (f x).0 × Q (f x).1)
      → P new
      → p new ≡ true
      → (xs : List A) → All P xs
      → All P (update_or_push p new f xs).0 × Q (update_or_push p new f xs).1
  unfolding update_or_push
  update_or_push-All P Q p new f keep hn fits [] h = let k = keep new hn fits in ((k.0, tt), k.1)
  update_or_push-All P Q p new f keep hn fits (x ∷ xs) h = elim (Bool-cases (p x)) [
    | inl e ↦ let k = keep x h.0 e in rw (e, update_or_push) ((k.0, h.1), k.1)
    | inr e ↦
        let r = update_or_push-All P Q p new f keep hn fits xs h.1 in
        rw (e, update_or_push) ((h.0, r.0), r.1)
  ]

  -- A change that, where its answer is one of Q, does the same when it is made again, does so
  -- through the search.
  pub update_or_push_again {ν} :
      (Q : R → Type ν) (p : A → Bool) (new : A) (f : A → A × R)
      → ((x : A) → p x ≡ true → Q (f x).1 → (p (f x).0 ≡ true) × (f (f x).0 ≡ f x))
      → p new ≡ true
      → (xs : List A) → Q (update_or_push p new f xs).1
      → update_or_push p new f (update_or_push p new f xs).0 ≡ update_or_push p new f xs
  unfolding update_or_push
  update_or_push_again Q p new f same fits [] q = ground (arith, same new fits q)
  update_or_push_again Q p new f same fits (x ∷ xs) q = elim (Bool-cases (p x)) [
    | inl e ↦
        let (k, again) = same x e (rw (e, update_or_push) at q) in
        rw (e, update_or_push) (ground arith)
    | inr e ↦
        let rest = update_or_push_again Q p new f same fits xs (rw (e, update_or_push) at q) in
        rw (e, update_or_push) (ground arith)
  ]
