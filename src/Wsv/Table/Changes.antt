-- ===== src/Wsv/Table/Changes.antt =====
-- What the changing statements keep, and the sum of a column under them.
use iroha.Prelude.{
  ◌≡◌, refl, false, not, ◌&&◌, List, [], ◌∷◌, Option, none, some, if◌then◌else◌, is_yes, contains,
  arith, Bool-cases, inl, inr, All, ℕ, ◌+◌,
}
use iroha.Wsv.Table.{fetch, keys, has_key, HasKeys, upsert, update, delete, fetch-cons, fetch-nil}

-- The sum of a column.
unfoldable pub total {ℓ} : {A : Type ℓ} → (A → ℕ) → List A → ℕ
total w [] = 0
total w (x ∷ xs) = w x + total w xs

abbrev pub weight {ℓ} : {A : Type ℓ} → (A → ℕ) → Option A → ℕ
weight w none = 0
weight w (some x) = w x

module _ {A K : Type 0} (d : Discrete K) (key : A → K) where
  pub keys-update :
      (k : K) (f : A → A) (xs : List A)
      → ((x : A) → key (f x) ≡ key x)
      → keys d key (update d key k f xs) ≡ keys d key xs
  unfolding update
  keys-update k f [] same = refl
  keys-update k f (x ∷ xs) same = ground (arith, same x, keys-update k f xs same)

  pub update-HasKeys :
      (k : K) (f : A → A) (xs : List A)
      → ((x : A) → key (f x) ≡ key x)
      → HasKeys d key xs
      → HasKeys d key (update d key k f xs)
  update-HasKeys k f xs same h = rw (keys-update k f xs same) h

  pub update_unmatched :
      (k : K) (f : A → A) (xs : List A) → has_key d key k xs ≡ false → update d key k f xs ≡ xs
  unfolding update has_key contains
  update_unmatched k f [] h = refl
  update_unmatched k f (x ∷ xs) h = ground (arith, update_unmatched k f xs)

  -- The row of the key is changed, and no other.
  pub fetch-update :
      (k j : K) (f : A → A) (xs : List A)
      → ((x : A) → key (f x) ≡ key x)
      → HasKeys d key xs
      → fetch d key k (update d key j f xs) ≡ (
          if is_yes (d k j)
          then elim (fetch d key k xs) [ none ↦ none | some x ↦ some (f x) ]
          else fetch d key k xs)
  unfolding update
  fetch-update k j f [] same h = ground (arith, fetch-nil d key k)
  fetch-update k j f (x ∷ xs) same h = ground (
    arith,
    same x,
    fetch-cons d key k (if is_yes (d j (key x)) then f x else x) (update d key j f xs)
        (update-HasKeys j f (x ∷ xs) same h),
    fetch-cons d key k x xs h,
    fetch-update k j f xs same h.1,
  )

  pub has_key-delete :
      (k j : K) (xs : List A)
      → has_key d key k (delete d key j xs) ≡ (has_key d key k xs && not (is_yes (d k j)))
  unfolding has_key contains delete
  has_key-delete k j [] = refl
  has_key-delete k j (x ∷ xs) = ground (arith, has_key-delete k j xs)

  pub delete-HasKeys : (k : K) (xs : List A) → HasKeys d key xs → HasKeys d key (delete d key k xs)
  unfolding has_key contains delete
  delete-HasKeys k [] h = tt
  delete-HasKeys k (x ∷ xs) h = ground (arith, delete-HasKeys k xs h.1, has_key-delete (key x) k xs)

  pub All-upsert {μ} :
      (P : A → Type μ) (a : A) (xs : List A) → P a → All P xs → All P (upsert d key a xs)
  unfolding upsert
  All-upsert P a [] p h = (p, tt)
  All-upsert P a (x ∷ xs) p h = elim (Bool-cases (is_yes (d (key a) (key x)))) [
    | inl e ↦ rw (e, upsert) (p, h.1)
    | inr e ↦ rw (e, upsert) (h.0, All-upsert P a xs p h.1)
  ]

  pub All-update {μ} :
      (P : A → Type μ) (k : K) (f : A → A) (xs : List A)
      → ((x : A) → P x → P (f x))
      → All P xs
      → All P (update d key k f xs)
  unfolding update
  All-update P k f [] g h = tt
  All-update P k f (x ∷ xs) g h = elim (Bool-cases (is_yes (d k (key x)))) [
    | inl e ↦ rw (e, update) (g x h.0, All-update P k f xs g h.1)
    | inr e ↦ rw (e, update) (h.0, All-update P k f xs g h.1)
  ]

  pub All-delete {μ} : (P : A → Type μ) (k : K) (xs : List A) → All P xs → All P (delete d key k xs)
  unfolding delete
  All-delete P k [] h = tt
  All-delete P k (x ∷ xs) h = elim (Bool-cases (is_yes (d k (key x)))) [
    | inl e ↦ rw (e, delete) (All-delete P k xs h.1)
    | inr e ↦ rw (e, delete) (h.0, All-delete P k xs h.1)
  ]

  -- An upsert changes the sum by the new value less the old one of the row.
  pub total-upsert :
      (w : A → ℕ) (a : A) (xs : List A)
      → HasKeys d key xs
      → total w (upsert d key a xs) + weight w (fetch d key (key a) xs) ≡ total w xs + w a
  unfolding total upsert
  total-upsert w a [] h = rw (fetch-nil d key (key a)) (omega arith)
  total-upsert w a (x ∷ xs) h =
      ground (arith, fetch-cons d key (key a) x xs h, total-upsert w a xs h.1)
