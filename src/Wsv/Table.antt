-- ===== src/Wsv/Table.antt =====
-- What the SQL statements do to one table: rows in the order of insertion, told apart by a key.
pub mod Changes
pub mod Found
use iroha.Prelude.{
  ◌≡◌, refl, Bool, true, false, not, ◌||◌, List, [], ◌∷◌, ◌++◌, map, Option, none, some,
  if◌then◌else◌, is_yes, contains, IsDistinct, contains-append, append-IsDistinct, arith,
  Bool-cases, inl, inr, All, ◌⊎◌, sym, subst,
}

-- `if (result.size() != 1) return nullopt;`
abbrev pub single {ℓ} : {A : Type ℓ} → List A → Option A
single [] = none
single (x ∷ []) = some x
single (x ∷ y ∷ xs) = none

module _ {A K : Type 0} (d : Discrete K) (key : A → K) where
  -- `SELECT * … WHERE key = k`
  unfoldable pub select : K → List A → List A
  select k [] = []
  select k (x ∷ xs) = let rest = select k xs in if is_yes (d k (key x)) then x ∷ rest else rest

  unfoldable pub fetch : K → List A → Option A
  unfolding select
  fetch k rows = single (select k rows)

  abbrev pub keys : List A → List K
  keys = map key

  unfoldable pub has_key : K → List A → Bool
  unfolding contains
  has_key k rows = contains d k (keys rows)

  -- `PRIMARY KEY (key)`
  abbrev pub HasKeys : List A → Type 0
  HasKeys rows = IsDistinct d (keys rows)

  -- `INSERT … ON CONFLICT (key) DO UPDATE SET …`: the row that has the key is replaced.
  unfoldable pub upsert : A → List A → List A
  upsert a [] = a ∷ []
  upsert a (x ∷ xs) = if is_yes (d (key a) (key x)) then a ∷ xs else x ∷ upsert a xs

  -- `UPDATE … WHERE key = k`: nothing happens where no row has the key.
  unfoldable pub update : K → (A → A) → List A → List A
  update k f [] = []
  update k f (x ∷ xs) = (if is_yes (d k (key x)) then f x else x) ∷ update k f xs

  -- `DELETE FROM … WHERE key = k`
  unfoldable pub delete : K → List A → List A
  delete k [] = []
  delete k (x ∷ xs) = let rest = delete k xs in if is_yes (d k (key x)) then rest else x ∷ rest

  select-none : (k : K) (xs : List A) → has_key k xs ≡ false → select k xs ≡ []
  unfolding has_key select
  select-none k [] h = refl
  select-none k (x ∷ xs) h = ground (arith, select-none k xs)

  pub fetch-none : (k : K) (xs : List A) → has_key k xs ≡ false → fetch k xs ≡ none
  unfolding fetch
  fetch-none k xs h = ground (arith, select-none k xs h)

  pub fetch-nil : (k : K) → fetch k [] ≡ none
  unfolding fetch
  fetch-nil k = refl

  -- A row that is fetched has the key, and is in the table.
  pub fetch-has_key : (k : K) (xs : List A) (a : A) → fetch k xs ≡ some a → has_key k xs ≡ true
  unfolding fetch
  fetch-has_key k xs a e = elim (Bool-cases (has_key k xs)) [
    | inl h ↦ h
    | inr h ↦ absurd (ground (arith, select-none k xs h))
  ]

  -- With distinct keys the first row that fits is the only one.
  pub fetch-cons :
      (k : K) (x : A) (xs : List A)
      → HasKeys (x ∷ xs)
      → fetch k (x ∷ xs) ≡ (if is_yes (d k (key x)) then some x else fetch k xs)
  unfolding fetch has_key contains
  fetch-cons k x xs h = elim (Bool-cases (is_yes (d k (key x)))) [
    | inl e ↦
        let same : k ≡ key x = ground arith in
        let none_else : select k xs ≡ [] = select-none k xs (rw same h.0) in ground arith
    | inr e ↦ ground arith
  ]

  has_key-upsert :
      (k : K) (a : A) (xs : List A)
      → has_key k (upsert a xs) ≡ (is_yes (d k (key a)) || has_key k xs)
  unfolding has_key upsert
  has_key-upsert k a [] = refl
  has_key-upsert k a (x ∷ xs) = ground (arith, has_key-upsert k a xs)

  pub upsert-HasKeys : (a : A) (xs : List A) → HasKeys xs → HasKeys (upsert a xs)
  unfolding upsert has_key contains
  upsert-HasKeys a [] h = (refl, tt)
  upsert-HasKeys a (x ∷ xs) h = ground (arith, upsert-HasKeys a xs h.1, has_key-upsert (key x) a xs)

  upsert_cons-HasKeys :
      (a x : A) (xs : List A)
      → HasKeys (x ∷ xs)
      → is_yes (d (key a) (key x)) ≡ false
      → HasKeys (x ∷ upsert a xs)
  unfolding has_key contains
  upsert_cons-HasKeys a x xs h e =
      ground (arith, upsert-HasKeys a xs h.1, has_key-upsert (key x) a xs)

  pub fetch-upsert :
      (k : K) (a : A) (xs : List A)
      → HasKeys xs
      → fetch k (upsert a xs) ≡ (if is_yes (d k (key a)) then some a else fetch k xs)
  unfolding upsert contains
  fetch-upsert k a [] h = fetch-cons k a [] (refl, tt)
  fetch-upsert k a (x ∷ xs) h = elim (Bool-cases (is_yes (d (key a) (key x)))) [
    | inl e ↦
        let same : key a ≡ key x = ground arith in
        rw (e, upsert)
          (ground (
            arith,
            fetch-cons k a xs (subst (λ y. contains d y (keys xs) ≡ false) (sym same) h.0, h.1),
            fetch-cons k x xs h,
          ))
    | inr e ↦
        rw (e, upsert)
          (ground (
            arith,
            fetch-cons k x (upsert a xs) (upsert_cons-HasKeys a x xs h e),
            fetch-cons k x xs h,
            fetch-upsert k a xs h.1,
          ))
  ]

  pub has_key-append :
      (k : K) (xs : List A) (a : A)
      → has_key k (xs ++ a ∷ []) ≡ (is_yes (d k (key a)) || has_key k xs)
  unfolding has_key
  has_key-append k [] a = refl
  has_key-append k (x ∷ xs) a = ground (arith, has_key-append k xs a)

  pub append-HasKeys :
      (xs : List A) (a : A) → HasKeys xs → has_key (key a) xs ≡ false → HasKeys (xs ++ a ∷ [])
  unfolding has_key contains
  append-HasKeys [] a h n = (refl, tt)
  append-HasKeys (x ∷ xs) a h n =
      ground (arith, append-HasKeys xs a h.1, has_key-append (key x) xs a)
