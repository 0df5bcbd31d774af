-- ===== src/Wsv/Table/Found.antt =====
-- What is known of a row that was fetched.
use iroha.Prelude.{◌≡◌, List, [], ◌∷◌, some, All, arith, subst}
use mathlib.Core.List.{Mem, mem-cons_self, mem-cons_of_mem}
use iroha.Wsv.Table.{single, select, fetch}

single-All :
    {A : Type 0} (P : A → Type 0) (xs : List A) (a : A) → All P xs → single xs ≡ some a → P a
single-All P [] a h e = absurd (ground arith)
single-All P (x ∷ []) a h e = let same : x ≡ a = ground arith in subst P same h.0
single-All P (x ∷ y ∷ xs) a h e = absurd (ground arith)

All-of : {A : Type 0} (P : A → Type 0) (xs : List A) → ((x : A) → Mem x xs → P x) → All P xs
All-of P [] f = tt
All-of P (x ∷ xs) f = (f x mem-cons_self, All-of P xs λ y m. f y (mem-cons_of_mem x m))

module _ {A K : Type 0} (d : Discrete K) (key : A → K) where
  select-All : (P : A → Type 0) (k : K) (xs : List A) → All P xs → All P (select d key k xs)
  unfolding select
  select-All P k [] h = tt
  select-All P k (x ∷ xs) h = ground (arith, select-All P k xs h.1)

  select_keys : (k : K) (xs : List A) → All (λ x. k ≡ key x) (select d key k xs)
  unfolding select
  select_keys k [] = tt
  select_keys k (x ∷ xs) = ground (arith, select_keys k xs)

  -- What holds of every row of a table holds of one that is fetched.
  pub fetch-All :
      (P : A → Type 0) (k : K) (xs : List A) (a : A) → All P xs → fetch d key k xs ≡ some a → P a
  unfolding fetch
  fetch-All P k xs a h e = single-All P (select d key k xs) a (select-All P k xs h) e

  -- A row that is fetched has the key.
  pub fetch-key : (k : K) (xs : List A) (a : A) → fetch d key k xs ≡ some a → k ≡ key a
  unfolding fetch
  fetch-key k xs a e = single-All (λ x. k ≡ key x) (select d key k xs) a (select_keys k xs) e

  -- A row that is fetched is one of the table.
  pub fetch-Mem : (k : K) (xs : List A) (a : A) → fetch d key k xs ≡ some a → Mem a xs
  fetch-Mem k xs a e = fetch-All (λ x. Mem x xs) k xs a (All-of (λ x. Mem x xs) xs λ x m. m) e
