-- ===== src/Prelude/Sets.antt =====
-- Duplicate-free lists over a type with decidable equality, and how many entries they can have.
use Prim.Native.Nat.{suc, ◌+◌, ◌≤◌}
use mathlib.Core.Path.{◌≡◌, refl}
use mathlib.Core.Bool.{Bool, true, false, ◌||◌}
use mathlib.Core.List.{List, [], ◌∷◌, ◌++◌}
use native.Mathlib.Omega.{arith}
use iroha.Prelude.Tests.{is_yes, if◌then◌else◌}
use iroha.Prelude.Lists.{length, length-append}

module _ {ℓ} {A : Type ℓ} (d : Discrete A) where
  unfoldable pub contains : A → List A → Bool
  contains a [] = false
  contains a (x ∷ xs) = is_yes (d a x) || contains a xs

  -- No entry is listed twice.
  abbrev pub IsDistinct : List A → Type 0
  IsDistinct [] = Unit
  IsDistinct (x ∷ xs) = (contains x xs ≡ false) × IsDistinct xs

  -- The first list is contained in the second.
  abbrev pub IsWithin : List A → List A → Type ℓ
  IsWithin xs ys = (a : A) → contains a xs ≡ true → contains a ys ≡ true

  unfoldable pub remove : A → List A → List A
  remove a [] = []
  remove a (x ∷ xs) = if is_yes (d a x) then xs else x ∷ remove a xs

  -- The entries of the first list that are in the second.
  unfoldable pub common : List A → List A → List A
  common [] ys = []
  common (x ∷ xs) ys = let rest = common xs ys in if contains x ys then x ∷ rest else rest

  -- The entries of the first list that are not in the second.
  missing : List A → List A → List A
  missing [] ys = []
  missing (x ∷ xs) ys = let rest = missing xs ys in if contains x ys then rest else x ∷ rest

  pub contains-append :
      (a : A) (xs ys : List A) → contains a (xs ++ ys) ≡ (contains a xs || contains a ys)
  unfolding contains
  contains-append a [] ys = refl
  contains-append a (x ∷ xs) ys = ground (arith, contains-append a xs ys)

  pub append-IsDistinct :
      (xs : List A) (a : A) → IsDistinct xs → contains a xs ≡ false → IsDistinct (xs ++ a ∷ [])
  unfolding contains
  append-IsDistinct [] a h n = (refl, tt)
  append-IsDistinct (x ∷ xs) a h n =
      ground (arith, contains-append x xs (a ∷ []), append-IsDistinct xs a h.1)

  length-remove :
      (a : A) (xs : List A) → contains a xs ≡ true → suc (length (remove a xs)) ≡ length xs
  unfolding contains remove
  length-remove a [] h = ground arith
  length-remove a (x ∷ xs) h = ground (arith, length-remove a xs)

  contains-remove :
      (a b : A) (xs : List A) → is_yes (d b a) ≡ false → contains b (remove a xs) ≡ contains b xs
  unfolding contains remove
  contains-remove a b [] h = refl
  contains-remove a b (x ∷ xs) h = ground (arith, contains-remove a b xs h)

  -- A duplicate-free list is no longer than a list that contains it.
  pub length-le_of_within :
      (xs ys : List A) → IsDistinct xs → IsWithin xs ys → length xs ≤ length ys
  unfolding contains
  length-le_of_within [] ys h w = omega arith
  length-le_of_within (x ∷ xs) ys h w = omega (
    arith,
    length-remove x ys (w x (ground arith)),
    length-le_of_within xs (remove x ys) h.1
        (λ a m. ground (arith, w a, contains-remove x a ys, h.0)),
  )

  length-common-missing :
      (xs ys : List A) → length (common xs ys) + length (missing xs ys) ≡ length xs
  unfolding common missing
  length-common-missing [] ys = omega arith
  length-common-missing (x ∷ xs) ys = ground (arith, length-common-missing xs ys)

  contains-missing :
      (a : A) (xs ys : List A) → contains a (missing xs ys) ≡ true → contains a xs ≡ true
  unfolding contains missing
  contains-missing a [] ys h = h
  contains-missing a (x ∷ xs) ys h = ground (arith, contains-missing a xs ys)

  contains-missing_other :
      (a : A) (xs ys : List A) → contains a (missing xs ys) ≡ true → contains a ys ≡ false
  unfolding contains missing
  contains-missing_other a [] ys h = ground arith
  contains-missing_other a (x ∷ xs) ys h = ground (arith, contains-missing_other a xs ys)

  pub contains-common :
      (a : A) (xs ys : List A)
      → contains a (common xs ys) ≡ true
      → (contains a xs ≡ true) × (contains a ys ≡ true)
  unfolding contains common
  contains-common a [] ys h = ground arith
  contains-common a (x ∷ xs) ys h = ground (arith, contains-common a xs ys)

  pub common-IsDistinct : (xs ys : List A) → IsDistinct xs → IsDistinct (common xs ys)
  unfolding contains common
  common-IsDistinct [] ys h = tt
  common-IsDistinct (x ∷ xs) ys h =
      ground (arith, common-IsDistinct xs ys h.1, contains-common x xs ys)

  missing-append-IsDistinct :
      (xs ys : List A) → IsDistinct xs → IsDistinct ys → IsDistinct (missing xs ys ++ ys)
  unfolding contains missing
  missing-append-IsDistinct [] ys h k = k
  missing-append-IsDistinct (x ∷ xs) ys h k = ground (
    arith,
    missing-append-IsDistinct xs ys h.1 k,
    contains-append x (missing xs ys) ys,
    contains-missing x xs ys,
  )

  -- Two duplicate-free lists within a third overlap by what they have too many.
  pub length-common :
      (xs ys zs : List A)
      → IsDistinct xs
      → IsDistinct ys
      → IsWithin xs zs
      → IsWithin ys zs
      → length xs + length ys ≤ length zs + length (common xs ys)
  length-common xs ys zs h k v w = omega (
    arith,
    length-common-missing xs ys,
    length-append (missing xs ys) ys,
    length-le_of_within (missing xs ys ++ ys) zs (missing-append-IsDistinct xs ys h k) (λ a m.
        ground (arith, contains-append a (missing xs ys) ys, contains-missing a xs ys, v a, w a)),
  )

  pub IsDistinct-middle :
      (xs : List A) (a : A) (ys : List A) → IsDistinct (xs ++ a ∷ ys) → contains a xs ≡ false
  unfolding contains
  IsDistinct-middle [] a ys h = refl
  IsDistinct-middle (x ∷ xs) a ys h =
      ground (arith, IsDistinct-middle xs a ys h.1, contains-append x xs (a ∷ ys))
