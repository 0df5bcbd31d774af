-- ===== src/Prelude/Options.antt =====
-- Chains of steps that may have no result.
use mathlib.Core.Path.{◌≡◌, refl, ap}
use mathlib.Core.Option.{Option, none, some}
use mathlib.Core.List.{List, [], ◌∷◌, map}
use native.Mathlib.Omega.{arith}
use iroha.Prelude.Lists.{All}

infixl 5 ◌>>=◌
abbrev pub ◌>>=◌ {ℓ κ} : {A : Type ℓ} {B : Type κ} → Option A → (A → Option B) → Option B
none >>= f = none
some a >>= f = f a

-- A chain that has a result has one at its first step.
pub bind_inv {ℓ κ} :
    {A : Type ℓ} {B : Type κ} (o : Option A) (f : A → Option B) (b : B)
    → (o >>= f) ≡ some b
    → (a : A) × ((o ≡ some a) × (f a ≡ some b))
bind_inv none f b e = absurd (ground (arith, e))
bind_inv (some a) f b e = (a, (refl, e))

pub some_inj {ℓ} : {A : Type ℓ} (a b : A) → some a ≡ some b → a ≡ b
some_inj a b e = ap (λ o. elim o [ none ↦ a | some x ↦ x ]) e

-- A loop that pushes back the result for each element.
unfoldable pub traverse {ℓ κ} :
    {A : Type ℓ} {B : Type κ} → (A → Option B) → List A → Option (List B)
traverse f [] = some []
traverse f (x ∷ xs) = do y ← f x; ys ← traverse f xs; some (y ∷ ys)

-- What was written element by element is read back element by element.
pub traverse-map {ℓ κ μ} :
    {A : Type ℓ} {B : Type κ} {C : Type μ} (P : A → Type μ) (f : B → Option C) (g : A → B)
    (h : A → C)
    → ((a : A) → P a → f (g a) ≡ some (h a))
    → (xs : List A) → All P xs
    → traverse f (map g xs) ≡ some (map h xs)
unfolding traverse
traverse-map P f g h e [] p = refl
traverse-map P f g h e (x ∷ xs) p = rw (e x p.0, traverse-map P f g h e xs p.1) refl

pub traverse-some :
    {A : Type 0} (xs : List A) → traverse (λ (c : Option A). c) (map some xs) ≡ some xs
unfolding traverse
traverse-some [] = refl
traverse-some (x ∷ xs) = rw (traverse-some xs) refl
