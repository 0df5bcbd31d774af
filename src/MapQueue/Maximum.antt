-- ===== src/MapQueue/Maximum.antt =====
-- The double-ended queue of maxima, and the key that it gives.
use iroha.Prelude.{
  ◌≡◌, refl, ℕ, ◌<◌, ◌≤◌, true, false, ◌||◌, List, [], ◌∷◌, ◌++◌, All, All-map, any, ltb, ◌==◌,
  if◌then◌else◌, arith, Bool-cases, inl, inr, ◌⊎◌,
}
use iroha.MapQueue.{pop_smaller, pop_front}

-- The elements that no later one exceeds.
unfoldable pub maxima : List ℕ → List ℕ
maxima [] = []
maxima (x ∷ xs) = let rest = maxima xs in if any (ltb x) xs then rest else x ∷ rest

any-append : (x k : ℕ) (xs : List ℕ) → any (ltb x) (xs ++ k ∷ []) ≡ (any (ltb x) xs || ltb x k)
any-append x k [] = ground arith
any-append x k (y ∷ xs) = ground (arith, any-append x k xs)

any_above : (x : ℕ) (xs : List ℕ) → any (ltb x) xs ≡ false → All (λ y. y ≤ x) xs
any_above x [] h = tt
any_above x (y ∷ xs) h = (ground arith, any_above x xs (ground arith))

any_below : (x m : ℕ) (xs : List ℕ) → any (ltb x) xs ≡ true → All (λ y. y ≤ m) xs → x < m
any_below x m [] h a = absurd (ground arith)
any_below x m (y ∷ xs) h a = elim (Bool-cases (ltb x y)) [
  | inl e ↦ ground (arith, a.0)
  | inr e ↦ any_below x m xs (ground (arith, e)) a.1
]

maxima-All : (P : ℕ → Type 0) (xs : List ℕ) → All P xs → All P (maxima xs)
unfolding maxima
maxima-All P [] h = tt
maxima-All P (x ∷ xs) h = elim (Bool-cases (any (ltb x) xs)) [
  | inl e ↦ rw e (maxima-All P xs h.1)
  | inr e ↦ rw e (h.0, maxima-All P xs h.1)
]

pop_smaller_all : (k : ℕ) (xs : List ℕ) → All (λ y. y < k) xs → pop_smaller k xs ≡ []
unfolding pop_smaller
pop_smaller_all k [] h = refl
pop_smaller_all k (x ∷ xs) h = rw (pop_smaller_all k xs h.1) (ground (arith, h.0))

pop_smaller_cons :
    (k x : ℕ) (xs : List ℕ) → ltb x k ≡ false → pop_smaller k (x ∷ xs) ≡ x ∷ pop_smaller k xs
unfolding pop_smaller
pop_smaller_cons k x xs h = ground (arith, h)

-- What `set` does to the queue of maxima.
pub maxima-append :
    (xs : List ℕ) (k : ℕ) → maxima (xs ++ k ∷ []) ≡ pop_smaller k (maxima xs) ++ k ∷ []
unfolding maxima pop_smaller
maxima-append [] k = refl
maxima-append (x ∷ xs) k = elim (Bool-cases (any (ltb x) xs)) [
  | inl a ↦ rw (any-append x k xs, a) (maxima-append xs k)
  | inr b ↦ elim (Bool-cases (ltb x k)) [
    | inl l ↦
        let small : All (λ y. y < k) xs =
          All-map (λ y. y ≤ x) (λ y. y < k) (λ y h. ground (arith, h, l)) xs (any_above x xs b) in
        let below : All (λ y. y < k) (maxima xs) = maxima-All (λ y. y < k) xs small in
        rw
          (
            any-append x k xs,
            b,
            l,
            pop_smaller_all k (x ∷ maxima xs) (ground (arith, l), below),
            maxima-append xs k,
            pop_smaller_all k (maxima xs) below,
          )
          refl
    | inr g ↦
        rw (any-append x k xs, b, g, maxima-append xs k, pop_smaller_cons k x (maxima xs) g) refl
  ]
]

-- What is at the front.
below_front : (x m : ℕ) (xs : List ℕ) → any (ltb x) xs ≡ true → All (λ y. y ≤ m) xs → x ≤ m
below_front x m xs a h = let less : x < m = any_below x m xs a h in omega (arith, less)

any_nil : (x : ℕ) (xs : List ℕ) → xs ≡ [] → any (ltb x) xs ≡ true → ⊥
any_nil x [] n a = ground arith
any_nil x (y ∷ xs) n a = ground (arith, n)

pub front :
    (xs : List ℕ)
    → ((maxima xs ≡ []) × (xs ≡ []))
      ⊎ ((m : ℕ) × (ms : List ℕ) × (maxima xs ≡ m ∷ ms)
          × (any (λ y. m == y) xs ≡ true)
          × All (λ y. y ≤ m) xs)
unfolding maxima
front [] = inl (refl, refl)
front (x ∷ xs) = elim (Bool-cases (any (ltb x) xs)) [
  | inl a ↦ elim (front xs) [
    | inl (e, n) ↦ absurd (any_nil x xs n a)
    | inr (m, ms, e, c, h) ↦ inr (m, ms, rw a e, ground (arith, c), (below_front x m xs a h, h))
  ]
  | inr b ↦ inr (x, maxima xs, rw b refl, ground arith, (omega arith, any_above x xs b))
]

-- What `pop_last` does to the queue of maxima.
pub pop_front-maxima : (x : ℕ) (xs : List ℕ) → pop_front x (maxima (x ∷ xs)) ≡ maxima xs
unfolding maxima
pop_front-maxima x xs = elim (Bool-cases (any (ltb x) xs)) [
  | inl a ↦ elim (front xs) [
    | inl (e, n) ↦ absurd (any_nil x xs n a)
    | inr (m, ms, e, c, h) ↦
        let less : x < m = any_below x m xs a h in rw (a, e) (ground (arith, less))
  ]
  | inr b ↦ rw b (ground arith)
]
