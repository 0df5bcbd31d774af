-- ===== src/MapQueue/Runs.antt =====
-- Any calls of the queue, and the key that it gives then.
use iroha.Prelude.{
  ◌≡◌, refl, ap, ◌∙◌, ℕ, zero, suc, ◌≤◌, true, List, [], ◌∷◌, ◌++◌, map, none, some, All, any, ltb,
  ◌==◌, is_some, length, arith, Bool-cases, inl, inr, ◌⊎◌,
}
use iroha.MapQueue.{
  MapQueue, create, find, erase, pop_last, pop_over, set_cache_size, set, get_max_key, clear,
}
use iroha.MapQueue.Maximum.{maxima, maxima-append, front, pop_front-maxima}

-- `set`, `set_cache_size` and `clear`.
pub data Call (V : Type 0) : Type 0 where
  call_set : ℕ → V → Call V
  call_set_cache_size : ℕ → Call V
  call_clear : Call V

All_any : (k m : ℕ) (xs : List ℕ) → All (λ y. y ≤ m) xs → any (λ y. k == y) xs ≡ true → k ≤ m
All_any k m [] h e = absurd (ground (arith, e))
All_any k m (x ∷ xs) h e = elim (Bool-cases (k == x)) [
  | inl s ↦ ground (arith, s, h.0)
  | inr s ↦ All_any k m xs h.1 (ground (arith, s, e))
]

abbrev tail : List ℕ → List ℕ
tail [] = []
tail (x ∷ xs) = xs

module _ {V : Type 0} where
  abbrev pub keys : List (ℕ × V) → List ℕ
  keys es = map (λ e. e.0) es

  -- The entries are those of the cache, in its order, and the other queue is that of the maxima.
  pub record IsValid (q : MapQueue V) : Type 0 where
    pub same_keys : keys q.entries ≡ q.cache
    pub maxima_of : q.max_cache ≡ maxima q.cache

  unfoldable pub step : Call V → MapQueue V → MapQueue V
  step (call_set k v) q = set k v q
  step (call_set_cache_size n) q = set_cache_size n q
  step call_clear q = clear q

  unfoldable pub run : List (Call V) → MapQueue V → MapQueue V
  unfolding step
  run [] q = q
  run (c ∷ cs) q = run cs (step c q)

  keys-append : (es : List (ℕ × V)) (k : ℕ) (v : V) → keys (es ++ (k, v) ∷ []) ≡ keys es ++ k ∷ []
  keys-append [] k v = refl
  keys-append (e ∷ es) k v = ap (λ l. e.0 ∷ l) (keys-append es k v)

  set-IsValid : (k : ℕ) (v : V) (q : MapQueue V) → IsValid q → IsValid (set k v q)
  unfolding set
  set-IsValid k v q h = elim (Bool-cases (is_some (find k q.entries))) [
    | inl e ↦ rw e h
    | inr e ↦ rw e (record {
      same_keys = rw (keys-append q.entries k v, h.same_keys) refl;
      maxima_of = rw (h.maxima_of, maxima-append q.cache k) refl;
    })
  ]

  pop_last_of :
      (n : ℕ) (es : List (ℕ × V)) (cache max_cache : List ℕ)
      → keys es ≡ cache
      → max_cache ≡ maxima cache
      → IsValid (
          pop_last
            (record { max_cache_size = n; entries = es; max_cache = max_cache; cache = cache }))
  unfolding pop_last erase
  pop_last_of n [] cache max_cache h m = record { same_keys = h; maxima_of = m }
  pop_last_of n (e ∷ es) [] max_cache h m = absurd (ground (arith, h))
  pop_last_of n (e ∷ es) (k ∷ cache) max_cache h m =
      let same : k ≡ e.0 = ground (arith, h) in
      let rest : keys es ≡ cache = ap tail h in
      record {
        same_keys = rw same (ground (arith, rest));
        maxima_of = rw m (pop_front-maxima k cache);
      }

  pop_last-IsValid : (q : MapQueue V) → IsValid q → IsValid (pop_last q)
  pop_last-IsValid q h =
      pop_last_of q.max_cache_size q.entries q.cache q.max_cache h.same_keys h.maxima_of

  pop_over-IsValid : (fuel : ℕ) (q : MapQueue V) → IsValid q → IsValid (pop_over fuel q)
  unfolding pop_over
  pop_over-IsValid zero q h = h
  pop_over-IsValid (suc fuel) q h = elim (Bool-cases (ltb q.max_cache_size (length q.entries))) [
    | inl e ↦ rw e (pop_over-IsValid fuel (pop_last q) (pop_last-IsValid q h))
    | inr e ↦ rw e h
  ]

  step-IsValid : (c : Call V) (q : MapQueue V) → IsValid q → IsValid (step c q)
  unfolding step set_cache_size maxima
  step-IsValid (call_set k v) q h = set-IsValid k v q h
  step-IsValid (call_set_cache_size n) q h =
      pop_over-IsValid (length q.entries) _
        (record { same_keys = h.same_keys; maxima_of = h.maxima_of })
  step-IsValid call_clear q h = record { same_keys = refl; maxima_of = refl }

  run-IsValid : (cs : List (Call V)) (q : MapQueue V) → IsValid q → IsValid (run cs q)
  unfolding run
  run-IsValid [] q h = h
  run-IsValid (c ∷ cs) q h = run-IsValid cs (step c q) (step-IsValid c q h)

  find-any : (k : ℕ) (es : List (ℕ × V)) → is_some (find k es) ≡ any (λ y. k == y) (keys es)
  unfolding find
  find-any k [] = refl
  find-any k (e ∷ es) = ground (arith, find-any k es)

  keys_nil : (es : List (ℕ × V)) → keys es ≡ [] → es ≡ []
  keys_nil [] h = refl
  keys_nil (e ∷ es) h = absurd (ground (arith, h))

  max_of_valid :
      (q : MapQueue V)
      → IsValid q
      → ((get_max_key q ≡ none) × (q.entries ≡ []))
        ⊎ ((m : ℕ) × ((get_max_key q ≡ some m)
              × (is_some (find m q.entries) ≡ true)
              × ((k : ℕ) → is_some (find k q.entries) ≡ true → k ≤ m)))
  max_of_valid q h = elim (front q.cache) [
    | inl (e, n) ↦ inl (rw (h.maxima_of, e) refl, keys_nil q.entries (h.same_keys ∙ n))
    | inr (m, ms, e, c, a) ↦ inr (
      m,
      (
        rw (h.maxima_of, e) refl,
        rw (find-any m q.entries, h.same_keys) c,
        λ k f. All_any k m q.cache a (rw (find-any k q.entries, h.same_keys) at f),
      ),
    )
  ]

  -- After any calls of `set`, `set_cache_size` and `clear` on a new queue, `getMaxKey` throws exactly
  -- if no key is there, and else gives a key that is there and that no other one exceeds.
  pub get_max_key-run :
      (n : ℕ) (calls : List (Call V))
      → ((get_max_key (run calls (create n)) ≡ none) × ((run calls (create n)).entries ≡ []))
        ⊎ ((m : ℕ) × ((get_max_key (run calls (create n)) ≡ some m)
              × (is_some (find m (run calls (create n)).entries) ≡ true)
              × ((k : ℕ) → is_some (find k (run calls (create n)).entries) ≡ true → k ≤ m)))
  unfolding maxima
  get_max_key-run n calls =
      max_of_valid (run calls (create n))
        (run-IsValid calls (create n) (record { same_keys = refl; maxima_of = refl }))
