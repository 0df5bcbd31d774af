-- ===== src/MapQueue.antt =====
-- libs/map_queue/map_queue.hpp, for keys of type uint64_t. The map is a list of entries, of which
-- each key has at most one.
pub mod Maximum
pub mod Runs
pub mod Tests
use iroha.Prelude.{
  ◌≡◌, ℕ, zero, suc, ◌<◌, Bool, true, false, not, List, [], ◌∷◌, ◌++◌, map, Option, none, some,
  length, ltb, ◌==◌, is_some, if◌then◌else◌,
}

pub record MapQueue (V : Type 0) : Type 0 where
  pub max_cache_size : ℕ
  pub entries : List (ℕ × V)
  pub max_cache : List ℕ
  pub cache : List ℕ

abbrev pub create : {V : Type 0} → ℕ → MapQueue V
create max_cache_size = record {
  max_cache_size = max_cache_size;
  entries = [];
  max_cache = [];
  cache = [];
}

unfoldable pub find : {V : Type 0} → ℕ → List (ℕ × V) → Option V
find k [] = none
find k (e ∷ es) = if k == e.0 then some e.1 else find k es

unfoldable pub erase : {V : Type 0} → ℕ → List (ℕ × V) → List (ℕ × V)
erase k [] = []
erase k (e ∷ es) = if k == e.0 then es else e ∷ erase k es

-- `while (!max_cache_.empty() && max_cache_.back() < k) max_cache_.pop_back();`
unfoldable pub pop_smaller : ℕ → List ℕ → List ℕ
pop_smaller k [] = []
pop_smaller k (x ∷ xs) = elim (pop_smaller k xs) [
  | [] ↦ if ltb x k then [] else x ∷ []
  | y ∷ ys ↦ x ∷ y ∷ ys
]

abbrev pub pop_front : ℕ → List ℕ → List ℕ
pop_front k [] = []
pop_front k (x ∷ xs) = if x == k then xs else x ∷ xs

-- The source reads the key through a reference that `cache_.pop_front()` has ended; here the key is
-- still what it was.
unfoldable pub pop_last : {V : Type 0} → MapQueue V → MapQueue V
unfolding erase
pop_last q = elim q.entries [
  | [] ↦ q
  | e ∷ es ↦ elim q.cache [
    | [] ↦ q
    | k ∷ cache ↦ record q {
      cache = cache;
      max_cache = pop_front k q.max_cache;
      entries = erase k (e ∷ es);
    }
  ]
]

-- `while (data_.size() > max_cache_size_) pop_last();`
unfoldable pub pop_over : {V : Type 0} → ℕ → MapQueue V → MapQueue V
unfolding pop_last
pop_over zero q = q
pop_over (suc fuel) q =
    let rest = pop_over fuel (pop_last q) in
    if ltb q.max_cache_size (length q.entries) then rest else q

unfoldable pub set_cache_size : {V : Type 0} → ℕ → MapQueue V → MapQueue V
unfolding pop_over
set_cache_size max_cache_size q =
    pop_over (length q.entries) (record q { max_cache_size = max_cache_size })

unfoldable pub set : {V : Type 0} → ℕ → V → MapQueue V → MapQueue V
unfolding find pop_smaller
set k v q = if is_some (find k q.entries) then q else record q {
  cache = q.cache ++ k ∷ [];
  max_cache = pop_smaller k q.max_cache ++ k ∷ [];
  entries = q.entries ++ (k, v) ∷ [];
}

-- `none`: the source throws.
abbrev pub get_max_key : {V : Type 0} → MapQueue V → Option ℕ
get_max_key q = elim q.max_cache [ [] ↦ none | k ∷ ks ↦ some k ]

abbrev pub clear : {V : Type 0} → MapQueue V → MapQueue V
clear q = record q { entries = []; max_cache = []; cache = [] }
