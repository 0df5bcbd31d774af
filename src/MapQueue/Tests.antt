-- ===== src/MapQueue/Tests.antt =====
-- A queue of some keys.
use iroha.Prelude.{◌≡◌, refl, ℕ, ◌≤◌, true, List, [], ◌∷◌, none, some, is_some, ◌⊎◌}
use iroha.MapQueue.{create, find, get_max_key, set, set_cache_size}
use iroha.MapQueue.Runs.{Call, call_set, call_set_cache_size, run, get_max_key-run}

abbrev calls : List (Call ℕ)
calls = call_set 3 0 ∷ call_set 9 0 ∷ call_set 5 0 ∷ call_set 7 0 ∷ call_set_cache_size 2 ∷ []

-- 3 and 9 have gone.
seven : get_max_key (run calls (create 1)) ≡ some 7
unfolding run set_cache_size set
seven = refl

get_max_key-run_example :
    ((get_max_key (run calls (create 1)) ≡ none) × ((run calls (create 1)).entries ≡ []))
    ⊎ ((m : ℕ) × ((get_max_key (run calls (create 1)) ≡ some m)
          × (is_some (find m (run calls (create 1)).entries) ≡ true)
          × ((k : ℕ) → is_some (find k (run calls (create 1)).entries) ≡ true → k ≤ m)))
get_max_key-run_example = get_max_key-run 1 calls
