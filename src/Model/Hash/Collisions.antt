-- ===== src/Model/Hash/Collisions.antt =====
-- What the hash of a transaction leaves out.
use iroha.Prelude.{◌≡◌, refl, ap, ◌%◌, List, [], ◌∷◌, ◌++◌, map, Blob}
use iroha.Model.Command.{Transaction}
use iroha.Model.Hash.{Kind, kind, concat, hash_transaction, hash_query}

concat-map :
    {A B : Type 0} (f : B → Blob) (g : A → B) (xs : List A)
    → concat (λ x. f (g x)) xs ≡ concat f (map g xs)
unfolding concat
concat-map f g [] = refl
concat-map f g (x ∷ xs) = ap (λ l. f (g x) ++ l) (concat-map f g xs)

-- Two transactions of one creator have the same hash, whatever SHA-3 is, if their commands are of
-- the same types in the same order and their counters agree mod 256: accounts, keys, assets and
-- amounts are not hashed. So have two queries with counters that agree mod 256.
pub hash_transaction_collides :
    (sha3_256 : Blob → Blob) (vtable : Kind → Blob) (t u : Transaction)
    → map kind t.commands ≡ map kind u.commands
    → t.creator_account_id ≡ u.creator_account_id
    → t.tx_counter % 256 ≡ u.tx_counter % 256
    → (hash_transaction sha3_256 vtable t ≡ hash_transaction sha3_256 vtable u)
      × (hash_query sha3_256 t.tx_counter ≡ hash_query sha3_256 u.tx_counter)
unfolding hash_transaction hash_query
hash_transaction_collides sha3_256 vtable t u k c n = (
  rw (concat-map vtable kind t.commands, concat-map vtable kind u.commands, k, c, n) refl,
  rw n refl,
)
