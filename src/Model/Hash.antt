-- ===== src/Model/Hash.antt =====
-- irohad/model/model_hash_provider_impl.cpp: what is hashed. SHA-3 is a parameter, and so are the
-- bytes of a command object: the source copies `sizeof(Command)` of them, which is the pointer to
-- the table of virtual functions of the command's type.
pub mod Collisions
use iroha.Prelude.{
  ◌≡◌, ℕ, zero, suc, ◌+◌, ◌/◌, ◌%◌, List, [], ◌∷◌, ◌++◌, map, Blob, ltb, if◌then◌else◌,
}
use iroha.Model.Command.{
  Command, add_asset_quantity, add_peer, add_signatory, assign_master_key, create_account,
  create_asset, create_domain, remove_signatory, set_account_permissions, set_quorum,
  transfer_asset, Transaction, Proposal, Block,
}

-- The dynamic type of a command.
pub data Kind : Type 0 where
  asset_quantity_added : Kind
  peer_added : Kind
  signatory_added : Kind
  master_key_assigned : Kind
  account_created : Kind
  asset_created : Kind
  domain_created : Kind
  signatory_removed : Kind
  permissions_set : Kind
  quorum_set : Kind
  asset_transferred : Kind

unfoldable pub kind : Command → Kind
kind (add_asset_quantity _ _ _) = asset_quantity_added
kind (add_peer _ _) = peer_added
kind (add_signatory _ _) = signatory_added
kind (assign_master_key _ _) = master_key_assigned
kind (create_account _ _ _) = account_created
kind (create_asset _ _ _) = asset_created
kind (create_domain _) = domain_created
kind (remove_signatory _ _) = signatory_removed
kind (set_account_permissions _ _) = permissions_set
kind (set_quorum _ _) = quorum_set
kind (transfer_asset _ _ _ _) = asset_transferred

-- `std::to_string` of a number of at most 20 digits.
unfoldable pub decimal : ℕ → ℕ → Blob
decimal zero n = []
decimal (suc fuel) n =
    let front = decimal fuel (n / 10) in (if ltb n 10 then [] else front) ++ (b'0' + n % 10) ∷ []

unfoldable pub to_string : ℕ → Blob
unfolding decimal
to_string n = decimal 20 n

-- `concat_ += …` over a range.
unfoldable pub concat : {A : Type 0} → (A → Blob) → List A → Blob
concat f [] = []
concat f (x ∷ xs) = f x ++ concat f xs

-- `std::string += n` of an integer appends one char.
abbrev pub char_of : ℕ → Blob
char_of n = n % 256 ∷ []

module _ (sha3_256 : Blob → Blob) (vtable : Kind → Blob) where
  unfoldable pub hash_transaction : Transaction → Blob
  unfolding concat kind
  hash_transaction tx =
      sha3_256 (
        concat (λ c. vtable (kind c)) tx.commands ++ tx.creator_account_id ++ char_of tx.tx_counter)

  unfoldable pub hash_block : Block → Blob
  unfolding hash_transaction to_string
  hash_block block = sha3_256 (
      to_string block.height
      ++ block.prev_hash
      ++ to_string block.txs_number
      ++ block.merkle_root
      ++ concat hash_transaction block.transactions)

  unfoldable pub hash_proposal : Proposal → Blob
  unfolding hash_transaction
  hash_proposal proposal = sha3_256 (concat hash_transaction proposal.transactions)

-- The tests `instanceof<…>(query)` are put to the shared pointer, not to the query, and are false:
-- only the counter is hashed.
unfoldable pub hash_query : (Blob → Blob) → ℕ → Blob
hash_query sha3_256 query_counter = sha3_256 (char_of query_counter)
