-- ===== src/Model/Operators.antt =====
-- irohad/model/impl/model_operators.cpp, with `operator==` of `Amount` (libs/common/types.hpp).
pub mod Equality
use iroha.Prelude.{◌≡◌, ℕ, Bool, true, false, not, ◌&&◌, List, [], ◌∷◌, Blob, ◌=ᵇ◌, ◌==◌}
use iroha.Model.Amount.{Amount}
use iroha.Model.Types.{Permissions, Signature}
use iroha.Model.Command.{
  Command, add_asset_quantity, add_peer, add_signatory, assign_master_key, create_account,
  create_asset, create_domain, remove_signatory, set_account_permissions, set_quorum,
  transfer_asset, Transaction, Block,
}

-- `==` of two values of type bool.
unfoldable pub same : Bool → Bool → Bool
same true b = b
same false b = not b

unfoldable pub amount_equal : Amount → Amount → Bool
amount_equal x y = (x.int_part == y.int_part) && (x.frac_part == y.frac_part)

unfoldable pub permissions_equal : Permissions → Permissions → Bool
unfolding same
permissions_equal p rhs =
    same rhs.add_signatory p.add_signatory
    && same rhs.can_transfer p.can_transfer
    && same rhs.create_accounts p.create_accounts
    && same rhs.create_assets p.create_assets
    && same rhs.create_domains p.create_domains
    && same rhs.issue_assets p.issue_assets
    && same rhs.read_all_accounts p.read_all_accounts
    && same rhs.remove_signatory p.remove_signatory
    && same rhs.set_permissions p.set_permissions
    && same rhs.set_quorum p.set_quorum

-- `*this == command`: false where the types differ.
unfoldable pub command_equal : Command → Command → Bool
unfolding amount_equal permissions_equal
command_equal (add_asset_quantity account_id asset_id amount) (add_asset_quantity a s x) =
    (a =ᵇ account_id) && (s =ᵇ asset_id) && amount_equal x amount
command_equal (add_peer peer_key address) (add_peer k a) = (k =ᵇ peer_key) && (a =ᵇ address)
command_equal (add_signatory account_id pubkey) (add_signatory a k) =
    (a =ᵇ account_id) && (k =ᵇ pubkey)
command_equal (assign_master_key account_id pubkey) (assign_master_key a k) =
    (a =ᵇ account_id) && (k =ᵇ pubkey)
command_equal (create_account account_name domain_id pubkey) (create_account a d k) =
    (k =ᵇ pubkey) && (d =ᵇ domain_id) && (a =ᵇ account_name)
command_equal (create_asset asset_name domain_id precision) (create_asset a d p) =
    (d =ᵇ domain_id) && (p == precision) && (a =ᵇ asset_name)
command_equal (create_domain domain_name) (create_domain d) = d =ᵇ domain_name
command_equal (remove_signatory account_id pubkey) (remove_signatory a k) =
    (k =ᵇ pubkey) && (a =ᵇ account_id)
command_equal (set_account_permissions account_id new_permissions) (set_account_permissions a p) =
    (a =ᵇ account_id) && permissions_equal p new_permissions
command_equal (set_quorum account_id new_quorum) (set_quorum a q) =
    (a =ᵇ account_id) && (q == new_quorum)
command_equal (transfer_asset src dest asset_id amount) (transfer_asset s d a x) =
    (a =ᵇ asset_id) && amount_equal x amount && (s =ᵇ src) && (d =ᵇ dest)
command_equal _ _ = false

unfoldable pub signature_equal : Signature → Signature → Bool
signature_equal s rhs = (rhs.pubkey =ᵇ s.pubkey) && (rhs.signature =ᵇ s.signature)

-- `std::equal` of two ranges, and `==` of two vectors.
unfoldable pub list_equal : {A : Type 0} → (A → A → Bool) → List A → List A → Bool
list_equal eq [] [] = true
list_equal eq (x ∷ xs) (y ∷ ys) = eq x y && list_equal eq xs ys
list_equal eq _ _ = false

-- The creator and the hash are not compared.
unfoldable pub transaction_equal : Transaction → Transaction → Bool
unfolding command_equal signature_equal list_equal
transaction_equal tx rhs =
    list_equal command_equal tx.commands rhs.commands
    && (rhs.tx_counter == tx.tx_counter)
    && list_equal signature_equal rhs.signatures tx.signatures
    && (rhs.created_ts == tx.created_ts)

unfoldable pub block_equal : Block → Block → Bool
unfolding transaction_equal
block_equal b rhs =
    (rhs.hash =ᵇ b.hash)
    && (rhs.height == b.height)
    && (rhs.prev_hash =ᵇ b.prev_hash)
    && (rhs.txs_number == b.txs_number)
    && (rhs.merkle_root =ᵇ b.merkle_root)
    && list_equal signature_equal rhs.sigs b.sigs
    && list_equal transaction_equal rhs.transactions b.transactions
    && (rhs.created_ts == b.created_ts)
    && (rhs.hash =ᵇ b.hash)
