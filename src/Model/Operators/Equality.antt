-- ===== src/Model/Operators/Equality.antt =====
-- When two commands, transactions or blocks compare equal.
use iroha.Prelude.{◌≡◌, refl, ◌↔◌, Bool, true, false, ◌&&◌, List, [], ◌∷◌, Blob, ◌=ᵇ◌, arith}
use iroha.Model.Amount.{Amount}
use iroha.Model.Types.{Permissions, Signature}
use iroha.Model.Command.{
  Command, add_asset_quantity, add_peer, add_signatory, assign_master_key, create_account,
  create_asset, create_domain, remove_signatory, set_account_permissions, set_quorum,
  transfer_asset, Transaction,
}
use iroha.Model.Operators.{
  same, amount_equal, permissions_equal, command_equal, signature_equal, list_equal,
  transaction_equal,
}

same_iff : (a b : Bool) → (same a b ≡ true) ↔ (a ≡ b)
unfolding same
same_iff true b = ground arith
same_iff false b = ground arith

amount_equal_iff : (x y : Amount) → (amount_equal x y ≡ true) ↔ (x ≡ y)
unfolding amount_equal
amount_equal_iff x y = ground arith

permissions_equal_iff : (p q : Permissions) → (permissions_equal p q ≡ true) ↔ (p ≡ q)
unfolding permissions_equal same
permissions_equal_iff p q = ground arith

signature_equal_iff : (s t : Signature) → (signature_equal s t ≡ true) ↔ (s ≡ t)
unfolding signature_equal
signature_equal_iff s t = ground arith

command_equal_refl : (c : Command) → command_equal c c ≡ true
unfolding command_equal
command_equal_refl (add_asset_quantity account_id asset_id amount) =
    ground (arith, amount_equal_iff amount amount)
command_equal_refl (add_peer k a) = ground arith
command_equal_refl (add_signatory a k) = ground arith
command_equal_refl (assign_master_key a k) = ground arith
command_equal_refl (create_account a d k) = ground arith
command_equal_refl (create_asset a d p) = ground arith
command_equal_refl (create_domain d) = ground arith
command_equal_refl (remove_signatory a k) = ground arith
command_equal_refl (set_account_permissions a p) = ground (arith, permissions_equal_iff p p)
command_equal_refl (set_quorum a q) = ground arith
command_equal_refl (transfer_asset s d a x) = ground (arith, amount_equal_iff x x)

and_inverse : (a b : Bool) → (a && b) ≡ true → (a ≡ true) × (b ≡ true)
and_inverse a b e = ground arith

blob_equal : (a b : Blob) → (a =ᵇ b) ≡ true → a ≡ b
blob_equal a b e = ground arith

set_permissions_equal :
    (a a' : Blob) (p p' : Permissions)
    → ((a' =ᵇ a) && permissions_equal p' p) ≡ true
    → set_account_permissions a p ≡ set_account_permissions a' p'
set_permissions_equal a a' p p' e =
    let parts = and_inverse (a' =ᵇ a) (permissions_equal p' p) e in
    rw (blob_equal a' a parts.0, (permissions_equal_iff p' p).0 parts.1) refl

command_equal-eq : (c d : Command) → command_equal c d ≡ true → c ≡ d
unfolding command_equal
command_equal-eq (add_asset_quantity a s x) other =
    elim other
      as (λ o. command_equal (add_asset_quantity a s x) o ≡ true → add_asset_quantity a s x ≡ o) [
        | add_asset_quantity a' s' x' ↦ λ e. ground (arith, amount_equal_iff x' x)
        | _ ↦ λ e. absurd (ground arith)
      ]
command_equal-eq (add_peer k a) other =
    elim other as (λ o. command_equal (add_peer k a) o ≡ true → add_peer k a ≡ o) [
      | add_peer k' a' ↦ λ e. ground arith
      | _ ↦ λ e. absurd (ground arith)
    ]
command_equal-eq (add_signatory a k) other =
    elim other as (λ o. command_equal (add_signatory a k) o ≡ true → add_signatory a k ≡ o) [
      | add_signatory a' k' ↦ λ e. ground arith
      | _ ↦ λ e. absurd (ground arith)
    ]
command_equal-eq (assign_master_key a k) other =
    elim other
      as (λ o. command_equal (assign_master_key a k) o ≡ true → assign_master_key a k ≡ o) [
        | assign_master_key a' k' ↦ λ e. ground arith
        | _ ↦ λ e. absurd (ground arith)
      ]
command_equal-eq (create_account a d k) other =
    elim other as (λ o. command_equal (create_account a d k) o ≡ true → create_account a d k ≡ o) [
      | create_account a' d' k' ↦ λ e. ground arith
      | _ ↦ λ e. absurd (ground arith)
    ]
command_equal-eq (create_asset a d p) other =
    elim other as (λ o. command_equal (create_asset a d p) o ≡ true → create_asset a d p ≡ o) [
      | create_asset a' d' p' ↦ λ e. ground arith
      | _ ↦ λ e. absurd (ground arith)
    ]
command_equal-eq (create_domain d) other =
    elim other as (λ o. command_equal (create_domain d) o ≡ true → create_domain d ≡ o) [
      | create_domain d' ↦ λ e. ground arith
      | _ ↦ λ e. absurd (ground arith)
    ]
command_equal-eq (remove_signatory a k) other =
    elim other as (λ o. command_equal (remove_signatory a k) o ≡ true → remove_signatory a k ≡ o) [
      | remove_signatory a' k' ↦ λ e. ground arith
      | _ ↦ λ e. absurd (ground arith)
    ]
command_equal-eq (set_account_permissions a p) other =
    elim other
      as (λ o.
        command_equal (set_account_permissions a p) o ≡ true → set_account_permissions a p ≡ o) [
          | set_account_permissions a' p' ↦ λ e. set_permissions_equal a a' p p' e
          | _ ↦ λ e. absurd (ground arith)
        ]
command_equal-eq (set_quorum a q) other =
    elim other as (λ o. command_equal (set_quorum a q) o ≡ true → set_quorum a q ≡ o) [
      | set_quorum a' q' ↦ λ e. ground arith
      | _ ↦ λ e. absurd (ground arith)
    ]
command_equal-eq (transfer_asset s d a x) other =
    elim other
      as (λ o. command_equal (transfer_asset s d a x) o ≡ true → transfer_asset s d a x ≡ o) [
        | transfer_asset s' d' a' x' ↦ λ e. ground (arith, amount_equal_iff x' x)
        | _ ↦ λ e. absurd (ground arith)
      ]

-- Two commands compare equal exactly if they are the same command with the same arguments.
pub command_equal_iff : (c d : Command) → (command_equal c d ≡ true) ↔ (c ≡ d)
command_equal_iff c d = (command_equal-eq c d, λ e. rw (← e) (command_equal_refl c))

lists_equal_iff :
    {A : Type 0} (eq : A → A → Bool)
    → ((x y : A) → (eq x y ≡ true) ↔ (x ≡ y))
    → (xs ys : List A) → (list_equal eq xs ys ≡ true) ↔ (xs ≡ ys)
unfolding list_equal
lists_equal_iff eq h [] [] = ground arith
lists_equal_iff eq h [] (y ∷ ys) = ground arith
lists_equal_iff eq h (x ∷ xs) [] = ground arith
lists_equal_iff eq h (x ∷ xs) (y ∷ ys) = ground (arith, h x y, lists_equal_iff eq h xs ys)

-- Two transactions compare equal exactly if they have the same commands, counter, signatures and
-- time: their creators and their hashes may differ.
pub transaction_equal_iff :
    (t u : Transaction)
    → (transaction_equal t u ≡ true) ↔ (
        (t.commands ≡ u.commands)
        × (t.tx_counter ≡ u.tx_counter)
        × (t.signatures ≡ u.signatures)
        × (t.created_ts ≡ u.created_ts))
unfolding transaction_equal
transaction_equal_iff t u = ground (
  arith,
  lists_equal_iff command_equal command_equal_iff t.commands u.commands,
  lists_equal_iff signature_equal signature_equal_iff u.signatures t.signatures,
)
