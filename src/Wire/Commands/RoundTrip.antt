-- ===== src/Wire/Commands/RoundTrip.antt =====
-- What is left of a command that goes over the wire.
use iroha.Prelude.{◌≡◌, refl, ℕ, ◌<◌, ◌^◌, false, some, Blob, length, arith}
use iroha.Model.Command.{
  Command, add_asset_quantity, add_peer, add_signatory, assign_master_key, create_account,
  create_asset, create_domain, remove_signatory, set_account_permissions, set_quorum,
  transfer_asset,
}
use iroha.Wire.Bytes.{copy, copy-all}
use iroha.Wire.Commands.{
  serialize_abstract_command, deserialize_abstract_command, serialize_permissions,
  deserialize_permissions,
}

-- The sizes that the types of the source fix: keys of 32 bytes, a precision of 8 bits.
abbrev pub IsSized : Command → Type 0
IsSized (add_peer peer_key address) = length peer_key ≡ 32
IsSized (add_signatory account_id pubkey) = length pubkey ≡ 32
IsSized (assign_master_key account_id pubkey) = length pubkey ≡ 32
IsSized (create_account account_name domain_id pubkey) = length pubkey ≡ 32
IsSized (create_asset asset_name domain_id precision) = precision < 2 ^ 8
IsSized (remove_signatory account_id pubkey) = length pubkey ≡ 32
IsSized _ = Unit {0}

-- The command without the permission to set permissions.
unfoldable pub received : Command → Command
received (set_account_permissions account_id p) =
    set_account_permissions account_id (record p { set_permissions = false })
received c = c

module _ (uninit : ℕ → Blob) (sized : (n : ℕ) → length (uninit n) ≡ n) where
  copy_key : (k : Blob) → length k ≡ 32 → copy k (uninit 32) ≡ some k
  copy_key k h = copy-all k (uninit 32) (rw (h, sized 32) refl)

  -- A command of the right sizes is read back as it was written, but for a change of permissions,
  -- which loses the permission to set permissions.
  pub deserialize-serialize :
      (c : Command)
      → IsSized c
      → deserialize_abstract_command uninit (serialize_abstract_command c)
        ≡ some (some (received c))
  unfolding serialize_abstract_command deserialize_abstract_command serialize_permissions
      deserialize_permissions received
  deserialize-serialize (add_asset_quantity a s x) h = refl
  deserialize-serialize (add_peer k a) h = rw (copy_key k h) refl
  deserialize-serialize (add_signatory a k) h = rw (copy_key k h) refl
  deserialize-serialize (assign_master_key a k) h = rw (copy_key k h) refl
  deserialize-serialize (create_account a d k) h = rw (copy_key k h) refl
  deserialize-serialize (create_asset a d p) h = ground arith
  deserialize-serialize (create_domain d) h = refl
  deserialize-serialize (remove_signatory a k) h = rw (copy_key k h) refl
  deserialize-serialize (set_account_permissions a p) h = refl
  deserialize-serialize (set_quorum a q) h = refl
  deserialize-serialize (transfer_asset s d a x) h = refl
