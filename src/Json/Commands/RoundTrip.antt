-- ===== src/Json/Commands/RoundTrip.antt =====
-- A command that is written as JSON and read again.
use iroha.Prelude.{
  ◌≡◌, refl, sym, ◌∙◌, ℕ, ◌<◌, ◌^◌, [], ◌∷◌, some, Blob, blob_discrete, length, All, arith,
}
use iroha.Model.Amount.{Amount}
use iroha.Model.Command.{
  Command, add_asset_quantity, add_peer, add_signatory, assign_master_key, create_account,
  create_asset, create_domain, remove_signatory, set_account_permissions, set_quorum,
  transfer_asset,
}
use iroha.Wire.Bytes.{copy-all}
use iroha.Json.{IsText, get, get_string, get_uint, get_uint64, c_string_all, c_string}
use iroha.Json.Hex.{to_hexstring, hex_digit, hex_pair, hexstring_to_array, hex2bytes-to_hexstring}
use iroha.Json.Commands.{serialize_abstract_command}
use iroha.Json.Commands.Read.{
  deserialize_abstract_command, deserialize_add_asset_quantity, deserialize_add_peer,
  deserialize_add_signatory, deserialize_assign_master_key, deserialize_create_account,
  deserialize_create_asset, deserialize_create_domain, deserialize_remove_signatory,
  deserialize_set_account_permissions, deserialize_set_quorum, deserialize_transfer_asset,
}

-- `n` bytes.
abbrev pub IsBytes : ℕ → Blob → Type 0
IsBytes n s = (length s ≡ n) × All (λ x. x < 256) s

abbrev pub IsAmount : Amount → Type 0
IsAmount a = (a.int_part < 2 ^ 64) × (a.frac_part < 2 ^ 64)

-- Strings without a zero byte, keys of 32 bytes, and numbers of the widths that the types fix.
abbrev pub IsWritable : Command → Type 0
IsWritable (add_asset_quantity account_id asset_id amount) =
    IsText account_id × IsText asset_id × IsAmount amount
IsWritable (add_peer peer_key address) = IsText address × IsBytes 32 peer_key
IsWritable (add_signatory account_id pubkey) = IsText account_id × IsBytes 32 pubkey
IsWritable (assign_master_key account_id pubkey) = IsText account_id × IsBytes 32 pubkey
IsWritable (create_account account_name domain_id pubkey) =
    IsText account_name × IsText domain_id × IsBytes 32 pubkey
IsWritable (create_asset asset_name domain_id precision) =
    IsText asset_name × IsText domain_id × (precision < 2 ^ 8)
IsWritable (create_domain domain_name) = IsText domain_name
IsWritable (remove_signatory account_id pubkey) = IsText account_id × IsBytes 32 pubkey
IsWritable (set_account_permissions account_id new_permissions) = IsText account_id
IsWritable (set_quorum account_id new_quorum) = IsText account_id × (new_quorum < 2 ^ 32)
IsWritable (transfer_asset src_account_id dest_account_id asset_id amount) =
    IsText src_account_id × IsText dest_account_id × IsText asset_id × IsAmount amount

to_hexstring-IsText : (s : Blob) → All (λ x. x < 256) s → IsText (to_hexstring s)
unfolding to_hexstring hex_digit
to_hexstring-IsText [] h = tt
to_hexstring-IsText (x ∷ s) h = (ground arith, (ground arith, to_hexstring-IsText s h.1))

pub c_string-to_hexstring :
    (s : Blob) → All (λ x. x < 256) s → c_string (to_hexstring s) ≡ to_hexstring s
c_string-to_hexstring s h = c_string_all (to_hexstring s) (to_hexstring-IsText s h)

module _ (strtol : Blob → ℕ) (law : (n : ℕ) → n < 256 → strtol (hex_pair n) ≡ n) where
  pub read_hex :
      (n : ℕ) (s array : Blob)
      → IsBytes n s
      → length array ≡ n
      → hexstring_to_array strtol (c_string (to_hexstring s)) array ≡ some s
  unfolding hexstring_to_array
  read_hex n s array h e =
      rw (c_string-to_hexstring s h.1, hex2bytes-to_hexstring strtol law s h.1)
        (copy-all s array (h.0 ∙ sym e))

  module _ (uninit : ℕ → Blob) (sized : (n : ℕ) → length (uninit n) ≡ n) where
    -- Every command is read as it was written, if its strings have no zero byte, its keys are of 32
    -- bytes, and its numbers have the widths of their types.
    pub read-serialize :
        (c : Command)
        → IsWritable c
        → deserialize_abstract_command strtol uninit (serialize_abstract_command c) ≡ some c
    unfolding deserialize_abstract_command serialize_abstract_command get get_string get_uint
        get_uint64 blob_discrete deserialize_add_asset_quantity deserialize_add_peer
        deserialize_add_signatory deserialize_assign_master_key deserialize_create_account
        deserialize_create_asset deserialize_create_domain deserialize_remove_signatory
        deserialize_set_account_permissions deserialize_set_quorum deserialize_transfer_asset
    read-serialize (add_asset_quantity a s x) h =
        rw (c_string_all a h.0, c_string_all s h.1) (ground (arith, h.2))
    read-serialize (add_peer k a) h =
        rw (read_hex 32 k (uninit 32) h.1 (sized 32), c_string_all a h.0) refl
    read-serialize (add_signatory a k) h =
        rw (read_hex 32 k (uninit 32) h.1 (sized 32), c_string_all a h.0) refl
    read-serialize (assign_master_key a k) h =
        rw (read_hex 32 k (uninit 32) h.1 (sized 32), c_string_all a h.0) refl
    read-serialize (create_account a d k) h =
        rw (read_hex 32 k (uninit 32) h.2 (sized 32), c_string_all a h.0, c_string_all d h.1) refl
    read-serialize (create_asset a d p) h =
        rw (c_string_all a h.0, c_string_all d h.1) (ground (arith, h.2))
    read-serialize (create_domain d) h = rw (c_string_all d h) refl
    read-serialize (remove_signatory a k) h =
        rw (read_hex 32 k (uninit 32) h.1 (sized 32), c_string_all a h.0) refl
    read-serialize (set_account_permissions a p) h = rw (c_string_all a h) refl
    read-serialize (set_quorum a q) h = rw (c_string_all a h.0) (ground (arith, h.1))
    read-serialize (transfer_asset s d a x) h =
        rw (c_string_all s h.0, c_string_all d h.1, c_string_all a h.2) (ground (arith, h.3))
