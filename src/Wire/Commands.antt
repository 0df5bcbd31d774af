-- ===== src/Wire/Commands.antt =====
-- irohad/model/converters/impl/pb_command_factory.cpp: commands to messages and back. An array that
-- is declared and not written has arbitrary bytes, `uninit n` for n of them.
pub mod RoundTrip
use iroha.Prelude.{ℕ, ◌%◌, ◌^◌, false, Option, none, some, Blob, ◌>>=◌}
use iroha.Model.Amount.{Amount}
use iroha.Model.Types.{Permissions}
use iroha.Model.Command.{
  Command, add_asset_quantity, add_peer, add_signatory, assign_master_key, create_account,
  create_asset, create_domain, remove_signatory, set_account_permissions, set_quorum,
  transfer_asset,
}
use iroha.Wire.Bytes.{copy}
use iroha.Wire.Messages.{
  PbAmount, PbPermissions, PbCommand, command_not_set, pb_add_asset_quantity, pb_add_peer,
  pb_add_signatory, pb_account_assign_mk, pb_create_asset, pb_create_account, pb_create_domain,
  pb_remove_sign, pb_set_permission, pb_set_quorum, pb_transfer_asset,
}

abbrev pub serialize_amount : Amount → PbAmount
serialize_amount a = record { integer_part = a.int_part; fractial_part = a.frac_part }

abbrev pub deserialize_amount : PbAmount → Amount
deserialize_amount a = record { int_part = a.integer_part; frac_part = a.fractial_part }

-- `set_permissions` is not set, and keeps its default.
unfoldable pub serialize_permissions : Permissions → PbPermissions
serialize_permissions p = record {
  issue_assets = p.issue_assets;
  create_assets = p.create_assets;
  create_accounts = p.create_accounts;
  create_domains = p.create_domains;
  read_all_accounts = p.read_all_accounts;
  add_signatory = p.add_signatory;
  remove_signatory = p.remove_signatory;
  set_permissions = false;
  set_quorum = p.set_quorum;
  can_transfer = p.can_transfer;
}

unfoldable pub deserialize_permissions : PbPermissions → Permissions
deserialize_permissions p = record {
  issue_assets = p.issue_assets;
  create_assets = p.create_assets;
  create_accounts = p.create_accounts;
  create_domains = p.create_domains;
  read_all_accounts = p.read_all_accounts;
  add_signatory = p.add_signatory;
  remove_signatory = p.remove_signatory;
  set_permissions = p.set_permissions;
  set_quorum = p.set_quorum;
  can_transfer = p.can_transfer;
}

unfoldable pub serialize_add_asset_quantity : Blob → Blob → Amount → PbCommand
serialize_add_asset_quantity account_id asset_id amount =
    pb_add_asset_quantity account_id asset_id (serialize_amount amount)

unfoldable pub serialize_add_peer : Blob → Blob → PbCommand
serialize_add_peer peer_key address = pb_add_peer address peer_key

unfoldable pub serialize_add_signatory : Blob → Blob → PbCommand
serialize_add_signatory account_id pubkey = pb_add_signatory account_id pubkey

unfoldable pub serialize_assign_master_key : Blob → Blob → PbCommand
serialize_assign_master_key account_id pubkey = pb_account_assign_mk account_id pubkey

unfoldable pub serialize_create_asset : Blob → Blob → ℕ → PbCommand
serialize_create_asset asset_name domain_id precision =
    pb_create_asset asset_name domain_id precision

unfoldable pub serialize_create_account : Blob → Blob → Blob → PbCommand
serialize_create_account account_name domain_id pubkey =
    pb_create_account account_name domain_id pubkey

unfoldable pub serialize_create_domain : Blob → PbCommand
serialize_create_domain domain_name = pb_create_domain domain_name

unfoldable pub serialize_remove_signatory : Blob → Blob → PbCommand
serialize_remove_signatory account_id pubkey = pb_remove_sign account_id pubkey

unfoldable pub serialize_set_account_permissions : Blob → Permissions → PbCommand
unfolding serialize_permissions
serialize_set_account_permissions account_id new_permissions =
    pb_set_permission account_id (serialize_permissions new_permissions)

unfoldable pub serialize_set_quorum : Blob → ℕ → PbCommand
serialize_set_quorum account_id new_quorum = pb_set_quorum account_id new_quorum

unfoldable pub serialize_transfer_asset : Blob → Blob → Blob → Amount → PbCommand
serialize_transfer_asset src_account_id dest_account_id asset_id amount =
    pb_transfer_asset src_account_id dest_account_id asset_id (serialize_amount amount)

unfoldable pub serialize_abstract_command : Command → PbCommand
unfolding serialize_add_asset_quantity serialize_add_peer serialize_add_signatory
    serialize_assign_master_key serialize_create_asset serialize_create_account
    serialize_create_domain serialize_remove_signatory serialize_set_account_permissions
    serialize_set_quorum serialize_transfer_asset
serialize_abstract_command (add_asset_quantity account_id asset_id amount) =
    serialize_add_asset_quantity account_id asset_id amount
serialize_abstract_command (add_peer peer_key address) = serialize_add_peer peer_key address
serialize_abstract_command (add_signatory account_id pubkey) =
    serialize_add_signatory account_id pubkey
serialize_abstract_command (assign_master_key account_id pubkey) =
    serialize_assign_master_key account_id pubkey
serialize_abstract_command (create_asset asset_name domain_id precision) =
    serialize_create_asset asset_name domain_id precision
serialize_abstract_command (create_account account_name domain_id pubkey) =
    serialize_create_account account_name domain_id pubkey
serialize_abstract_command (create_domain domain_name) = serialize_create_domain domain_name
serialize_abstract_command (remove_signatory account_id pubkey) =
    serialize_remove_signatory account_id pubkey
serialize_abstract_command (set_account_permissions account_id new_permissions) =
    serialize_set_account_permissions account_id new_permissions
serialize_abstract_command (set_quorum account_id new_quorum) =
    serialize_set_quorum account_id new_quorum
serialize_abstract_command (transfer_asset src_account_id dest_account_id asset_id amount) =
    serialize_transfer_asset src_account_id dest_account_id asset_id amount

module _ (uninit : ℕ → Blob) where
  unfoldable pub deserialize_add_asset_quantity : Blob → Blob → PbAmount → Option Command
  deserialize_add_asset_quantity account_id asset_id amount =
      some (add_asset_quantity account_id asset_id (deserialize_amount amount))

  unfoldable pub deserialize_add_peer : Blob → Blob → Option Command
  unfolding copy
  deserialize_add_peer address peer_key = do
    key ← copy peer_key (uninit 32)
    some (add_peer key address)

  unfoldable pub deserialize_add_signatory : Blob → Blob → Option Command
  unfolding copy
  deserialize_add_signatory account_id public_key = do
    key ← copy public_key (uninit 32)
    some (add_signatory account_id key)

  unfoldable pub deserialize_assign_master_key : Blob → Blob → Option Command
  unfolding copy
  deserialize_assign_master_key account_id public_key = do
    key ← copy public_key (uninit 32)
    some (assign_master_key account_id key)

  unfoldable pub deserialize_create_asset : Blob → Blob → ℕ → Option Command
  deserialize_create_asset asset_name domain_id precision =
      some (create_asset asset_name domain_id (precision % 2 ^ 8))

  unfoldable pub deserialize_create_account : Blob → Blob → Blob → Option Command
  unfolding copy
  deserialize_create_account account_name domain_id main_pubkey = do
    key ← copy main_pubkey (uninit 32)
    some (create_account account_name domain_id key)

  unfoldable pub deserialize_create_domain : Blob → Option Command
  deserialize_create_domain domain_name = some (create_domain domain_name)

  unfoldable pub deserialize_remove_signatory : Blob → Blob → Option Command
  unfolding copy
  deserialize_remove_signatory account_id public_key = do
    key ← copy public_key (uninit 32)
    some (remove_signatory account_id key)

  unfoldable pub deserialize_set_account_permissions : Blob → PbPermissions → Option Command
  unfolding deserialize_permissions
  deserialize_set_account_permissions account_id permissions =
      some (set_account_permissions account_id (deserialize_permissions permissions))

  unfoldable pub deserialize_set_quorum : Blob → ℕ → Option Command
  deserialize_set_quorum account_id quorum = some (set_quorum account_id quorum)

  unfoldable pub deserialize_transfer_asset : Blob → Blob → Blob → PbAmount → Option Command
  deserialize_transfer_asset src_account_id dest_account_id asset_id amount =
      some (transfer_asset src_account_id dest_account_id asset_id (deserialize_amount amount))

  -- The pointer is null, `some none`, where no command is set.
  unfoldable pub deserialize_abstract_command : PbCommand → Option (Option Command)
  unfolding deserialize_add_asset_quantity deserialize_add_peer deserialize_add_signatory
      deserialize_assign_master_key deserialize_create_asset deserialize_create_account
      deserialize_create_domain deserialize_remove_signatory deserialize_set_account_permissions
      deserialize_set_quorum deserialize_transfer_asset
  deserialize_abstract_command command_not_set = some none
  deserialize_abstract_command (pb_add_asset_quantity account_id asset_id amount) = do
    c ← deserialize_add_asset_quantity account_id asset_id amount
    some (some c)
  deserialize_abstract_command (pb_add_peer address peer_key) = do
    c ← deserialize_add_peer address peer_key
    some (some c)
  deserialize_abstract_command (pb_add_signatory account_id public_key) = do
    c ← deserialize_add_signatory account_id public_key
    some (some c)
  deserialize_abstract_command (pb_account_assign_mk account_id public_key) = do
    c ← deserialize_assign_master_key account_id public_key
    some (some c)
  deserialize_abstract_command (pb_create_asset asset_name domain_id precision) = do
    c ← deserialize_create_asset asset_name domain_id precision
    some (some c)
  deserialize_abstract_command (pb_create_account account_name domain_id main_pubkey) = do
    c ← deserialize_create_account account_name domain_id main_pubkey
    some (some c)
  deserialize_abstract_command (pb_create_domain domain_name) = do
    c ← deserialize_create_domain domain_name
    some (some c)
  deserialize_abstract_command (pb_remove_sign account_id public_key) = do
    c ← deserialize_remove_signatory account_id public_key
    some (some c)
  deserialize_abstract_command (pb_set_permission account_id permissions) = do
    c ← deserialize_set_account_permissions account_id permissions
    some (some c)
  deserialize_abstract_command (pb_set_quorum account_id quorum) = do
    c ← deserialize_set_quorum account_id quorum
    some (some c)
  deserialize_abstract_command (pb_transfer_asset src_account_id dest_account_id asset_id amount) =
      do
        c ← deserialize_transfer_asset src_account_id dest_account_id asset_id amount
        some (some c)
