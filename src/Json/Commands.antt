-- ===== src/Json/Commands.antt =====
-- irohad/model/converters/impl/json_command_factory.cpp. A command that is made with `make_shared`
-- and not written yet has arbitrary bytes in its key, `uninit n` for n of them.
pub mod Read
pub mod RoundTrip
use Prim.Native.String.{String}
use iroha.Prelude.{
  ◌≡◌, ℕ, ◌%◌, ◌^◌, List, [], ◌∷◌, Option, none, some, Blob, ◌=ᵇ◌, if◌then◌else◌, ◌>>=◌,
}
use iroha.Model.Amount.{Amount}
use iroha.Model.Types.{Permissions}
use iroha.Model.Command.{
  Command, add_asset_quantity, add_peer, add_signatory, assign_master_key, create_account,
  create_asset, create_domain, remove_signatory, set_account_permissions, set_quorum,
  transfer_asset,
}
use iroha.Json.{
  Json, json_bool, json_uint, json_string, json_object, object, codes, get, get_string, get_uint,
  get_uint64, string_at, bool_at, uint_at, uint64_at,
}
use iroha.Json.Hex.{to_hexstring, hexstring_to_array}

-- `command_type` and the members after it.
abbrev pub command : String → List (String × Json) → Json
command command_type members =
    json_object (object (("command_type", json_string (codes command_type)) ∷ members))

abbrev pub hex : Blob → Json
hex key = json_string (to_hexstring key)

abbrev pub serialize_amount : Amount → Json
serialize_amount a =
    json_object
      (object (("int_part", json_uint a.int_part) ∷ ("frac_part", json_uint a.frac_part) ∷ []))

unfoldable pub serialize_add_asset_quantity : Blob → Blob → Amount → Json
serialize_add_asset_quantity account_id asset_id amount = command "AddAssetQuantity" (
    ("account_id", json_string account_id)
    ∷ ("asset_id", json_string asset_id)
    ∷ ("amount", serialize_amount amount)
    ∷ [])

unfoldable pub serialize_add_peer : Blob → Blob → Json
serialize_add_peer peer_key address =
    command "AddPeer" (("address", json_string address) ∷ ("peer_key", hex peer_key) ∷ [])

unfoldable pub serialize_add_signatory : Blob → Blob → Json
serialize_add_signatory account_id pubkey =
    command "AddSignatory" (("account_id", json_string account_id) ∷ ("pubkey", hex pubkey) ∷ [])

unfoldable pub serialize_assign_master_key : Blob → Blob → Json
serialize_assign_master_key account_id pubkey =
    command "AssignMasterKey" (("account_id", json_string account_id) ∷ ("pubkey", hex pubkey) ∷ [])

unfoldable pub serialize_create_account : Blob → Blob → Blob → Json
serialize_create_account account_name domain_id pubkey = command "CreateAccount" (
    ("account_name", json_string account_name)
    ∷ ("domain_id", json_string domain_id)
    ∷ ("pubkey", hex pubkey)
    ∷ [])

unfoldable pub serialize_create_asset : Blob → Blob → ℕ → Json
serialize_create_asset asset_name domain_id precision = command "CreateAsset" (
    ("asset_name", json_string asset_name)
    ∷ ("domain_id", json_string domain_id)
    ∷ ("precision", json_uint precision)
    ∷ [])

unfoldable pub serialize_create_domain : Blob → Json
serialize_create_domain domain_name =
    command "CreateDomain" (("domain_name", json_string domain_name) ∷ [])

unfoldable pub serialize_remove_signatory : Blob → Blob → Json
serialize_remove_signatory account_id pubkey =
    command "RemoveSignatory" (("account_id", json_string account_id) ∷ ("pubkey", hex pubkey) ∷ [])

abbrev pub serialize_permissions : Permissions → Json
serialize_permissions p = json_object (
    object (
      ("add_signatory", json_bool p.add_signatory)
      ∷ ("can_transfer", json_bool p.can_transfer)
      ∷ ("create_accounts", json_bool p.create_accounts)
      ∷ ("create_assets", json_bool p.create_assets)
      ∷ ("create_domains", json_bool p.create_domains)
      ∷ ("issue_assets", json_bool p.issue_assets)
      ∷ ("read_all_accounts", json_bool p.read_all_accounts)
      ∷ ("remove_signatory", json_bool p.remove_signatory)
      ∷ ("set_permissions", json_bool p.set_permissions)
      ∷ ("set_quorum", json_bool p.set_quorum)
      ∷ []))

unfoldable pub serialize_set_account_permissions : Blob → Permissions → Json
serialize_set_account_permissions account_id new_permissions = command "SetAccountPermissions" (
    ("account_id", json_string account_id)
    ∷ ("new_permissions", serialize_permissions new_permissions)
    ∷ [])

unfoldable pub serialize_set_quorum : Blob → ℕ → Json
serialize_set_quorum account_id new_quorum =
    command "SetQuorum"
      (("account_id", json_string account_id) ∷ ("new_quorum", json_uint new_quorum) ∷ [])

unfoldable pub serialize_transfer_asset : Blob → Blob → Blob → Amount → Json
serialize_transfer_asset src_account_id dest_account_id asset_id amount = command "TransferAsset" (
    ("src_account_id", json_string src_account_id)
    ∷ ("dest_account_id", json_string dest_account_id)
    ∷ ("asset_id", json_string asset_id)
    ∷ ("amount", serialize_amount amount)
    ∷ [])

-- Every type of command has a serializer.
unfoldable pub serialize_abstract_command : Command → Json
unfolding serialize_add_asset_quantity serialize_add_peer serialize_add_signatory
    serialize_assign_master_key serialize_create_account serialize_create_asset
    serialize_create_domain serialize_remove_signatory serialize_set_account_permissions
    serialize_set_quorum serialize_transfer_asset
serialize_abstract_command (add_asset_quantity account_id asset_id amount) =
    serialize_add_asset_quantity account_id asset_id amount
serialize_abstract_command (add_peer peer_key address) = serialize_add_peer peer_key address
serialize_abstract_command (add_signatory account_id pubkey) =
    serialize_add_signatory account_id pubkey
serialize_abstract_command (assign_master_key account_id pubkey) =
    serialize_assign_master_key account_id pubkey
serialize_abstract_command (create_account account_name domain_id pubkey) =
    serialize_create_account account_name domain_id pubkey
serialize_abstract_command (create_asset asset_name domain_id precision) =
    serialize_create_asset asset_name domain_id precision
serialize_abstract_command (create_domain domain_name) = serialize_create_domain domain_name
serialize_abstract_command (remove_signatory account_id pubkey) =
    serialize_remove_signatory account_id pubkey
serialize_abstract_command (set_account_permissions account_id new_permissions) =
    serialize_set_account_permissions account_id new_permissions
serialize_abstract_command (set_quorum account_id new_quorum) =
    serialize_set_quorum account_id new_quorum
serialize_abstract_command (transfer_asset src_account_id dest_account_id asset_id amount) =
    serialize_transfer_asset src_account_id dest_account_id asset_id amount
