-- ===== src/Json/Commands/Read.antt =====
-- The reading half of irohad/model/converters/impl/json_command_factory.cpp.
use Prim.Native.String.{String}
use iroha.Prelude.{ℕ, ◌%◌, ◌^◌, List, [], ◌∷◌, Option, none, some, Blob, ◌=ᵇ◌, if◌then◌else◌, ◌>>=◌}
use iroha.Model.Amount.{Amount}
use iroha.Model.Types.{Permissions}
use iroha.Model.Command.{
  Command, add_asset_quantity, add_peer, add_signatory, assign_master_key, create_account,
  create_asset, create_domain, remove_signatory, set_account_permissions, set_quorum,
  transfer_asset,
}
use iroha.Json.{Json, codes, get, string_at, bool_at, uint_at, uint64_at}
use iroha.Json.Hex.{hexstring_to_array}

unfoldable pub deserialize_amount : Json → Option Amount
deserialize_amount json = do
  int_part ← uint64_at "int_part" json
  frac_part ← uint64_at "frac_part" json
  some (record { int_part = int_part; frac_part = frac_part })

unfoldable pub deserialize_permissions : Json → Option Permissions
deserialize_permissions json = do
  a ← bool_at "add_signatory" json
  t ← bool_at "can_transfer" json
  ca ← bool_at "create_accounts" json
  cs ← bool_at "create_assets" json
  cd ← bool_at "create_domains" json
  i ← bool_at "issue_assets" json
  r ← bool_at "read_all_accounts" json
  rs ← bool_at "remove_signatory" json
  p ← bool_at "set_permissions" json
  q ← bool_at "set_quorum" json
  some (record {
    issue_assets = i;
    create_assets = cs;
    create_accounts = ca;
    create_domains = cd;
    read_all_accounts = r;
    add_signatory = a;
    remove_signatory = rs;
    set_permissions = p;
    set_quorum = q;
    can_transfer = t;
  })

unfoldable pub deserialize_add_asset_quantity : Json → Option Command
unfolding deserialize_amount
deserialize_add_asset_quantity command = do
  account_id ← string_at "account_id" command
  asset_id ← string_at "asset_id" command
  json ← get "amount" command
  amount ← deserialize_amount json
  some (add_asset_quantity account_id asset_id amount)

unfoldable pub deserialize_create_asset : Json → Option Command
deserialize_create_asset command = do
  asset_name ← string_at "asset_name" command
  domain_id ← string_at "domain_id" command
  precision ← uint_at "precision" command
  some (create_asset asset_name domain_id (precision % 2 ^ 8))

unfoldable pub deserialize_create_domain : Json → Option Command
deserialize_create_domain command = do
  domain_name ← string_at "domain_name" command
  some (create_domain domain_name)

unfoldable pub deserialize_set_account_permissions : Json → Option Command
unfolding deserialize_permissions
deserialize_set_account_permissions command = do
  account_id ← string_at "account_id" command
  json ← get "new_permissions" command
  new_permissions ← deserialize_permissions json
  some (set_account_permissions account_id new_permissions)

unfoldable pub deserialize_set_quorum : Json → Option Command
deserialize_set_quorum command = do
  account_id ← string_at "account_id" command
  new_quorum ← uint_at "new_quorum" command
  some (set_quorum account_id new_quorum)

unfoldable pub deserialize_transfer_asset : Json → Option Command
unfolding deserialize_amount
deserialize_transfer_asset command = do
  src_account_id ← string_at "src_account_id" command
  dest_account_id ← string_at "dest_account_id" command
  asset_id ← string_at "asset_id" command
  json ← get "amount" command
  amount ← deserialize_amount json
  some (transfer_asset src_account_id dest_account_id asset_id amount)

module _ (strtol : Blob → ℕ) (uninit : ℕ → Blob) where
  abbrev pub key_at : String → Json → Option Blob
  key_at name command = do
    string ← string_at name command
    hexstring_to_array strtol string (uninit 32)

  unfoldable pub deserialize_add_peer : Json → Option Command
  deserialize_add_peer command = do
    peer_key ← key_at "peer_key" command
    address ← string_at "address" command
    some (add_peer peer_key address)

  unfoldable pub deserialize_add_signatory : Json → Option Command
  deserialize_add_signatory command = do
    account_id ← string_at "account_id" command
    pubkey ← key_at "pubkey" command
    some (add_signatory account_id pubkey)

  unfoldable pub deserialize_assign_master_key : Json → Option Command
  deserialize_assign_master_key command = do
    account_id ← string_at "account_id" command
    pubkey ← key_at "pubkey" command
    some (assign_master_key account_id pubkey)

  unfoldable pub deserialize_create_account : Json → Option Command
  deserialize_create_account command = do
    account_name ← string_at "account_name" command
    domain_id ← string_at "domain_id" command
    pubkey ← key_at "pubkey" command
    some (create_account account_name domain_id pubkey)

  unfoldable pub deserialize_remove_signatory : Json → Option Command
  deserialize_remove_signatory command = do
    account_id ← string_at "account_id" command
    pubkey ← key_at "pubkey" command
    some (remove_signatory account_id pubkey)

  -- `deserializers_`
  abbrev pub deserializers : List (Blob × (Json → Option Command))
  deserializers =
      (codes "AddAssetQuantity", deserialize_add_asset_quantity)
      ∷ (codes "AddPeer", deserialize_add_peer)
      ∷ (codes "AddSignatory", deserialize_add_signatory)
      ∷ (codes "AssignMasterKey", deserialize_assign_master_key)
      ∷ (codes "CreateAccount", deserialize_create_account)
      ∷ (codes "CreateAsset", deserialize_create_asset)
      ∷ (codes "CreateDomain", deserialize_create_domain)
      ∷ (codes "RemoveSignatory", deserialize_remove_signatory)
      ∷ (codes "SetAccountPermissions", deserialize_set_account_permissions)
      ∷ (codes "SetQuorum", deserialize_set_quorum)
      ∷ (codes "TransferAsset", deserialize_transfer_asset)
      ∷ []

  unfoldable pub dispatch : Blob → List (Blob × (Json → Option Command)) → Json → Option Command
  dispatch command_type [] command = none
  dispatch command_type (entry ∷ entries) command =
      let rest = dispatch command_type entries command in
      if command_type =ᵇ entry.0 then entry.1 command else rest

  unfoldable pub deserialize_abstract_command : Json → Option Command
  unfolding dispatch
  deserialize_abstract_command command = do
    command_type ← string_at "command_type" command
    dispatch command_type deserializers command
