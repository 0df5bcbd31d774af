-- ===== src/Wire/Messages.antt =====
-- The messages of schema/primitive.proto, commands.proto, block.proto. A field that is not set has
-- its default: 0, false, the empty string, or a message of these.
use iroha.Prelude.{ℕ, Bool, List, Blob}

pub record PbSignature : Type 0 where
  pub pubkey : Blob
  pub signature : Blob

pub record PbPermissions : Type 0 where
  pub issue_assets : Bool
  pub create_assets : Bool
  pub create_accounts : Bool
  pub create_domains : Bool
  pub read_all_accounts : Bool
  pub add_signatory : Bool
  pub remove_signatory : Bool
  pub set_permissions : Bool
  pub set_quorum : Bool
  pub can_transfer : Bool

pub record PbAmount : Type 0 where
  pub integer_part : ℕ
  pub fractial_part : ℕ

-- `oneof command`, with the fields of each message.
pub data PbCommand : Type 0 where
  command_not_set : PbCommand
  pb_add_asset_quantity : (account_id asset_id : Blob) (amount : PbAmount) → PbCommand
  pb_add_peer : (address peer_key : Blob) → PbCommand
  pb_add_signatory : (account_id public_key : Blob) → PbCommand
  pb_account_assign_mk : (account_id public_key : Blob) → PbCommand
  pb_create_asset : (asset_name domain_id : Blob) (precision : ℕ) → PbCommand
  pb_create_account : (account_name domain_id main_pubkey : Blob) → PbCommand
  pb_create_domain : (domain_name : Blob) → PbCommand
  pb_remove_sign : (account_id public_key : Blob) → PbCommand
  pb_set_permission : (account_id : Blob) (permissions : PbPermissions) → PbCommand
  pb_set_quorum : (account_id : Blob) (quorum : ℕ) → PbCommand
  pb_transfer_asset :
      (src_account_id dest_account_id asset_id : Blob) (amount : PbAmount) → PbCommand

pub record PbTransaction : Type 0 where
  pub created_time : ℕ
  pub signatures : List PbSignature
  pub creator_account_id : Blob
  pub tx_counter : ℕ
  pub commands : List PbCommand

pub record PbBlock : Type 0 where
  pub created_time : ℕ
  pub signatures : List PbSignature
  pub tx_number : ℕ
  pub height : ℕ
  pub merkle_root : Blob
  pub prev_block_hash : Blob
  pub transactions : List PbTransaction
