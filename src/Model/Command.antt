-- ===== src/Model/Command.antt =====
-- irohad/model/commands/*.hpp, with transaction.hpp, proposal.hpp and block.hpp.
use iroha.Prelude.{ℕ, List, Blob}
use iroha.Model.Amount.{Amount}
use iroha.Model.Types.{Permissions, Signature}

pub data Command : Type 0 where
  add_asset_quantity : (account_id asset_id : Blob) (amount : Amount) → Command
  add_peer : (peer_key address : Blob) → Command
  add_signatory : (account_id pubkey : Blob) → Command
  assign_master_key : (account_id pubkey : Blob) → Command
  create_account : (account_name domain_id pubkey : Blob) → Command
  create_asset : (asset_name domain_id : Blob) (precision : ℕ) → Command
  create_domain : (domain_name : Blob) → Command
  remove_signatory : (account_id pubkey : Blob) → Command
  set_account_permissions : (account_id : Blob) (new_permissions : Permissions) → Command
  set_quorum : (account_id : Blob) (new_quorum : ℕ) → Command
  transfer_asset : (src_account_id dest_account_id asset_id : Blob) (amount : Amount) → Command

pub record Transaction : Type 0 where
  pub signatures : List Signature
  pub created_ts : ℕ
  pub creator_account_id : Blob
  pub tx_counter : ℕ
  pub tx_hash : Blob
  pub commands : List Command

pub record Proposal : Type 0 where
  pub transactions : List Transaction
  pub height : ℕ

pub record Block : Type 0 where
  pub hash : Blob
  pub sigs : List Signature
  pub created_ts : ℕ
  pub height : ℕ
  pub prev_hash : Blob
  pub txs_number : ℕ
  pub merkle_root : Blob
  pub transactions : List Transaction
