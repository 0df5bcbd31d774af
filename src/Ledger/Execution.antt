-- ===== src/Ledger/Execution.antt =====
-- irohad/model/impl/command_execution.cpp: what each command does to the world state view. A
-- command gives the tables after it and the value that `execute` returns; where a later statement
-- fails, what the earlier ones did is still there (the caller rolls back).
pub mod Integrity
pub mod Transfer
pub mod Refusals
pub mod Issue
use iroha.Prelude.{
  ◌≡◌, ℕ, ◌+◌, ◌-◌, ◌%◌, ◌^◌, Bool, true, false, List, [], ◌∷◌, ◌++◌, Option, none, some, ltb,
  if◌then◌else◌, Blob,
}
use iroha.Model.Amount.{Amount, get_frac_number, get_joint_amount}
use iroha.Model.Types.{Account, Asset, AccountAsset, Permissions, no_permissions}
use iroha.Model.Command.{
  Command, add_asset_quantity, add_peer, add_signatory, assign_master_key, create_account,
  create_asset, create_domain, remove_signatory, set_account_permissions, set_quorum,
  transfer_asset,
}
use iroha.Wsv.Tables.{Wsv}
use iroha.Wsv.Command.{
  insert_account, insert_asset, upsert_account_asset, insert_signatory, insert_account_signatory,
  delete_account_signatory, insert_peer, insert_domain, update_account,
}
use iroha.Wsv.Query.{get_account, get_asset, get_account_asset}

-- `a && b` of two statements: the second runs if the first returned true.
abbrev pub also : Wsv × Bool → (Wsv → Wsv × Bool) → Wsv × Bool
also (w, true) f = f w
also (w, false) f = (w, false)

-- `return false` where a query has no answer.
abbrev pub require {ℓ} : {A : Type ℓ} → Wsv → Option A → (A → Wsv × Bool) → Wsv × Bool
require w none f = (w, false)
require w (some a) f = f a

-- The wallet that receives: its balance raised, mod 2^64, or a new one.
abbrev pub credited : Option AccountAsset → Blob → Blob → ℕ → AccountAsset
credited none account_id asset_id x = record {
  asset_id = asset_id;
  account_id = account_id;
  balance = x;
}
credited (some a) account_id asset_id x = record a { balance = (a.balance + x) % 2 ^ 64 }

-- The wallet that pays: its balance lowered, mod 2^64.
abbrev pub debited : AccountAsset → ℕ → AccountAsset
debited a x = record a { balance = (a.balance + 2 ^ 64 - x) % 2 ^ 64 }

unfoldable pub execute_add_asset_quantity : Wsv → Blob → Blob → Amount → Wsv × Bool
execute_add_asset_quantity w account_id asset_id amount = require w (get_asset w asset_id) λ asset.
    if ltb asset.precision (get_frac_number amount)
    then (w, false)
    else require w (get_account w account_id) λ _. upsert_account_asset w (
        credited (get_account_asset w account_id asset_id) account_id asset_id
          (get_joint_amount amount asset.precision))

-- Changes a field of an account that is there.
abbrev with_account : Wsv → Blob → (Account → Account) → Wsv × Bool
with_account w account_id f = require w (get_account w account_id) λ a. update_account w (f a)

unfoldable pub execute_assign_master_key : Wsv → Blob → Blob → Wsv × Bool
execute_assign_master_key w account_id pubkey =
    with_account w account_id λ a. record a { master_key = pubkey }

unfoldable pub execute_set_account_permissions : Wsv → Blob → Permissions → Wsv × Bool
execute_set_account_permissions w account_id new_permissions =
    with_account w account_id λ a. record a { permissions = new_permissions }

unfoldable pub execute_set_quorum : Wsv → Blob → ℕ → Wsv × Bool
execute_set_quorum w account_id new_quorum =
    with_account w account_id λ a. record a { quorum = new_quorum }

abbrev pub new_account : Blob → Blob → Blob → Account
new_account account_name domain_id pubkey = record {
  account_id = account_name ++ b'@' ∷ domain_id;
  domain_name = domain_id;
  permissions = no_permissions;
  quorum = 1;
  master_key = pubkey;
}

unfoldable pub execute_create_account : Wsv → Blob → Blob → Blob → Wsv × Bool
execute_create_account w account_name domain_id pubkey =
    let account = new_account account_name domain_id pubkey in
    also (also (insert_signatory w pubkey) λ w'. insert_account w' account)
      λ w'. insert_account_signatory w' account.account_id pubkey

unfoldable pub execute_create_asset : Wsv → Blob → Blob → ℕ → Wsv × Bool
execute_create_asset w asset_name domain_id precision = insert_asset w (record {
  asset_id = asset_name ++ b'#' ∷ domain_id;
  domain_id = domain_id;
  precision = precision;
})

-- Both wallets are read before either is written.
unfoldable pub execute_transfer_asset : Wsv → Blob → Blob → Blob → Amount → Wsv × Bool
execute_transfer_asset w src dest asset_id amount =
    require w (get_account_asset w src asset_id) λ src_account_asset.
      require w (get_asset w asset_id) λ asset.
        let x = get_joint_amount amount asset.precision in
        if ltb asset.precision (get_frac_number amount)
        then (w, false)
        else also
            (upsert_account_asset w (credited (get_account_asset w dest asset_id) dest asset_id x))
            λ w'. upsert_account_asset w' (debited src_account_asset x)

unfoldable pub execute : Command → Wsv → Wsv × Bool
unfolding execute_add_asset_quantity execute_assign_master_key execute_set_account_permissions
    execute_set_quorum execute_create_account execute_create_asset execute_transfer_asset
execute (add_asset_quantity account_id asset_id amount) w =
    execute_add_asset_quantity w account_id asset_id amount
execute (add_peer peer_key address) w =
    insert_peer w (record { address = address; pubkey = peer_key })
execute (add_signatory account_id pubkey) w = insert_account_signatory w account_id pubkey
execute (assign_master_key account_id pubkey) w = execute_assign_master_key w account_id pubkey
execute (create_account name domain_id pubkey) w = execute_create_account w name domain_id pubkey
execute (create_asset name domain_id precision) w = execute_create_asset w name domain_id precision
execute (create_domain domain_name) w = insert_domain w (record { domain_id = domain_name })
execute (remove_signatory account_id pubkey) w = delete_account_signatory w account_id pubkey
execute (set_account_permissions account_id p) w = execute_set_account_permissions w account_id p
execute (set_quorum account_id new_quorum) w = execute_set_quorum w account_id new_quorum
execute (transfer_asset src dest asset_id amount) w =
    execute_transfer_asset w src dest asset_id amount
