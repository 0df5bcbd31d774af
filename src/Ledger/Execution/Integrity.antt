-- ===== src/Ledger/Execution/Integrity.antt =====
-- Every command keeps the constraints of the schema.
use iroha.Prelude.{Bool, true, false, Option, none, some, ltb, if◌then◌else◌}
use iroha.Model.Amount.{get_frac_number, get_joint_amount}
use iroha.Model.Types.{Account, AccountAsset}
use iroha.Model.Command.{
  Command, add_asset_quantity, add_peer, add_signatory, assign_master_key, create_account,
  create_asset, create_domain, remove_signatory, set_account_permissions, set_quorum,
  transfer_asset,
}
use iroha.Wsv.Tables.{Wsv}
use iroha.Wsv.Tables.Integrity.{IsValid}
use iroha.Wsv.Command.{
  insert_signatory, insert_account, insert_account_signatory, upsert_account_asset, update_account,
}
use iroha.Wsv.Command.Integrity.{
  upsert_account_asset-IsValid, insert_domain-IsValid, insert_signatory-IsValid,
  insert_account-IsValid, insert_asset-IsValid, insert_account_signatory-IsValid,
  delete_account_signatory-IsValid, insert_peer-IsValid, update_account-IsValid,
}
use iroha.Wsv.Query.{get_account, get_asset, get_account_asset}
use iroha.Ledger.Execution.{
  also, require, credited, debited, new_account, execute, execute_add_asset_quantity,
  execute_assign_master_key, execute_set_account_permissions, execute_set_quorum,
  execute_create_account, execute_create_asset, execute_transfer_asset,
}

-- The tables after a statement or a command are valid.
record Keeps (p : Wsv × Bool) : Type 0 where
  pub valid : IsValid p.0

Keeps-intro : {p : Wsv × Bool} → IsValid p.0 → Keeps p
Keeps-intro v = record { valid = v }

also-Keeps :
    {p : Wsv × Bool} {f : Wsv → Wsv × Bool}
    → Keeps p
    → ((w : Wsv) → IsValid w → Keeps (f w))
    → Keeps (also p f)
also-Keeps {p = (w, true)} k g = g w k.valid
also-Keeps {p = (w, false)} k g = Keeps-intro k.valid

require-Keeps :
    {A : Type 0} {w : Wsv} (o : Option A) {f : A → Wsv × Bool}
    → IsValid w
    → ((a : A) → Keeps (f a))
    → Keeps (require w o f)
require-Keeps none v g = Keeps-intro v
require-Keeps (some a) v g = g a

branch-Keeps :
    (b : Bool) {w : Wsv} {p : Wsv × Bool}
    → IsValid w
    → Keeps p
    → Keeps (if b then (w, false) else p)
branch-Keeps true v k = Keeps-intro v
branch-Keeps false v k = k

upsert_balance-Keeps : (w : Wsv) (a : AccountAsset) → IsValid w → Keeps (upsert_account_asset w a)
upsert_balance-Keeps w a v = Keeps-intro (upsert_account_asset-IsValid w a v)

update-Keeps : (w : Wsv) (a : Account) → IsValid w → Keeps (update_account w a)
update-Keeps w a v = Keeps-intro (update_account-IsValid w a v)

execute-Keeps : (c : Command) (w : Wsv) → IsValid w → Keeps (execute c w)
unfolding execute execute_add_asset_quantity execute_assign_master_key
    execute_set_account_permissions execute_set_quorum execute_create_account execute_create_asset
    execute_transfer_asset
execute-Keeps (add_asset_quantity account_id asset_id amount) w v =
    require-Keeps (get_asset w asset_id) v λ asset.
      let x = get_joint_amount amount asset.precision in
      branch-Keeps (ltb asset.precision (get_frac_number amount)) v (
        require-Keeps (get_account w account_id) v λ _.
          upsert_balance-Keeps w
            (credited (get_account_asset w account_id asset_id) account_id asset_id x) v)
execute-Keeps (add_peer peer_key address) w v = Keeps-intro (insert_peer-IsValid w _ v)
execute-Keeps (add_signatory account_id pubkey) w v =
    Keeps-intro (insert_account_signatory-IsValid w _ _ v)
execute-Keeps (assign_master_key account_id pubkey) w v =
    require-Keeps (get_account w account_id) v λ a. update-Keeps w _ v
execute-Keeps (create_account name domain_id pubkey) w v =
    let a = new_account name domain_id pubkey in
    also-Keeps {f = λ w'. insert_account_signatory w' a.account_id pubkey}
      (also-Keeps {f = λ w'. insert_account w' a}
        (Keeps-intro {p = insert_signatory w pubkey} (insert_signatory-IsValid w pubkey v))
        λ w' v'. Keeps-intro {p = insert_account w' a} (insert_account-IsValid w' a v'))
      λ w' v'.
        Keeps-intro {p = insert_account_signatory w' a.account_id pubkey}
          (insert_account_signatory-IsValid w' a.account_id pubkey v')
execute-Keeps (create_asset name domain_id precision) w v = Keeps-intro (insert_asset-IsValid w _ v)
execute-Keeps (create_domain domain_name) w v = Keeps-intro (insert_domain-IsValid w _ v)
execute-Keeps (remove_signatory account_id pubkey) w v =
    Keeps-intro (delete_account_signatory-IsValid w _ _ v)
execute-Keeps (set_account_permissions account_id p) w v =
    require-Keeps (get_account w account_id) v λ a. update-Keeps w _ v
execute-Keeps (set_quorum account_id new_quorum) w v =
    require-Keeps (get_account w account_id) v λ a. update-Keeps w _ v
execute-Keeps (transfer_asset src dest asset_id amount) w v =
    require-Keeps (get_account_asset w src asset_id) v λ a.
      require-Keeps (get_asset w asset_id) v λ asset.
        let x = get_joint_amount amount asset.precision in
        branch-Keeps (ltb asset.precision (get_frac_number amount)) v (
          also-Keeps {f = λ w'. upsert_account_asset w' (debited a x)}
            (upsert_balance-Keeps w (credited (get_account_asset w dest asset_id) dest asset_id x)
              v)
            λ w' v'. upsert_balance-Keeps w' (debited a x) v')

-- If the tables satisfy the constraints of the schema, they do so after any command, whether it
-- returns true or false.
pub execute-IsValid : (c : Command) (w : Wsv) → IsValid w → IsValid (execute c w).0
execute-IsValid c w v = (execute-Keeps c w v).valid
