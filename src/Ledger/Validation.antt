-- ===== src/Ledger/Validation.antt =====
-- irohad/model/impl/stateful_command_validation.cpp: may the creator of a transaction do this?
use iroha.Prelude.{
  ℕ, ◌-◌, ◌^◌, Bool, true, false, not, ◌&&◌, ◌||◌, Option, none, some, is_some, ltb, leb, length,
  all, any, Blob, ◌=ᵇ◌,
}
use iroha.Model.Amount.{Amount, get_frac_number, get_joint_amount}
use iroha.Model.Types.{Account}
use iroha.Model.Command.{
  Command, add_asset_quantity, add_peer, add_signatory, assign_master_key, create_account,
  create_asset, create_domain, remove_signatory, set_account_permissions, set_quorum,
  transfer_asset,
}
use iroha.Wsv.Tables.{Wsv}
use iroha.Wsv.Query.{get_account, get_asset, get_account_asset, get_signatories}

-- `std::isalnum` in the C locale.
unfoldable pub isalnum : ℕ → Bool
isalnum c = (leb b'0' c && leb c b'9') || (leb b'A' c && leb c b'Z') || (leb b'a' c && leb c b'z')

-- A name of 1 to n - 1 letters and digits.
unfoldable pub is_name : ℕ → Blob → Bool
unfolding isalnum
is_name n name = ltb 0 (length name) && ltb (length name) n && all isalnum name

-- `amount.int_part > 0 || amount.frac_part > 0`
abbrev pub is_positive : Amount → Bool
is_positive a = ltb 0 a.int_part || ltb 0 a.frac_part

abbrev with_some {ℓ} : {A : Type ℓ} → Option A → (A → Bool) → Bool
with_some none f = false
with_some (some a) f = f a

unfoldable pub validate_assign_master_key : Wsv → Account → Blob → Blob → Bool
validate_assign_master_key w creator account_id pubkey =
    ((creator.account_id =ᵇ account_id) || creator.permissions.add_signatory)
    && with_some (get_account w account_id) (λ acc. not (acc.master_key =ᵇ pubkey))
    && with_some (get_signatories w account_id)
        λ signs. ltb 0 (length signs) && any (λ key. key =ᵇ pubkey) signs

unfoldable pub validate_remove_signatory : Wsv → Account → Blob → Blob → Bool
validate_remove_signatory w creator account_id pubkey =
    ((creator.account_id =ᵇ account_id) || creator.permissions.remove_signatory)
    && with_some (get_account w account_id) λ account. not (pubkey =ᵇ account.master_key)

unfoldable pub validate_transfer_asset : Wsv → Account → Blob → Blob → Blob → Amount → Bool
validate_transfer_asset w creator src dest asset_id amount =
    (creator.permissions.can_transfer && (creator.account_id =ᵇ src) && is_positive amount)
    && with_some (get_asset w asset_id) λ asset.
      leb (get_frac_number amount) asset.precision
      && with_some (get_account_asset w src asset_id) λ account_asset.
        is_some (get_account w dest)
        && leb (get_joint_amount amount asset.precision) account_asset.balance

unfoldable pub validate : Command → Wsv → Account → Bool
unfolding is_name validate_assign_master_key validate_remove_signatory validate_transfer_asset
validate (add_asset_quantity account_id asset_id amount) w creator =
    is_positive amount && ltb amount.int_part (2 ^ 32 - 1) && creator.permissions.issue_assets
validate (add_peer peer_key address) w creator = true
validate (add_signatory account_id pubkey) w creator =
    (account_id =ᵇ creator.account_id) || creator.permissions.add_signatory
validate (assign_master_key account_id pubkey) w creator =
    validate_assign_master_key w creator account_id pubkey
validate (create_account account_name domain_id pubkey) w creator =
    creator.permissions.create_accounts && is_name 8 account_name
validate (create_asset asset_name domain_id precision) w creator =
    creator.permissions.create_assets && is_name 10 asset_name
validate (create_domain domain_name) w creator =
    creator.permissions.create_domains && is_name 10 domain_name
validate (remove_signatory account_id pubkey) w creator =
    validate_remove_signatory w creator account_id pubkey
validate (set_account_permissions account_id new_permissions) w creator =
    creator.permissions.set_permissions
validate (set_quorum account_id new_quorum) w creator =
    ltb 0 new_quorum
    && ltb new_quorum 10
    && ((creator.account_id =ᵇ account_id) || creator.permissions.set_quorum)
validate (transfer_asset src dest asset_id amount) w creator =
    validate_transfer_asset w creator src dest asset_id amount
