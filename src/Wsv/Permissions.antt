-- ===== src/Wsv/Permissions.antt =====
-- The column `permissions`: how impl/postgres_wsv_command.cpp writes it, and how
-- impl/postgres_wsv_query.cpp reads it.
use iroha.Prelude.{◌≡◌, refl, ℕ, Bool, true, false, not, ◌==◌, [], ◌∷◌, none, some, get_elem?, Blob}
use iroha.Model.Types.{Permissions}

-- `stream << bool` writes 1 or 0.
abbrev pub digit : Bool → ℕ
digit true = b'1'
digit false = b'0'

unfoldable pub write_permissions : Permissions → Blob
write_permissions p =
    digit p.add_signatory
    ∷ digit p.can_transfer
    ∷ digit p.create_accounts
    ∷ digit p.create_assets
    ∷ digit p.create_domains
    ∷ digit p.issue_assets
    ∷ digit p.read_all_accounts
    ∷ digit p.remove_signatory
    ∷ digit p.set_permissions
    ∷ digit p.set_quorum
    ∷ []

-- `permissions.at(i) - '0'` as a bool. Every row has ten digits, so `at` does not throw.
abbrev pub bit_at : Blob → ℕ → Bool
bit_at s i = elim (get_elem? s i) [ none ↦ false | some c ↦ not (c == b'0') ]

unfoldable pub read_permissions : Blob → Permissions
read_permissions s = record {
  issue_assets = bit_at s 5;
  create_assets = bit_at s 3;
  create_accounts = bit_at s 2;
  create_domains = bit_at s 4;
  read_all_accounts = bit_at s 6;
  add_signatory = bit_at s 0;
  remove_signatory = bit_at s 7;
  set_permissions = bit_at s 8;
  set_quorum = bit_at s 9;
  can_transfer = bit_at s 1;
}

digit_lem : (b : Bool) → not (digit b == b'0') ≡ b
digit_lem true = refl
digit_lem false = refl

-- The text that is written for the permissions of an account is read back as those permissions.
pub read_permissions-write_permissions :
    (p : Permissions) → read_permissions (write_permissions p) ≡ p
unfolding read_permissions write_permissions
read_permissions-write_permissions p = λ i. record {
  issue_assets = digit_lem p.issue_assets i;
  create_assets = digit_lem p.create_assets i;
  create_accounts = digit_lem p.create_accounts i;
  create_domains = digit_lem p.create_domains i;
  read_all_accounts = digit_lem p.read_all_accounts i;
  add_signatory = digit_lem p.add_signatory i;
  remove_signatory = digit_lem p.remove_signatory i;
  set_permissions = digit_lem p.set_permissions i;
  set_quorum = digit_lem p.set_quorum i;
  can_transfer = digit_lem p.can_transfer i;
}
