-- ===== src/Admin.antt =====
-- contracts/soroban-utils/src/utils.rs: the change of administrator that the contracts share, and
-- the host's authorisations.
use veil_server_v.Prelude.{ℕ, Bool, Option, some, Outcome, ok, ◌>>=◌, ◌>>◌, unwrap, require}

abbrev pub Address : Type 0
Address = ℕ

-- Which addresses have authorised the call: `require_auth` traps for any other.
abbrev pub Auth : Type 0
Auth = Address → Bool

-- The new content of the admin key. An unset key is a panic.
unfoldable pub update_admin :
    {E : Type 0} → Auth → Option Address → Address → Outcome E (Option Address)
update_admin auth admin_key new_admin = do
  admin ← unwrap admin_key
  require (auth admin)
  ok (some new_admin)
