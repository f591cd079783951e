-- ===== src/Auth.antt =====
-- The identity that a request carries (src/common/decorators/current-user.decorator.ts) and its
-- roles (src/common/enums). Identifiers are only compared, so they are numbers.
use deliveryways.Prelude.{ℕ, Bool, true, false, Option, none, some, ◌==◌}

-- `RolesEnum`, which has the deliveryman beside the five of `UserRoleEnum`.
pub data UserRole : Type 0 where
  super_admin business_admin branch_admin customer staff deliveryman : UserRole

pub record AuthUserContext : Type 0 where
  pub uid : ℕ
  pub role : UserRole
  pub tid : Option ℕ
  pub rid : Option ℕ
  pub bid : Option ℕ

-- `a === b` where `b` may be absent
abbrev pub is_id : ℕ → Option ℕ → Bool
is_id a none = false
is_id a (some b) = a == b

abbrev pub is_super_admin : UserRole → Bool
is_super_admin super_admin = true
is_super_admin _ = false

abbrev pub is_business_admin : UserRole → Bool
is_business_admin business_admin = true
is_business_admin _ = false

abbrev pub is_branch_admin : UserRole → Bool
is_branch_admin branch_admin = true
is_branch_admin _ = false

abbrev pub is_customer : UserRole → Bool
is_customer customer = true
is_customer _ = false
