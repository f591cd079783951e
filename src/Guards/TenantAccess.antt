-- ===== src/Guards/TenantAccess.antt =====
-- src/common/guards/tenant-access.guard.ts: a request stays in the tenant of its user.
use deliveryways.Prelude.{
  ℕ, Bool, false, ◌&&◌, not, Option, none, some, List, [], ◌∷◌, ◌==◌, if◌then◌else◌, has_part,
  Outcome, ok, throw_if, ◌>>◌,
}
use deliveryways.Auth.{AuthUserContext, is_super_admin, is_branch_admin, is_customer}

-- A field that may be absent or the empty text: `??` passes over the first only, a test for truth
-- over both.
pub data Field : Type 0 where
  absent empty : Field
  given : ℕ → Field

-- What the guard reads of a request. An empty text counts as absent where the guard does not tell
-- them apart. The path is the route's, or the URL where there is none.
pub record Request : Type 0 where
  pub user : Option AuthUserContext
  pub tenant_context : Option ℕ
  pub body_tenant_id : Option ℕ
  pub query_tenant_id : Option ℕ
  pub body_branch_id : Field
  pub query_branch_id : Field
  pub params_branch_id : Field
  pub body_restaurant_id : Field
  pub query_restaurant_id : Field
  pub id : Option ℕ
  pub route_path : List ℕ

-- The tenants of the restaurants and the branches.
pub record Tenants : Type 0 where
  pub restaurant : ℕ → Option ℕ
  pub branch : ℕ → Option ℕ

pub data GuardError : Type 0 where
  outside_context body_mismatch query_mismatch other_tenant : GuardError
  foreign_restaurant foreign_branch not_own_branch not_own_restaurant : GuardError

-- `a && b && a !== b`
abbrev pub conflicts : Option ℕ → Option ℕ → Bool
conflicts (some a) (some b) = not (a == b)
conflicts _ _ = false

-- `a ?? b`
abbrev pub or_else : Field → Field → Field
or_else absent b = b
or_else empty b = empty
or_else (given a) b = given a

-- The field where it counts as true.
abbrev pub truthy : Field → Option ℕ
truthy (given a) = some a
truthy _ = none

abbrev pub tenants_text : List ℕ
tenants_text = b't' ∷ b'e' ∷ b'n' ∷ b'a' ∷ b'n' ∷ b't' ∷ b's' ∷ []

abbrev pub restaurants_text : List ℕ
restaurants_text = b'r' ∷ b'e' ∷ b's' ∷ b't' ∷ b'a' ∷ b'u' ∷ b'r' ∷ b'a' ∷ b'n' ∷ b't' ∷ b's' ∷ []

abbrev pub branches_text : List ℕ
branches_text = b'b' ∷ b'r' ∷ b'a' ∷ b'n' ∷ b'c' ∷ b'h' ∷ b'e' ∷ b's' ∷ []

unfoldable pub validate_payload_tenant : Option ℕ → Request → Outcome GuardError (Unit {0})
validate_payload_tenant tid request =
    throw_if (conflicts request.body_tenant_id tid) body_mismatch
    >> throw_if (conflicts request.query_tenant_id tid) query_mismatch

-- The check of the resource of the path, for a user with a tenant and a path with an id.
abbrev pub validate_resource : ℕ → ℕ → List ℕ → Tenants → Outcome GuardError (Unit {0})
validate_resource tid id path tenants =
    if has_part tenants_text path
    then throw_if (not (id == tid)) other_tenant
    else (if has_part restaurants_text path
        then throw_if (conflicts (tenants.restaurant id) (some tid)) foreign_restaurant
        else (if has_part branches_text path
            then throw_if (conflicts (tenants.branch id) (some tid)) foreign_branch
            else ok tt))

abbrev resource_of : Option ℕ → Option ℕ → List ℕ → Tenants → Outcome GuardError (Unit {0})
resource_of (some tid) (some id) path tenants = validate_resource tid id path tenants
resource_of _ _ path tenants = ok tt

unfoldable pub validate_resource_tenant :
    Option ℕ → Request → Tenants → Outcome GuardError (Unit {0})
validate_resource_tenant tid request tenants = resource_of tid request.id request.route_path tenants

abbrev pub requested_branch : Request → Field
requested_branch request =
    or_else request.body_branch_id (or_else request.query_branch_id request.params_branch_id)

abbrev pub requested_restaurant : Request → Field
requested_restaurant request = or_else request.body_restaurant_id request.query_restaurant_id

unfoldable pub validate_role_scope : AuthUserContext → Request → Outcome GuardError (Unit {0})
validate_role_scope user request =
    throw_if (is_branch_admin user.role && conflicts (truthy (requested_branch request)) user.bid)
      not_own_branch
    >> throw_if
        (is_customer user.role && conflicts (truthy (requested_restaurant request)) user.rid)
        not_own_restaurant

abbrev admit : AuthUserContext → Request → Tenants → Outcome GuardError (Unit {0})
admit user request tenants =
    if is_super_admin user.role
    then ok tt
    else (throw_if (conflicts request.tenant_context user.tid) outside_context
        >> validate_payload_tenant user.tid request
        >> validate_resource_tenant user.tid request tenants
        >> validate_role_scope user request)

unfoldable pub can_activate : Request → Tenants → Outcome GuardError (Unit {0})
can_activate request tenants = elim request.user [
  | none ↦ ok tt
  | some user ↦ admit user request tenants
]
