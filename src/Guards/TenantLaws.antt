-- ===== src/Guards/TenantLaws.antt =====
-- What a request that the tenant guard admits may name.
use deliveryways.Prelude.{
  ℕ, ◌≡◌, false, ◌&&◌, Option, none, some, List, arith, if◌then◌else◌, has_part, ok,
}
use deliveryways.Auth.{AuthUserContext, is_super_admin, is_branch_admin, is_customer}
use deliveryways.Guards.TenantAccess.{
  Request, Tenants, conflicts, truthy, tenants_text, restaurants_text, branches_text,
  validate_payload_tenant, validate_resource_tenant, requested_branch, requested_restaurant,
  validate_role_scope, can_activate,
}

-- The tenant that owns what the path and the id of a request name, where the guard knows one.
abbrev pub owner : ℕ → List ℕ → Tenants → Option ℕ
owner id path tenants =
    if has_part tenants_text path
    then some id
    else (if has_part restaurants_text path
        then tenants.restaurant id
        else (if has_part branches_text path then tenants.branch id else none))

-- A request with an id, whose user has a tenant and is no super administrator, is admitted only
-- where no tenant it names is another one: not the one it was routed to, not the one of its body or
-- its query, and not the owner of the tenant, restaurant or branch of its path. A branch
-- administrator with a branch asks for no other branch in the first of body, query and path that has
-- a branch id, be it the empty text, and a customer with a restaurant for no other restaurant in the
-- same way.
pub can_activate_lem :
    (request : Request) (user : AuthUserContext) (tenants : Tenants) (tid id : ℕ)
    → request.user ≡ some user
    → user.tid ≡ some tid
    → request.id ≡ some id
    → is_super_admin user.role ≡ false
    → can_activate request tenants ≡ ok tt
    → (conflicts request.tenant_context (some tid) ≡ false)
      × (conflicts request.body_tenant_id (some tid) ≡ false)
      × (conflicts request.query_tenant_id (some tid) ≡ false)
      × (conflicts (owner id request.route_path tenants) (some tid) ≡ false)
      × ((is_branch_admin user.role && conflicts (truthy (requested_branch request)) user.bid)
          ≡ false)
      × ((is_customer user.role && conflicts (truthy (requested_restaurant request)) user.rid)
          ≡ false)
unfolding can_activate validate_payload_tenant validate_resource_tenant validate_role_scope
can_activate_lem request user tenants tid id u t i s h = ground arith
