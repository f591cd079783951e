-- ===== src/Guards/Tests.antt =====
-- The guards at a concrete request: a branch administrator of tenant 5 reads restaurant 1.
use deliveryways.Prelude.{◌≡◌, refl, true, false, ◌&&◌, ◌||◌, not, none, some, ok, err}
use deliveryways.Auth.{
  branch_admin, AuthUserContext, is_branch_admin, is_business_admin, is_customer,
}
use deliveryways.Guards.Accounts.{
  Session, Marks, User, Accounts, deletion_scheduled, is_deleted, assigned_branch,
  assert_soft_delete_access, jwt_can_activate, verified_can_activate,
}
use deliveryways.Guards.AccountLaws.{live_account}
use deliveryways.Guards.TenantAccess.{
  absent, empty, given, truthy, Request, Tenants, foreign_restaurant, conflicts, restaurants_text,
  validate_payload_tenant, validate_resource_tenant, requested_branch, requested_restaurant,
  validate_role_scope, can_activate,
}
use deliveryways.Guards.TenantLaws.{owner, can_activate_lem}

abbrev user : AuthUserContext
user = record { uid = 40; role = branch_admin; tid = some 5; rid = some 1; bid = some 2 }

abbrev request : Request
request = record {
  user = some user;
  tenant_context = some 5;
  body_tenant_id = none;
  query_tenant_id = some 5;
  body_branch_id = absent;
  query_branch_id = given 2;
  params_branch_id = absent;
  body_restaurant_id = absent;
  query_restaurant_id = absent;
  id = some 1;
  route_path = restaurants_text;
}

abbrev tenants : Tenants
tenants = record { restaurant = λ r. some 5; branch = λ b. none }

abbrev foreign : Tenants
foreign = record { restaurant = λ r. some 6; branch = λ b. none }

admits_test : can_activate request tenants ≡ ok tt
unfolding can_activate validate_payload_tenant validate_resource_tenant validate_role_scope
admits_test = refl

refuses_test : can_activate request foreign ≡ err foreign_restaurant
unfolding can_activate validate_payload_tenant validate_resource_tenant validate_role_scope
refuses_test = refl

-- An empty branch id in the body hides the one of the query.
hidden_test :
    can_activate (record request { body_branch_id = empty; query_branch_id = given 9 }) tenants
    ≡ ok tt
unfolding can_activate validate_payload_tenant validate_resource_tenant validate_role_scope
hidden_test = refl

can_activate_lem_example :
    (conflicts (some 5) (some 5) ≡ false)
    × (conflicts none (some 5) ≡ false)
    × (conflicts (some 5) (some 5) ≡ false)
    × (conflicts (owner 1 restaurants_text tenants) (some 5) ≡ false)
    × ((is_branch_admin user.role && conflicts (truthy (requested_branch request)) user.bid)
        ≡ false)
    × ((is_customer user.role && conflicts (truthy (requested_restaurant request)) user.rid)
        ≡ false)
can_activate_lem_example = can_activate_lem request user tenants 5 1 refl refl refl refl admits_test

abbrev admin_row : User
admin_row = record {
  deleted_at = none;
  delete_after = none;
  role = branch_admin;
  tenant_id = some 5;
  restaurant_id = some 1;
  branch_id = some 2;
  is_verified = true;
  is_guest = false;
  is_approved = false;
}

abbrev accounts : Accounts
accounts = record {
  staff = λ id. none;
  deliveryman = λ id. none;
  user = λ id. some admin_row;
  branch = λ b t r. some none;
}

abbrev session : Session
session = record { uid = 40; actor_type = none; role = branch_admin }

abbrev unmarked : Marks
unmarked = record { is_public = false; allow_soft_deleted = false; allow_unverified = false }

scheduled_test :
    jwt_can_activate unmarked true (some session) 1000 (record accounts {
      user = λ id. some (record admin_row { deleted_at = some 900; delete_after = some 2000 });
    })
    ≡ err deletion_scheduled
unfolding jwt_can_activate assert_soft_delete_access
scheduled_test = refl

jwt_test : jwt_can_activate unmarked true (some session) 1000 accounts ≡ ok true
unfolding jwt_can_activate assert_soft_delete_access
jwt_test = refl

verified_test : verified_can_activate unmarked (some session) accounts ≡ ok true
unfolding verified_can_activate
verified_test = refl

live_account_example :
    (true ≡ true)
    × (is_deleted (some admin_row.deleted_at) ≡ false)
    × ((admin_row.is_verified || admin_row.is_guest) ≡ true)
    × ((is_business_admin admin_row.role && not admin_row.is_approved) ≡ false)
    × ((is_branch_admin admin_row.role
          && is_deleted (
              assigned_branch admin_row.branch_id admin_row.tenant_id admin_row.restaurant_id
                accounts))
        ≡ false)
live_account_example =
    live_account unmarked true session admin_row 1000 accounts refl refl refl refl jwt_test
      verified_test
