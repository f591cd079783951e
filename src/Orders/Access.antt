-- ===== src/Orders/Access.antt =====
-- orders.service.ts: who may act on an order.
use deliveryways.Prelude.{
  ℕ, Bool, true, false, not, Option, none, some, ◌==◌, if◌then◌else◌, ok, err, throw_if, ◌>>◌,
}
use deliveryways.Auth.{
  UserRole, branch_admin, deliveryman, AuthUserContext, is_id, is_super_admin, is_business_admin,
  is_customer,
}
use deliveryways.Orders.Store.{
  Db, cross_deliveryman, no_tenant, outside_tenant, outside_restaurant, outside_branch,
  customer_action, cross_customer, Check,
}

abbrev pub is_deliveryman : UserRole → Bool
is_deliveryman deliveryman = true
is_deliveryman _ = false

-- `assertRestaurantInTenant`
abbrev pub assert_restaurant_in_tenant : ℕ → ℕ → Db → Check
assert_restaurant_in_tenant tenant restaurant db =
    throw_if (not (is_id tenant (db.restaurant_tenant restaurant))) outside_tenant

-- The tenant rule of a business admin.
abbrev pub business_admin_access : Option ℕ → ℕ → Db → Check
business_admin_access none restaurant db = err no_tenant
business_admin_access (some tenant) restaurant db = assert_restaurant_in_tenant tenant restaurant db

abbrev pub is_other_branch : UserRole → Option ℕ → ℕ → Bool
is_other_branch branch_admin (some bid) branch = not (bid == branch)
is_other_branch _ _ branch = false

unfoldable pub ensure_branch_access : AuthUserContext → ℕ → ℕ → Db → Check
ensure_branch_access user restaurant branch db =
    if is_super_admin user.role
    then ok tt
    else ((if is_business_admin user.role
          then business_admin_access user.tid restaurant db
          else throw_if (not (is_id restaurant user.rid)) outside_restaurant)
        >> throw_if (is_other_branch user.role user.bid branch) outside_branch)

unfoldable pub assert_order_access : AuthUserContext → ℕ → ℕ → Bool → Db → Check
assert_order_access user restaurant owner admin_only db =
    if is_super_admin user.role
    then ok tt
    else (if is_customer user.role
        then (throw_if admin_only customer_action
            >> throw_if (not (user.uid == owner)) cross_customer)
        else (if is_business_admin user.role
            then business_admin_access user.tid restaurant db
            else throw_if (not (is_id restaurant user.rid)) outside_restaurant))

abbrev pub assert_deliveryman_order_access : AuthUserContext → Option ℕ → Check
assert_deliveryman_order_access user assigned =
    throw_if (not (is_id user.uid assigned)) cross_deliveryman
