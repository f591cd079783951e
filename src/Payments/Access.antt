-- ===== src/Payments/Access.antt =====
-- payments.service.ts: who may act on a payment.
use deliveryways.Prelude.{
  ℕ, Bool, true, false, ◌&&◌, not, Option, none, some, ◌==◌, if◌then◌else◌, Outcome, ok, err,
  throw_if, ◌>>◌,
}
use deliveryways.Auth.{
  is_super_admin, is_business_admin, is_branch_admin, is_customer, AuthUserContext, is_id,
}
use deliveryways.Payments.Store.{
  Db, PaymentError, no_tenant, outside_tenant, not_permitted, no_restaurant, outside_restaurant,
  cross_customer,
}
use deliveryways.Guards.TenantLaws.{owner}

-- The tenant rule of a business admin: the restaurant, not deleted, is one of the tenant's.
abbrev business_admin_access : Option ℕ → ℕ → Db → Outcome PaymentError (Unit {0})
business_admin_access none restaurant db = err no_tenant
business_admin_access (some tid) restaurant db =
    throw_if (not (is_id tid (db.orders.restaurant_tenant restaurant))) outside_tenant

-- The rule of a branch admin, whose restaurant is the one of the token.
abbrev branch_admin_access : Option ℕ → ℕ → Outcome PaymentError (Unit {0})
branch_admin_access none restaurant = err no_restaurant
branch_admin_access (some rid) restaurant = throw_if (not (restaurant == rid)) outside_restaurant

unfoldable pub assert_admin_payment_access :
    AuthUserContext → ℕ → Bool → Db → Outcome PaymentError (Unit {0})
assert_admin_payment_access user restaurant allow_branch_admin db =
    if is_super_admin user.role
    then ok tt
    else (if is_business_admin user.role
        then business_admin_access user.tid restaurant db
        else (throw_if (not (allow_branch_admin && is_branch_admin user.role)) not_permitted
            >> branch_admin_access user.rid restaurant))

-- `user.rid && user.rid !== restaurantId`
abbrev is_elsewhere : Option ℕ → ℕ → Bool
is_elsewhere none restaurant = false
is_elsewhere (some rid) restaurant = not (rid == restaurant)

unfoldable pub assert_order_access : AuthUserContext → ℕ → ℕ → Db → Outcome PaymentError (Unit {0})
assert_order_access user restaurant owner db =
    if is_super_admin user.role
    then ok tt
    else (if is_customer user.role
        then (throw_if (not (user.uid == owner)) cross_customer
            >> throw_if (is_elsewhere user.rid restaurant) outside_restaurant)
        else assert_admin_payment_access user restaurant true db)
