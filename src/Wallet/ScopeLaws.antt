-- ===== src/Wallet/ScopeLaws.antt =====
-- Which customers an administrator may adjust.
use deliveryways.Prelude.{ℕ, ◌≡◌, ◌⊎◌, true, false, some, arith, ok}
use deliveryways.Auth.{AuthUserContext, is_super_admin, is_business_admin, is_branch_admin}
use deliveryways.Wallet.Store.{Db, Customer, running}
use deliveryways.Wallet.Accounts.{is_managed, differs, resolve_admin_managed_customer}

-- An administrator's adjustment resolves to a customer only within the administrator's scope: the
-- customer is that of the id, neither deleted nor inactive, and of the role customer; a business
-- administrator has the customer's tenant; a branch administrator has the customer's restaurant,
-- and no other branch where both have one. Nobody else passes but a super administrator.
pub resolve_admin_managed_customer_lem :
    (user : AuthUserContext) (id : ℕ) (db : Db) {c : Customer}
    → (resolve_admin_managed_customer user id db).0 ≡ ok c
    → (db.customer id ≡ some c)
      × (is_managed c ≡ true)
      × ((is_super_admin user.role ≡ true)
          ⊎ ((is_business_admin user.role ≡ true) × (c.tenant_id ≡ user.tid))
          ⊎ ((is_branch_admin user.role ≡ true)
              × (c.restaurant_id ≡ user.rid)
              × (differs user.bid c.branch_id ≡ false)))
unfolding resolve_admin_managed_customer running
resolve_admin_managed_customer_lem user id db h = ground arith
