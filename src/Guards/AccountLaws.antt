-- ===== src/Guards/AccountLaws.antt =====
-- What the account guards let through.
use deliveryways.Prelude.{ℕ, ◌≡◌, Bool, true, false, ◌&&◌, ◌||◌, not, some, arith, ok}
use deliveryways.Auth.{is_business_admin, is_branch_admin}
use deliveryways.Guards.Accounts.{
  Session, Marks, User, Accounts, is_deleted, is_staff_actor, is_deliveryman_actor, assigned_branch,
  assert_soft_delete_access, jwt_can_activate, verified_can_activate,
}

-- On a route with no mark, the session of a user passes both guards only where the token is valid,
-- the user's row is not deleted and is verified or a guest's, a business administrator is approved,
-- and the branch of a branch administrator is not deleted.
pub live_account :
    (marks : Marks) (authenticated : Bool) (session : Session) (row : User) (now : ℕ)
    (accounts : Accounts)
    → (marks.is_public || marks.allow_soft_deleted || marks.allow_unverified) ≡ false
    → is_staff_actor session.actor_type ≡ false
    → is_deliveryman_actor session.actor_type session.role ≡ false
    → accounts.user session.uid ≡ some row
    → jwt_can_activate marks authenticated (some session) now accounts ≡ ok true
    → verified_can_activate marks (some session) accounts ≡ ok true
    → (authenticated ≡ true)
      × (is_deleted (some row.deleted_at) ≡ false)
      × ((row.is_verified || row.is_guest) ≡ true)
      × ((is_business_admin row.role && not row.is_approved) ≡ false)
      × ((is_branch_admin row.role
            && is_deleted (assigned_branch row.branch_id row.tenant_id row.restaurant_id accounts))
          ≡ false)
unfolding jwt_can_activate verified_can_activate assert_soft_delete_access
live_account marks authenticated session row now accounts m s d u jwt verified = ground arith
