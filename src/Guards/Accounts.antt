-- ===== src/Guards/Accounts.antt =====
-- src/common/guards/jwt-auth.guard.ts and verified-user.guard.ts: the account behind a request.
-- Whether the token is valid is an argument, since passport checks it.
use deliveryways.Prelude.{
  ℕ, Bool, true, false, ◌&&◌, ◌||◌, not, Option, none, some, ltb, if◌then◌else◌, Outcome, ok, err,
  throw_if, ◌>>◌,
}
use deliveryways.Auth.{UserRole, deliveryman, is_business_admin, is_branch_admin}

pub data ActorType : Type 0 where
  user_actor staff_actor deliveryman_actor : ActorType

pub record Session : Type 0 where
  pub uid : ℕ
  pub actor_type : Option ActorType
  pub role : UserRole

-- The marks of a route.
pub record Marks : Type 0 where
  pub is_public : Bool
  pub allow_soft_deleted : Bool
  pub allow_unverified : Bool

pub record User : Type 0 where
  pub deleted_at : Option ℕ
  pub delete_after : Option ℕ
  pub role : UserRole
  pub tenant_id : Option ℕ
  pub restaurant_id : Option ℕ
  pub branch_id : Option ℕ
  pub is_verified : Bool
  pub is_guest : Bool
  pub is_approved : Bool

-- The `deletedAt` of the staff, the deliverymen and the branches, and the rows of the users. A
-- branch is looked up with its tenant and its restaurant.
pub record Accounts : Type 0 where
  pub staff : ℕ → Option (Option ℕ)
  pub deliveryman : ℕ → Option (Option ℕ)
  pub user : ℕ → Option User
  pub branch : ℕ → ℕ → ℕ → Option (Option ℕ)

pub data AccountError : Type 0 where
  staff_deleted deliveryman_deleted account_deleted deletion_scheduled : AccountError
  branch_deleted not_verified pending_approval : AccountError

-- `row?.deletedAt`
abbrev pub is_deleted : Option (Option ℕ) → Bool
is_deleted (some (some at)) = true
is_deleted (some none) = false
is_deleted none = false

abbrev pub is_staff_actor : Option ActorType → Bool
is_staff_actor (some staff_actor) = true
is_staff_actor _ = false

abbrev is_deliveryman_role : UserRole → Bool
is_deliveryman_role deliveryman = true
is_deliveryman_role _ = false

abbrev pub is_deliveryman_actor : Option ActorType → UserRole → Bool
is_deliveryman_actor (some deliveryman_actor) role = true
is_deliveryman_actor _ role = is_deliveryman_role role

-- `dbUser.deleteAfter && dbUser.deleteAfter > new Date()`
abbrev is_scheduled : Option ℕ → ℕ → Bool
is_scheduled none now = false
is_scheduled (some at) now = ltb now at

-- The branch of a branch administrator, where the row names it in full.
abbrev pub assigned_branch : Option ℕ → Option ℕ → Option ℕ → Accounts → Option (Option ℕ)
assigned_branch (some b) (some t) (some r) accounts = accounts.branch b t r
assigned_branch _ _ _ accounts = none

abbrev assert_user_access : Option User → ℕ → Accounts → Outcome AccountError (Unit {0})
assert_user_access none now accounts = ok tt
assert_user_access (some row) now accounts =
    if is_deleted (some row.deleted_at)
    then err (if is_scheduled row.delete_after now then deletion_scheduled else account_deleted)
    else throw_if
        (is_branch_admin row.role
          && is_deleted (assigned_branch row.branch_id row.tenant_id row.restaurant_id accounts))
        branch_deleted

unfoldable pub assert_soft_delete_access :
    Session → Bool → ℕ → Accounts → Outcome AccountError (Unit {0})
assert_soft_delete_access session allowed now accounts =
    if is_staff_actor session.actor_type
    then throw_if (is_deleted (accounts.staff session.uid) && not allowed) staff_deleted
    else (if is_deliveryman_actor session.actor_type session.role
        then throw_if (is_deleted (accounts.deliveryman session.uid) && not allowed)
            deliveryman_deleted
        else (if allowed
            then ok tt
            else assert_user_access (accounts.user session.uid) now accounts))

abbrev session_access : Option Session → Bool → ℕ → Accounts → Outcome AccountError (Unit {0})
session_access none allowed now accounts = ok tt
session_access (some session) allowed now accounts =
    assert_soft_delete_access session allowed now accounts

-- JwtAuthGuard.canActivate
unfoldable pub jwt_can_activate :
    Marks → Bool → Option Session → ℕ → Accounts → Outcome AccountError Bool
jwt_can_activate marks authenticated session now accounts =
    if marks.is_public
    then ok true
    else (if authenticated
        then session_access session marks.allow_soft_deleted now accounts >> ok true
        else ok false)

abbrev assert_verified : Option User → Outcome AccountError Bool
assert_verified none = ok true
assert_verified (some row) =
    throw_if (not row.is_verified && not row.is_guest) not_verified
    >> throw_if (is_business_admin row.role && not row.is_approved) pending_approval
    >> ok true

abbrev verified_session : Option Session → Accounts → Outcome AccountError Bool
verified_session none accounts = ok true
verified_session (some session) accounts = assert_verified (accounts.user session.uid)

-- VerifiedUserGuard.canActivate
unfoldable pub verified_can_activate : Marks → Option Session → Accounts → Outcome AccountError Bool
verified_can_activate marks session accounts =
    if marks.is_public || marks.allow_unverified then ok true else verified_session session accounts
