-- ===== src/Payments/Authority.antt =====
-- payments.service.ts: a call about a payment by somebody who has no part in it.
use deliveryways.Prelude.{
  ℕ, ◌≡◌, refl, ◌≢◌, Bool, true, ◌&&◌, not, Option, none, some, arith, Outcome, ok, err, subst,
  false, bind_ok,
}
use deliveryways.Auth.{
  AuthUserContext, is_super_admin, is_business_admin, is_branch_admin, is_customer,
}
use deliveryways.Payments.History.{
  reports_succeeded, reports_failed, reports_cancelled, requests_payout, approves_payout,
  rejects_payout, pays_payout, updates_status, Request, marks_paid, fails, cancels_payment,
  refunds_payment, perform,
}
use deliveryways.Payments.Webhooks.{checked_update_status, update_status}
use deliveryways.Payments.Handlers.{
  checked_payment, checked_mark_paid, mark_paid, checked_fail, fail, checked_cancel, cancel,
  checked_refund, refund_payment,
}
use deliveryways.Payments.Access.{assert_admin_payment_access, assert_order_access}
use deliveryways.Payments.Store.{PaymentTransaction, Db, PaymentError, Result, checked}
use deliveryways.Wallet.Store.{PaymentStatus}

-- Somebody who is no administrator and no customer: staff, or a deliveryman.
abbrev pub is_outsider : AuthUserContext → Bool
is_outsider user =
    not (is_super_admin user.role)
    && (not (is_business_admin user.role)
        && (not (is_branch_admin user.role) && not (is_customer user.role)))

-- The user of a call about a payment.
abbrev pub payer_of : Request → Option AuthUserContext
payer_of (marks_paid user id dto now) = some user
payer_of (fails user id dto) = some user
payer_of (cancels_payment cancels user id dto now) = some user
payer_of (refunds_payment refunds user id asked dto now) = some user
payer_of (updates_status cancels user id status dto now) = some user
payer_of _ = none

module _ (user : AuthUserContext) (id : ℕ) (db : Db) (h : is_outsider user ≡ true) where
  checked_payment-refused :
      (allow : Bool) {x : PaymentTransaction × ℕ} → checked_payment user id allow db ≢ ok x
  unfolding checked_payment assert_admin_payment_access
  checked_payment-refused allow e = ground arith

  checked_cancel-refused : {x : PaymentTransaction × ℕ} → checked_cancel user id db ≢ ok x
  unfolding checked_cancel assert_admin_payment_access assert_order_access
  checked_cancel-refused e = ground arith

  update-refused :
      (status : PaymentStatus) {p : PaymentTransaction}
      → checked_update_status user id status db ≢ ok p
  unfolding checked_update_status assert_admin_payment_access
  update-refused status e = ground arith

  checked_mark_paid-refused : {x : PaymentTransaction × ℕ} → checked_mark_paid user id db ≢ ok x
  unfolding checked_mark_paid
  checked_mark_paid-refused k =
      let (y, hy, rest) = bind_ok (checked_payment user id true db) _ k in
      checked_payment-refused true hy

  checked_fail-refused : {x : PaymentTransaction × ℕ} → checked_fail user id db ≢ ok x
  unfolding checked_fail
  checked_fail-refused k =
      let (y, hy, rest) = bind_ok (checked_payment user id true db) _ k in
      checked_payment-refused true hy

  checked_refund-refused :
      (asked : Option ℕ) {x : PaymentTransaction × ℕ} → checked_refund user id asked db ≢ ok x
  unfolding checked_refund
  checked_refund-refused asked k =
      let (y, hy, rest) = bind_ok (checked_payment user id false db) _ k in
      checked_payment-refused false hy

-- A call whose check never lets it go on throws and changes nothing.
checked-same {ℓ} :
    {A : Type ℓ} (db : Db) (o : Outcome PaymentError A) (f : A → Result (Unit {0}))
    → ((a : A) → o ≢ ok a)
    → (e : PaymentError) × (checked db o f ≡ (err e, db))
checked-same db (ok a) f k = absurd (k a refl)
checked-same db (err e) f k = (e, refl)

same_outsider :
    (user u : AuthUserContext)
    → ◌≡◌ {A = Option AuthUserContext} (some user) (some u)
    → is_outsider u ≡ true
    → is_outsider user ≡ true
same_outsider user u e h =
    let same_user : u ≡ user = cc e in subst (λ v. is_outsider v ≡ true) same_user h

-- A call about a payment by staff or a deliveryman throws before it has written anything or called
-- Stripe: it leaves every table as it was.
pub outsider_changes_nothing :
    (q : Request) (user : AuthUserContext) (db : Db)
    → payer_of q ≡ some user
    → is_outsider user ≡ true
    → (e : PaymentError) × (perform q db ≡ (err e, db))
unfolding perform mark_paid fail cancel refund_payment update_status
outsider_changes_nothing (marks_paid user id dto now) u db e h =
    checked-same db (checked_mark_paid user id db) _
      λ a. checked_mark_paid-refused user id db (same_outsider user u e h)
outsider_changes_nothing (fails user id dto) u db e h =
    checked-same db (checked_fail user id db) _
      λ a. checked_fail-refused user id db (same_outsider user u e h)
outsider_changes_nothing (cancels_payment cancels user id dto now) u db e h =
    checked-same db (checked_cancel user id db) _
      λ a. checked_cancel-refused user id db (same_outsider user u e h)
outsider_changes_nothing (refunds_payment refunds user id asked dto now) u db e h =
    checked-same db (checked_refund user id asked db) _
      λ a. checked_refund-refused user id db (same_outsider user u e h) asked
outsider_changes_nothing (updates_status cancels user id status dto now) u db e h =
    checked-same db (checked_update_status user id status db) _
      λ a. update-refused user id db (same_outsider user u e h) status
outsider_changes_nothing (reports_succeeded _ _ _ _) u db e h = absurd (cc e)
outsider_changes_nothing (reports_failed _ _ _) u db e h = absurd (cc e)
outsider_changes_nothing (reports_cancelled _ _ _) u db e h = absurd (cc e)
outsider_changes_nothing (requests_payout _ _ _) u db e h = absurd (cc e)
outsider_changes_nothing (approves_payout _ _) u db e h = absurd (cc e)
outsider_changes_nothing (rejects_payout _ _) u db e h = absurd (cc e)
outsider_changes_nothing (pays_payout _ _) u db e h = absurd (cc e)
