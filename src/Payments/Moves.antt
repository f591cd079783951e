-- ===== src/Payments/Moves.antt =====
-- payments.service.ts: how a payout request moves through its review, and that a payment is credited
-- once.
use deliveryways.Prelude.{
  ℕ, ◌≡◌, refl, sym, subst, inl, inr, true, false, Option, some, arith, Bool-cases, ok,
}
use deliveryways.Auth.{AuthUserContext}
use deliveryways.Payments.Handlers.{balance_of, credit_restaurant_wallet_for_payment}
use deliveryways.Payments.Payouts.{
  is_requested, is_approved, is_paid_out, reviewed, approve_restaurant_payout_request,
  reject_restaurant_payout_request, settled, checked_completion, complete_restaurant_payout_request,
  mark_restaurant_payout_paid,
}
use deliveryways.Payments.Store.{
  PaymentTransaction, RestaurantPayoutRequestStatus, requested, approved, rejected, paid_out,
  withdrawn, RestaurantPayoutRequest, Db, Result,
}
use deliveryways.Wallet.Once.{is_id_self}

-- The diagram of a request's status.
pub data PayoutMove : RestaurantPayoutRequestStatus → RestaurantPayoutRequestStatus → Type 0 where
  approval : PayoutMove requested approved
  rejection : PayoutMove requested rejected
  payment : PayoutMove approved paid_out
  repeated_payment : PayoutMove paid_out paid_out

-- The calls of the super administrator about a request.
pub data Review : Type 0 where
  approve reject pay : Review

abbrev pub review : Review → AuthUserContext → ℕ → Db → Result (Unit {0})
review approve user q db = approve_restaurant_payout_request user q db
review reject user q db = reject_restaurant_payout_request user q db
review pay user q db = mark_restaurant_payout_paid user q db

-- The request after a call that has returned.
pub record IsReviewed (row : RestaurantPayoutRequest) (after : Option RestaurantPayoutRequest)
    : Type 0 where
  pub row' : RestaurantPayoutRequest
  pub found : after ≡ some row'
  pub move : PayoutMove row.status row'.status
  pub same_amount : row'.amount ≡ row.amount
  pub same_restaurant : row'.restaurant_id ≡ row.restaurant_id

is_requested_sound : (s : RestaurantPayoutRequestStatus) → is_requested s ≡ true → s ≡ requested
is_requested_sound requested e = refl
is_requested_sound approved e = absurd (cc e)
is_requested_sound rejected e = absurd (cc e)
is_requested_sound paid_out e = absurd (cc e)
is_requested_sound withdrawn e = absurd (cc e)

is_approved_sound : (s : RestaurantPayoutRequestStatus) → is_approved s ≡ true → s ≡ approved
is_approved_sound requested e = absurd (cc e)
is_approved_sound approved e = refl
is_approved_sound rejected e = absurd (cc e)
is_approved_sound paid_out e = absurd (cc e)
is_approved_sound withdrawn e = absurd (cc e)

is_paid_out_sound : (s : RestaurantPayoutRequestStatus) → is_paid_out s ≡ true → s ≡ paid_out
is_paid_out_sound requested e = absurd (cc e)
is_paid_out_sound approved e = absurd (cc e)
is_paid_out_sound rejected e = absurd (cc e)
is_paid_out_sound paid_out e = refl
is_paid_out_sound withdrawn e = absurd (cc e)

module _ (user : AuthUserContext) (q : ℕ) (db : Db) {row : RestaurantPayoutRequest} where
  approved_row :
      db.payout_request q ≡ some row
      → (approve_restaurant_payout_request user q db).0 ≡ ok tt
      → (is_requested row.status ≡ true)
        × ((approve_restaurant_payout_request user q db).1.payout_request q
            ≡ some (reviewed user.uid approved row))
  unfolding approve_restaurant_payout_request
  approved_row found e = ground arith

  rejected_row :
      db.payout_request q ≡ some row
      → (reject_restaurant_payout_request user q db).0 ≡ ok tt
      → (is_requested row.status ≡ true)
        × ((reject_restaurant_payout_request user q db).1.payout_request q
            ≡ some (reviewed user.uid rejected row))
  unfolding reject_restaurant_payout_request
  rejected_row found e = ground arith

  paid_row :
      db.payout_request q ≡ some row
      → is_paid_out row.status ≡ false
      → (mark_restaurant_payout_paid user q db).0 ≡ ok tt
      → (is_approved row.status ≡ true)
        × ((mark_restaurant_payout_paid user q db).1.payout_request q ≡ some (settled user.uid row))
  unfolding mark_restaurant_payout_paid checked_completion complete_restaurant_payout_request
  paid_row found f e = ground arith

  paid_again :
      db.payout_request q ≡ some row
      → is_paid_out row.status ≡ true
      → (mark_restaurant_payout_paid user q db).1.payout_request q ≡ some row
  unfolding mark_restaurant_payout_paid checked_completion complete_restaurant_payout_request
  paid_again found t = ground arith

-- A review of a request that returns moves its status along the diagram, from requested to approved
-- or rejected, from approved to paid, or again to paid, and leaves its amount and restaurant.
pub review-IsReviewed :
    (k : Review) (user : AuthUserContext) (q : ℕ) (row : RestaurantPayoutRequest) (db : Db)
    → db.payout_request q ≡ some row
    → (review k user q db).0 ≡ ok tt
    → IsReviewed row ((review k user q db).1.payout_request q)
review-IsReviewed approve user q row db found e =
    let (t, f) = approved_row user q db found e in
    record {
      row' = reviewed user.uid approved row;
      found = f;
      move = subst (λ s. PayoutMove s approved) (sym (is_requested_sound row.status t)) approval;
      same_amount = refl;
      same_restaurant = refl;
    }
review-IsReviewed reject user q row db found e =
    let (t, f) = rejected_row user q db found e in
    record {
      row' = reviewed user.uid rejected row;
      found = f;
      move = subst (λ s. PayoutMove s rejected) (sym (is_requested_sound row.status t)) rejection;
      same_amount = refl;
      same_restaurant = refl;
    }
review-IsReviewed pay user q row db found e = elim (Bool-cases (is_paid_out row.status)) [
  | inl t ↦
      let status = is_paid_out_sound row.status t in
      record {
        row' = row;
        found = paid_again user q db found t;
        move = rw status repeated_payment;
        same_amount = refl;
        same_restaurant = refl;
      }
  | inr n ↦
      let (t, f) = paid_row user q db found n e in
      record {
        row' = settled user.uid row;
        found = f;
        move = subst (λ s. PayoutMove s paid_out) (sym (is_approved_sound row.status t)) payment;
        same_amount = refl;
        same_restaurant = refl;
      }
]

-- A payment is credited to its restaurant once: a second credit of the same payment leaves the
-- balance of every restaurant and the rows as the first one left them.
pub credit_once :
    (p : PaymentTransaction) (r : ℕ) (db : Db)
    → let first = credit_restaurant_wallet_for_payment p db in
      let second = credit_restaurant_wallet_for_payment p first in
      (balance_of r second ≡ balance_of r first)
      × (second.wallet_transactions ≡ first.wallet_transactions)
unfolding credit_restaurant_wallet_for_payment
credit_once p r db = ground (arith, is_id_self p.id)
