-- ===== src/Payments/Checks.antt =====
-- What the checks of payments.service.ts have found out once they let a handler go on.
use deliveryways.Wallet.Store as Benefits
use deliveryways.Prelude.{
  ℕ, ◌+◌, ◌≤◌, ◌≡◌, subst, inl, inr, Bool, true, false, not, Option, some, List, [], ◌∷◌, arith,
  ltb, ◌==◌, Bool-cases, find, ok, throw_if, or_throw, ◌>>◌, bind_ok, then_ok, throw_if_ok,
  or_throw_ok, ok_inj, sym,
}
use deliveryways.Auth.{AuthUserContext}
use deliveryways.Payments.Handlers.{
  is_charge, is_paid, order_of, checked_payment, refund_amount, checked_refund,
}
use deliveryways.Payments.Access.{assert_admin_payment_access}
use deliveryways.Payments.Store.{
  PaymentTransaction, Db, payment_not_found, order_required, only_charges, not_paid, exceeds_charge,
  exceeds_remaining, find_payment, sum_successful_refunds,
}
use deliveryways.Wallet.Store.{refunded}

order_of-order_id :
    (p : PaymentTransaction) (db : Db) {x : ℕ × Benefits.Order}
    → order_of p db ≡ some x
    → (p.order_id ≡ some x.0) × (db.benefits.order x.0 ≡ some x.1)
order_of-order_id p db h = ground arith

find-id :
    (id : ℕ) (ps : List PaymentTransaction) {p : PaymentTransaction}
    → find (λ q. q.id == id) ps ≡ some p
    → p.id ≡ id
find-id id [] h = absurd (cc h)
find-id id (q ∷ ps) {p} h = elim (Bool-cases (q.id == id)) [
  | inl t ↦ let same_row : q ≡ p = ground arith in ground arith
  | inr f ↦ let later : find (λ q. q.id == id) ps ≡ some p = ground arith in find-id id ps later
]

-- The payment and its order, of whom the user may act on the payments.
pub record IsCleared (user : AuthUserContext) (id : ℕ) (allow : Bool) (db : Db)
    (p : PaymentTransaction) (o : ℕ) : Type 0 where
  pub found : find_payment id db ≡ some p
  pub found_own : find_payment p.id db ≡ some p
  pub of_order : p.order_id ≡ some o
  pub order : Benefits.Order
  pub order_found : db.benefits.order o ≡ some order
  pub access : assert_admin_payment_access user order.restaurant_id allow db ≡ ok tt

pub checked_payment-IsCleared :
    (user : AuthUserContext) (id : ℕ) (allow : Bool) (db : Db) {x : PaymentTransaction × ℕ}
    → checked_payment user id allow db ≡ ok x
    → IsCleared user id allow db x.0 x.1
unfolding checked_payment
checked_payment-IsCleared user id allow db {x} h =
    let (p, hp, rest) = bind_ok (or_throw (find_payment id db) payment_not_found) _ h in
    let (o, ho, last) = bind_ok (or_throw (order_of p db) order_required) _ rest in
    let (passed, done) =
      then_ok (assert_admin_payment_access user o.1.restaurant_id allow db) _ last in
    let row = or_throw_ok (find_payment id db) payment_not_found hp in
    let own = order_of-order_id p db (or_throw_ok (order_of p db) order_required ho) in
    subst (λ x. IsCleared user id allow db x.0 x.1) (ok_inj done)
      (record {
        found = row;
        found_own = subst (λ i. find_payment i db ≡ some p) (sym (find-id id db.payments row)) row;
        of_order = own.0;
        order = o.1;
        order_found = own.1;
        access = passed;
      })

-- What `refund` has checked of a charge before it asks Stripe.
pub record IsRefundable (asked : Option ℕ) (db : Db) (p : PaymentTransaction) (o : ℕ) : Type 0 where
  pub charge : is_charge p.kind ≡ true
  pub paid : is_paid p.status ≡ true
  pub within : sum_successful_refunds o db + refund_amount asked p ≤ p.amount

pub checked_refund_lem :
    (user : AuthUserContext) (id : ℕ) (asked : Option ℕ) (db : Db) {x : PaymentTransaction × ℕ}
    → checked_refund user id asked db ≡ ok x
    → IsCleared user id false db x.0 x.1 × IsRefundable asked db x.0 x.1
unfolding checked_refund
checked_refund_lem user id asked db {x} h =
    let (y, hy, rest) = bind_ok (checked_payment user id false db) _ h in
    let refunded = sum_successful_refunds y.1 db in
    let amount = refund_amount asked y.0 in
    let (last, done) =
      then_ok
        (throw_if (not (is_charge y.0.kind)) only_charges
          >> throw_if (not (is_paid y.0.status)) not_paid
          >> throw_if (ltb y.0.amount amount) exceeds_charge
          >> throw_if (ltb y.0.amount (refunded + amount)) exceeds_remaining)
        _ rest in
    let (more, c₄) =
      then_ok
        (throw_if (not (is_charge y.0.kind)) only_charges
          >> throw_if (not (is_paid y.0.status)) not_paid
          >> throw_if (ltb y.0.amount amount) exceeds_charge)
        _ last in
    let (most, c₃) =
      then_ok
        (throw_if (not (is_charge y.0.kind)) only_charges
          >> throw_if (not (is_paid y.0.status)) not_paid)
        _ more in
    let (c₁, c₂) = then_ok (throw_if (not (is_charge y.0.kind)) only_charges) _ most in
    let e₁ = throw_if_ok (not (is_charge y.0.kind)) only_charges c₁ in
    let e₂ = throw_if_ok (not (is_paid y.0.status)) not_paid c₂ in
    let e₄ = throw_if_ok (ltb y.0.amount (refunded + amount)) exceeds_remaining c₄ in
    subst (λ x. IsCleared user id false db x.0 x.1 × IsRefundable asked db x.0 x.1) (ok_inj done)
      (
        checked_payment-IsCleared user id false db hy,
        record { charge = ground arith; paid = ground arith; within = ground arith },
      )
