-- ===== src/Payments/Refunded.antt =====
-- payments.service.ts: what a refund that returns has done to the payment's order.
use deliveryways.Wallet.Store as Benefits
use deliveryways.Prelude.{
  ℕ, ◌+◌, ◌≤◌, ◌≡◌, ap, ◌∙◌, Bool, true, false, Option, some, List, ok, sym, subst,
}
use deliveryways.Auth.{AuthUserContext}
use deliveryways.Payments.Handlers.{
  is_charge, notify, call_stripe, refund_amount, checked_refund, post_refund, refund_payment,
}
use deliveryways.Payments.Effects.{
  checked_ok, after_ok, call_benefits_ok, call_stripe_ok, restored-order, IsRefunded,
  post_refund-sum, post_refund-payment_status, post_refund-status,
}
use deliveryways.Payments.Checks.{IsCleared, IsRefundable, checked_refund_lem}
use deliveryways.Payments.Store.{
  PaymentTransaction, Event, refund_payment_intent, UpdatePaymentStatusDto, Db, call_benefits, emit,
  find_payment, sum_successful_refunds,
}
use deliveryways.Wallet.OrderBenefits.{for_refund, restore_order_benefits}

-- The tables after the three steps of a refund.
refund_tables-IsRefunded :
    (user : AuthUserContext) (p : PaymentTransaction) (o amount : ℕ) (dto : UpdatePaymentStatusDto)
    (now : ℕ) (es es' : List Event) (db : Db) {order : Benefits.Order}
    → find_payment p.id db ≡ some p
    → is_charge p.kind ≡ true
    → p.order_id ≡ some o
    → db.benefits.order o ≡ some order
    → sum_successful_refunds o db + amount ≤ p.amount
    → let posted = post_refund p o amount dto user.uid now (record db { events = es }) in
      IsRefunded user now p o amount order db (record posted {
        benefits = (restore_order_benefits o for_refund posted.benefits).1;
        events = es';
      })
unfolding sum_successful_refunds
refund_tables-IsRefunded user p o amount dto now es es' db found k i row within =
    let db₁ = record db { events = es } in
    let sum = post_refund-sum p o amount dto user.uid now db₁ found k i in
    let paid_as = post_refund-payment_status p o amount dto user.uid now db₁ row in
    let kept = ap (λ f. f o) (restored-order o for_refund _ paid_as) in
    record {
      refunds = sum;
      within = rw sum within;
      payment_status = rw sum (kept ∙ paid_as);
      status = rw sum (post_refund-status p o amount dto user.uid now db₁);
    }

refund_steps-IsRefunded :
    (user : AuthUserContext) (p : PaymentTransaction) (o amount : ℕ) (dto : UpdatePaymentStatusDto)
    (now : ℕ) (es : List Event) (db db₁ db₂ db' : Db) {order : Benefits.Order}
    → db₁ ≡ record db { events = db₁.events }
    → db₂ ≡ (
        let posted = post_refund p o amount dto user.uid now db₁ in
        record posted { benefits = (restore_order_benefits o for_refund posted.benefits).1 })
    → emit es db₂ ≡ db'
    → find_payment p.id db ≡ some p
    → is_charge p.kind ≡ true
    → p.order_id ≡ some o
    → db.benefits.order o ≡ some order
    → sum_successful_refunds o db + amount ≤ p.amount
    → IsRefunded user now p o amount order db db'
refund_steps-IsRefunded user p o amount dto now es db db₁ db₂ db' {order} s₁ s₂ s₃ found k i row
      within =
    let P : Db → Type 0 = λ d. IsRefunded user now p o amount order db d in
    let carried_on : Db → Db = λ d.
      let posted = post_refund p o amount dto user.uid now d in
      emit es
        (record posted { benefits = (restore_order_benefits o for_refund posted.benefits).1 }) in
    subst P s₃ (
      subst (λ d. P (emit es d)) (sym s₂)
        (subst (λ d. P (carried_on d)) (sym s₁)
          (refund_tables-IsRefunded user p o amount dto now db₁.events _ db found k i row within)))

-- A refund that returns is of a paid charge of an order, on which the user may act. The successful
-- refunds of the order grow by the amount asked for, or by the whole charge where none is asked
-- for, and stay within the charge. The order counts as refunded and is cancelled when the refunds
-- reach the charge; else it counts as paid and keeps its status.
pub refund_payment-IsRefunded :
    (refunds : List ℕ → ℕ → Bool) (user : AuthUserContext) (id : ℕ) (asked : Option ℕ)
    (dto : UpdatePaymentStatusDto) (now : ℕ) (db db' : Db)
    → refund_payment refunds user id asked dto now db ≡ (ok tt, db')
    → (p : PaymentTransaction) × (o : ℕ) × (c : IsCleared user id false db p o) × IsRefundable asked
        db p o
      × IsRefunded user now p o (refund_amount asked p) c.order db db'
unfolding refund_payment
refund_payment-IsRefunded refunds user id asked dto now db db' h =
    let (x, hx, e₁) = checked_ok db (checked_refund user id asked db) _ h in
    let amount = refund_amount asked x.0 in
    let (db₁, hs, e₂) =
      after_ok
        (call_stripe x.0 (λ ref. refunds ref amount) (λ ref. refund_payment_intent ref amount) db) _
        e₁ in
    let (db₂, hb, e₃) =
      after_ok
        (call_benefits (restore_order_benefits x.1 for_refund)
          (post_refund x.0 x.1 amount dto user.uid now db₁))
        (notify db₁.next_id) e₂ in
    let (cleared, can) = checked_refund_lem user id asked db hx in
    (
      x.0,
      x.1,
      cleared,
      can,
      refund_steps-IsRefunded user x.0 x.1 amount dto now _ db db₁ db₂ db'
          (call_stripe_ok x.0 _ _ db hs)
          (call_benefits_ok (restore_order_benefits x.1 for_refund) _ hb) (ap (λ y. y.1) e₃)
          cleared.found_own can.charge cleared.of_order cleared.order_found can.within,
    )
