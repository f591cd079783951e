-- ===== src/Payments/Effects.antt =====
-- payments.service.ts: what a call that returns has done.
use deliveryways.Wallet.Store as Benefits
use deliveryways.Prelude.{
  ℕ, ◌≡◌, refl, sym, ap, Bool, true, false, Option, none, some, List, if◌then◌else◌, Outcome, ok,
  err, ◌+◌, ◌≤◌, ◌∙◌, arith, ◌==◌,
}
use deliveryways.Payments.Handlers.{
  is_stripe, stripe_call, call_stripe, is_charge, refund_row, post_refund, no_details,
  refund_status,
}
use deliveryways.Payments.Store.{
  PaymentTransaction, Event, Db, PaymentError, Result, checked, carried, call_benefits, after,
  UpdatePaymentStatusDto, find_payment, update_payment, create_payment, update_order_payment_status,
  updated_order, update_order_state, sum_successful_refunds, refunded_part,
}
use deliveryways.Wallet.Store.{Action, paid}
use deliveryways.Auth.{AuthUserContext}
use deliveryways.Payments.Books.{refunds_of_new, refunds_of_charge_update}
use deliveryways.Orders.Handlers.{cancelled_order}
use deliveryways.Wallet.Once.{points_restored-order, wallet_restored-order, is_id_self}
use deliveryways.Wallet.ReversalLaws.{wallet_restored, restore_order_benefits_lem}
use deliveryways.Wallet.OrderBenefits.{ReversalReason, restore_order_benefits}
use deliveryways.Payments.RefundLaws.{find-appended}

pub checked_ok {ℓ} :
    {A : Type ℓ} (db : Db) (o : Outcome PaymentError A) (f : A → Result (Unit {0})) {db' : Db}
    → checked db o f ≡ (ok tt, db')
    → (a : A) × (o ≡ ok a) × (f a ≡ (ok tt, db'))
checked_ok db (ok a) f h = (a, refl, h)
checked_ok db (err e) f h = absurd (cc h)

pub after_ok :
    (x : Result (Unit {0})) (f : Db → Result (Unit {0})) {db' : Db}
    → after x f ≡ (ok tt, db')
    → (db₁ : Db) × (x ≡ (ok tt, db₁)) × (f db₁ ≡ (ok tt, db'))
after_ok (ok u, db) f h = (db, refl, h)
after_ok (err e, db) f h = absurd (cc h)

pub call_benefits_ok {ℓ} :
    {A : Type ℓ} (m : Action A) (db : Db) {db' : Db}
    → call_benefits m db ≡ (ok tt, db')
    → db' ≡ record db { benefits = (m db.benefits).1 }
call_benefits_ok {A} m db {db'} h = go (m db.benefits) h
  where
    go :
        (x : Outcome Benefits.Error A × Benefits.Db)
        → carried db x ≡ (ok tt, db')
        → db' ≡ record db { benefits = x.1 }
    go (ok a, w) e = ap (λ y. y.1) (sym e)
    go (err e, w) k = absurd (cc k)

-- A call of Stripe that is carried out only leaves a mark of itself.
pub call_stripe_ok :
    (p : PaymentTransaction) (succeeds : List ℕ → Bool) (event : List ℕ → Event) (db : Db)
    {db' : Db}
    → call_stripe p succeeds event db ≡ (ok tt, db')
    → db' ≡ record db { events = db'.events }
call_stripe_ok p succeeds event db {db'} h = go (is_stripe p.payment_method) p.provider_ref h
  where
    go :
        (b : Bool) (ref : Option (List ℕ))
        → (if b then stripe_call ref succeeds event db else (ok tt, db)) ≡ (ok tt, db')
        → db' ≡ record db { events = db'.events }
    go false ref e = rw⁻¹ (ap (λ y. y.1) e) refl
    go true none e = rw⁻¹ (ap (λ y. y.1) e) refl
    go true (some ref) e = ground arith

pub restored-order :
    (o : ℕ) (reason : ReversalReason) (w : Benefits.Db) {row : Benefits.Order}
    → w.order o ≡ some row
    → (restore_order_benefits o reason w).1.order ≡ w.order
restored-order o reason w {row} found = rw (restore_order_benefits_lem o row reason w found) (
    points_restored-order o row (wallet_restored o row reason w)
    ∙ wallet_restored-order o row reason w)

-- What a refund of an amount leaves: the rows, the order's two statuses and the charge.
pub record IsRefunded (user : AuthUserContext) (now : ℕ) (p : PaymentTransaction) (o amount : ℕ)
    (order : Benefits.Order) (db db' : Db) : Type 0 where
  pub refunds : sum_successful_refunds o db' ≡ sum_successful_refunds o db + amount
  pub within : sum_successful_refunds o db' ≤ p.amount
  pub payment_status :
      db'.benefits.order o
      ≡ some (record order {
        payment_status =
            if sum_successful_refunds o db' == p.amount then Benefits.refunded else paid;
      })
  pub status : db'.orders.order o ≡ (
      if sum_successful_refunds o db' == p.amount
      then updated_order (cancelled_order user.uid now) (db.orders.order o)
      else db.orders.order o)

refund_status-sum :
    (b : Bool) (id o who now : ℕ) (db : Db) {p : PaymentTransaction}
    → find_payment id db ≡ some p
    → is_charge p.kind ≡ true
    → sum_successful_refunds o (refund_status b id o who now db) ≡ sum_successful_refunds o db
unfolding sum_successful_refunds update_payment update_order_payment_status update_order_state
refund_status-sum true id o who now db e k =
    refunds_of_charge_update o id Benefits.refunded no_details db.payments e k
refund_status-sum false id o who now db e k = refl

refund_row-part :
    (n o amount : ℕ) (p : PaymentTransaction) (dto : UpdatePaymentStatusDto)
    → p.order_id ≡ some o
    → refunded_part o (refund_row n p amount dto) ≡ amount
refund_row-part n o amount p dto i = rw i (ground (arith, is_id_self o))

create_payment-sum :
    (o : ℕ) (row : PaymentTransaction) (db : Db)
    → sum_successful_refunds o (create_payment row db)
      ≡ sum_successful_refunds o db + refunded_part o row
unfolding sum_successful_refunds create_payment
create_payment-sum o row db = refunds_of_new o db.payments row

create_payment-find :
    (id : ℕ) (row : PaymentTransaction) (db : Db) {p : PaymentTransaction}
    → find_payment id db ≡ some p
    → find_payment id (create_payment row db) ≡ some p
unfolding create_payment
create_payment-find id row db h = find-appended id db.payments row h

pub post_refund-sum :
    (p : PaymentTransaction) (o amount : ℕ) (dto : UpdatePaymentStatusDto) (who now : ℕ) (db : Db)
    → find_payment p.id db ≡ some p
    → is_charge p.kind ≡ true
    → p.order_id ≡ some o
    → sum_successful_refunds o (post_refund p o amount dto who now db)
      ≡ sum_successful_refunds o db + amount
post_refund-sum p o amount dto who now db e k i =
    let row = refund_row db.next_id p amount dto in
    refund_status-sum _ p.id o who now (create_payment row db) (create_payment-find p.id row db e) k
    ∙ create_payment-sum o row db
    ∙ ap (λ n. sum_successful_refunds o db + n) (refund_row-part db.next_id o amount p dto i)

-- The statuses of an order after a refund that closes the charge, or does not.
pub post_refund-payment_status :
    (p : PaymentTransaction) (o amount : ℕ) (dto : UpdatePaymentStatusDto) (who now : ℕ) (db : Db)
    {order : Benefits.Order}
    → db.benefits.order o ≡ some order
    → (post_refund p o amount dto who now db).benefits.order o
      ≡ some (record order {
        payment_status =
            if sum_successful_refunds o db + amount == p.amount then Benefits.refunded else paid;
      })
unfolding create_payment update_payment update_order_payment_status update_order_state
post_refund-payment_status p o amount dto who now db found = ground (arith, is_id_self o)

pub post_refund-status :
    (p : PaymentTransaction) (o amount : ℕ) (dto : UpdatePaymentStatusDto) (who now : ℕ) (db : Db)
    → (post_refund p o amount dto who now db).orders.order o ≡ (
        if sum_successful_refunds o db + amount == p.amount
        then updated_order (cancelled_order who now) (db.orders.order o)
        else db.orders.order o)
unfolding create_payment update_payment update_order_payment_status update_order_state
post_refund-status p o amount dto who now db = ground (arith, is_id_self o)
