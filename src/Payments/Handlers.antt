-- ===== src/Payments/Handlers.antt =====
-- payments.service.ts: the handlers that move a payment through its life. A handler first reads and
-- checks, then writes in a transaction of its own, and only then calls the benefits' service, so
-- that an error of that call leaves what was written. Whether Stripe carries out a request is a
-- parameter, for each request.
use deliveryways.Wallet.Store as Benefits
use deliveryways.Prelude.{
  ℕ, ◌+◌, Bool, true, false, ◌||◌, not, Option, none, some, List, [], ◌∷◌, ltb, ◌==◌, if◌then◌else◌,
  is_some, or_default, any, Outcome, ok, err, throw_if, or_throw, ◌>>=◌, ◌>>◌,
}
use deliveryways.Prelude.Int.{ℤ, pos, ◌+ℤ◌}
use deliveryways.Auth.{AuthUserContext, is_id, is_customer}
use deliveryways.Payments.Access.{assert_admin_payment_access, assert_order_access}
use deliveryways.Payments.Store.{
  PaymentMethod, cod, card_on_delivery, stripe, wallet, PaymentTransactionType, charge, refund,
  other_target, PaymentTransaction, order_credit, RestaurantWalletTransaction, Event,
  notify_payment_status_changed, cancel_payment_intent, refund_payment_intent,
  UpdatePaymentStatusDto, Db, PaymentError, payment_not_found, order_required, only_charges,
  already_refunded, already_paid, not_paid, exceeds_charge, exceeds_remaining, stripe_failed,
  Result, checked, call_benefits, emit, after, find_payment, with_status, update_payment,
  create_payment, update_order_payment_status, update_order_state, sum_successful_refunds,
}
use deliveryways.Orders.Handlers.{cancelled_order}
use deliveryways.Wallet.OrderBenefits.{
  award_points_for_paid_order, for_refund, for_payment_reversal, restore_order_benefits,
}
use deliveryways.Wallet.Store.{PaymentStatus, paid, failed}

abbrev pub is_charge : PaymentTransactionType → Bool
is_charge charge = true
is_charge refund = false

abbrev pub is_paid : PaymentStatus → Bool
is_paid paid = true
is_paid _ = false

abbrev pub is_refunded : PaymentStatus → Bool
is_refunded Benefits.refunded = true
is_refunded _ = false

abbrev pub is_stripe : PaymentMethod → Bool
is_stripe stripe = true
is_stripe _ = false

-- A payment whose money the platform does not collect.
abbrev pub is_collected_elsewhere : PaymentMethod → Bool
is_collected_elsewhere cod = true
is_collected_elsewhere card_on_delivery = true
is_collected_elsewhere wallet = true
is_collected_elsewhere _ = false

-- The order of a payment, with its id.
abbrev row_of : ℕ → Option Benefits.Order → Option (ℕ × Benefits.Order)
row_of o none = none
row_of o (some row) = some (o, row)

abbrev pub order_of : PaymentTransaction → Db → Option (ℕ × Benefits.Order)
order_of p db = elim p.order_id [ none ↦ none | some o ↦ row_of o (db.benefits.order o) ]

abbrev pub has_credit : ℕ → List RestaurantWalletTransaction → Bool
has_credit id = any (λ t. is_id id t.payment_transaction_id)

abbrev pub balance_of : ℕ → Db → ℤ
balance_of r db = or_default (db.balance r) (pos 0)

abbrev pub put_balance : ℕ → ℤ → Db → Db
put_balance r b db = record db { balance = λ r'. if r' == r then some b else db.balance r' }

-- The row of a credit and the account that it changes.
abbrev pub post_credit : PaymentTransaction → ℤ → Db → Db
post_credit p next db =
    let opened = put_balance p.restaurant_id next db in
    record opened {
      wallet_transactions =
          record {
            restaurant_id = p.restaurant_id;
            payment_transaction_id = some p.id;
            payout_request_id = none;
            kind = order_credit;
            amount = pos p.amount;
            balance_after = next;
          }
          ∷ db.wallet_transactions;
    }

unfoldable pub credit_restaurant_wallet_for_payment : PaymentTransaction → Db → Db
credit_restaurant_wallet_for_payment p db =
    if not (is_paid p.status)
      || not (is_charge p.kind)
      || not (is_some p.order_id)
      || is_collected_elsewhere p.payment_method
    then db
    else (if has_credit p.id db.wallet_transactions
        then put_balance p.restaurant_id (balance_of p.restaurant_id db) db
        else post_credit p (balance_of p.restaurant_id db +ℤ pos p.amount) db)

-- A payment and its order, once an administrator may act on them.
unfoldable pub checked_payment :
    AuthUserContext → ℕ → Bool → Db → Outcome PaymentError (PaymentTransaction × ℕ)
checked_payment user id allow_branch_admin db =
    or_throw (find_payment id db) payment_not_found >>= λ p.
    or_throw (order_of p db) order_required >>= λ o.
    assert_admin_payment_access user o.1.restaurant_id allow_branch_admin db >> ok (p, o.0)

-- The transaction of `markPaid` and of `fail`.
abbrev pub set_status : ℕ → ℕ → PaymentStatus → UpdatePaymentStatusDto → Db → Db
set_status id o status dto db =
    update_order_payment_status o status (update_payment id status dto db)

abbrev pub notify : ℕ → Db → Result (Unit {0})
notify id db = (ok tt, emit (notify_payment_status_changed id ∷ []) db)

unfoldable pub checked_mark_paid :
    AuthUserContext → ℕ → Db → Outcome PaymentError (PaymentTransaction × ℕ)
checked_mark_paid user id db = checked_payment user id true db >>= λ x.
    throw_if (not (is_charge x.0.kind)) only_charges
    >> throw_if (is_refunded x.0.status) already_refunded
    >> ok x

unfoldable pub mark_paid : AuthUserContext → ℕ → UpdatePaymentStatusDto → ℕ → Db → Result (Unit {0})
mark_paid user id dto now db = checked db (checked_mark_paid user id db) λ x.
    after
      (call_benefits (award_points_for_paid_order x.1 false now) (
        credit_restaurant_wallet_for_payment (with_status paid dto x.0)
          (set_status id x.1 paid dto db)))
      (notify id)

unfoldable pub checked_fail :
    AuthUserContext → ℕ → Db → Outcome PaymentError (PaymentTransaction × ℕ)
checked_fail user id db = checked_payment user id true db >>= λ x.
    throw_if (is_refunded x.0.status) already_refunded >> ok x

unfoldable pub fail : AuthUserContext → ℕ → UpdatePaymentStatusDto → Db → Result (Unit {0})
fail user id dto db = checked db (checked_fail user id db) λ x.
    after
      (call_benefits (restore_order_benefits x.1 for_payment_reversal)
        (set_status id x.1 failed dto db))
      (notify id)

-- `applyPaymentTerminalStatus`
abbrev cancelled_if : Bool → ℕ → ℕ → ℕ → Db → Db
cancelled_if true o actor now db = update_order_state o (cancelled_order actor now) db
cancelled_if false o actor now db = db

unfoldable pub apply_payment_terminal_status :
    ℕ → ℕ → PaymentStatus → UpdatePaymentStatusDto → ℕ → Bool → ℕ → Db → Result (Unit {0})
apply_payment_terminal_status id o status details actor cancel_order now db =
    after
      (call_benefits (restore_order_benefits o for_payment_reversal)
        (cancelled_if cancel_order o actor now (set_status id o status details db)))
      (notify id)

unfoldable pub checked_cancel :
    AuthUserContext → ℕ → Db → Outcome PaymentError (PaymentTransaction × ℕ)
checked_cancel user id db = or_throw (find_payment id db) payment_not_found >>= λ p.
    or_throw (order_of p db) order_required >>= λ o.
    (if is_customer user.role
      then assert_order_access user o.1.restaurant_id o.1.customer_id db
      else assert_admin_payment_access user o.1.restaurant_id true db)
    >> throw_if (is_paid p.status) already_paid
    >> ok (p, o.0)

-- A Stripe call about a payment, where it is one of Stripe's with a reference.
abbrev pub stripe_call :
    Option (List ℕ) → (List ℕ → Bool) → (List ℕ → Event) → Db → Result (Unit {0})
stripe_call none succeeds event db = (ok tt, db)
stripe_call (some ref) succeeds event db =
    if succeeds ref then (ok tt, emit (event ref ∷ []) db) else (err stripe_failed, db)

abbrev pub call_stripe :
    PaymentTransaction → (List ℕ → Bool) → (List ℕ → Event) → Db → Result (Unit {0})
call_stripe p succeeds event db =
    if is_stripe p.payment_method then stripe_call p.provider_ref succeeds event db else (ok tt, db)

-- `dto.providerRef ?? payment.providerRef ?? undefined`: what the row has stays in any case.
unfoldable pub cancel :
    (List ℕ → Bool) → AuthUserContext → ℕ → UpdatePaymentStatusDto → ℕ → Db → Result (Unit {0})
cancel cancels user id dto now db = checked db (checked_cancel user id db) λ x.
    after (call_stripe x.0 cancels cancel_payment_intent db) (
      apply_payment_terminal_status id x.1 Benefits.cancelled dto user.uid
        (is_stripe x.0.payment_method) now)

-- What is asked for, or the whole charge; an amount of 0 counts as none.
abbrev pub refund_amount : Option ℕ → PaymentTransaction → ℕ
refund_amount none p = p.amount
refund_amount (some n) p = if n == 0 then p.amount else n

unfoldable pub checked_refund :
    AuthUserContext → ℕ → Option ℕ → Db → Outcome PaymentError (PaymentTransaction × ℕ)
checked_refund user id asked db = checked_payment user id false db >>= λ x.
    throw_if (not (is_charge x.0.kind)) only_charges
    >> throw_if (not (is_paid x.0.status)) not_paid
    >> throw_if (ltb x.0.amount (refund_amount asked x.0)) exceeds_charge
    >> throw_if (ltb x.0.amount (sum_successful_refunds x.1 db + refund_amount asked x.0))
        exceeds_remaining
    >> ok x

abbrev pub no_details : UpdatePaymentStatusDto
no_details = record { provider_ref = none; provider_data = none }

-- The row of a refund.
abbrev pub refund_row : ℕ → PaymentTransaction → ℕ → UpdatePaymentStatusDto → PaymentTransaction
refund_row id p amount dto = record p {
  id = id;
  kind = refund;
  status = Benefits.refunded;
  amount = amount;
  provider_ref = if is_some dto.provider_ref then dto.provider_ref else p.provider_ref;
  provider_data = or_default dto.provider_data (record {
    target = other_target;
    customer_id = none;
    subscription_id = none;
    expires_at = none;
  });
}

-- What the last refund of a charge closes.
abbrev pub refund_status : Bool → ℕ → ℕ → ℕ → ℕ → Db → Db
refund_status false id o actor now db = update_order_payment_status o paid db
refund_status true id o actor now db = update_order_state o (cancelled_order actor now) (
    update_payment id Benefits.refunded no_details
      (update_order_payment_status o Benefits.refunded db))

-- The transaction of `refund`: the sum of the earlier refunds was read before it.
abbrev pub post_refund : PaymentTransaction → ℕ → ℕ → UpdatePaymentStatusDto → ℕ → ℕ → Db → Db
post_refund p o amount dto actor now db =
    refund_status (sum_successful_refunds o db + amount == p.amount) p.id o actor now
      (create_payment (refund_row db.next_id p amount dto) db)

unfoldable pub refund_payment :
    (List ℕ → ℕ → Bool)
    → AuthUserContext
    → ℕ
    → Option ℕ
    → UpdatePaymentStatusDto
    → ℕ
    → Db
    → Result (Unit {0})
refund_payment refunds user id asked dto now db = checked db (checked_refund user id asked db) λ x.
    let amount = refund_amount asked x.0 in
    after (call_stripe x.0 (λ ref. refunds ref amount) (λ ref. refund_payment_intent ref amount) db)
      λ db₁.
        after
          (call_benefits (restore_order_benefits x.1 for_refund)
            (post_refund x.0 x.1 amount dto user.uid now db₁))
          (notify db₁.next_id)
