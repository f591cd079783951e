-- ===== src/Payments/Webhooks.antt =====
-- payments.service.ts: the payments without an order, the administrators' status updates, and what
-- Stripe reports of a payment. The reference that a report carries has been read from it. The actor
-- that the webhook writes, `stripe:webhook`, is no user's id: it is 0 here.
use deliveryways.Orders.Store as OrderRows
use deliveryways.Wallet.Store as Benefits
use deliveryways.Prelude.{
  ℕ, Bool, true, false, ◌&&◌, ◌||◌, not, Option, none, some, List, [], ◌∷◌, leb, ◌==◌,
  if◌then◌else◌, is_some, Outcome, ok, err, throw_if, or_throw, ◌>>=◌, ◌>>◌,
}
use deliveryways.Auth.{AuthUserContext}
use deliveryways.Payments.Handlers.{
  is_charge, is_paid, is_refunded, order_of, credit_restaurant_wallet_for_payment, set_status,
  notify, mark_paid, fail, apply_payment_terminal_status, call_stripe, cancel,
}
use deliveryways.Payments.Access.{assert_admin_payment_access}
use deliveryways.Payments.Store.{
  PaymentTarget, tenant_subscription, guest_gift_card_purchase, other_target, ProviderData,
  PaymentTransaction, notify_payment_status_changed, notify_order_placed, cancel_payment_intent,
  TenantSubscription, UpdatePaymentStatusDto, Db, PaymentError, use_refund_endpoint,
  unsupported_status, payment_not_found, only_charges, already_refunded, no_downgrade,
  missing_context, bad_expiry, benefits_error, Result, checked, call_benefits, emit, after,
  find_payment, find_by_provider_ref, update_payment, update_order_state, subscription_not_found,
}
use deliveryways.Orders.Status.{payment_pending, placed, is_status}
use deliveryways.Wallet.OrderBenefits.{award_points_for_paid_order}
use deliveryways.Wallet.Accounts.{apply_wallet_top_up}
use deliveryways.Wallet.GiftCards.{
  generate_unique_gift_card_code, add_days, bought_card, create_coupon,
}
use deliveryways.Wallet.Store.{PaymentStatus, pending, paid, failed, Context, Error}

-- `readWalletTopUpContext`
unfoldable pub read_wallet_top_up_context : PaymentTransaction → Outcome PaymentError Context
read_wallet_top_up_context p = or_throw p.provider_data.customer_id missing_context >>= λ c.
    ok (record { customer_id = c; restaurant_id = p.restaurant_id; branch_id = some p.branch_id })

-- `applyWalletTopUp` for the customer that the payment names.
abbrev pub apply_top_up : PaymentTransaction → Db → Result (Unit {0})
apply_top_up p db =
    checked db (read_wallet_top_up_context p)
      λ ctx. call_benefits (apply_wallet_top_up ctx p.amount p.id) db

abbrev pub is_cancelled : PaymentStatus → Bool
is_cancelled Benefits.cancelled = true
is_cancelled _ = false

abbrev pub checked_top_up : PaymentTransaction → PaymentStatus → Outcome PaymentError (Unit {0})
checked_top_up p status =
    throw_if (not (is_charge p.kind)) only_charges
    >> throw_if (is_refunded p.status) already_refunded
    >> throw_if (not (is_paid status) && is_paid p.status) no_downgrade

-- The update itself, and the credit of a top-up that is paid.
abbrev pub settled_top_up :
    PaymentTransaction → PaymentStatus → UpdatePaymentStatusDto → Db → Result (Unit {0})
settled_top_up p status dto db =
    let written = update_payment p.id status dto db in
    after (if is_paid status then apply_top_up p written else (ok tt, written)) (notify p.id)

unfoldable pub update_wallet_top_up_status :
    (List ℕ → Bool)
    → PaymentTransaction
    → PaymentStatus
    → UpdatePaymentStatusDto
    → Db
    → Result (Unit {0})
update_wallet_top_up_status cancels p status dto db = checked db (checked_top_up p status) λ u.
    after
      (if is_cancelled status then call_stripe p cancels cancel_payment_intent db else (ok tt, db))
      (settled_top_up p status dto)

-- An update of a payment that has an order goes to the handler of its status.
abbrev pub update_order_payment :
    (List ℕ → Bool)
    → AuthUserContext
    → ℕ
    → PaymentStatus
    → UpdatePaymentStatusDto
    → ℕ
    → Db
    → Result (Unit {0})
update_order_payment cancels user id paid dto now db = mark_paid user id dto now db
update_order_payment cancels user id failed dto now db = fail user id dto db
update_order_payment cancels user id _ dto now db = cancel cancels user id dto now db

abbrev is_pending : PaymentStatus → Bool
is_pending pending = true
is_pending _ = false

unfoldable pub checked_update_status :
    AuthUserContext → ℕ → PaymentStatus → Db → Outcome PaymentError PaymentTransaction
checked_update_status user id status db =
    throw_if (is_refunded status) use_refund_endpoint
    >> throw_if (is_pending status) unsupported_status
    >> (or_throw (find_payment id db) payment_not_found >>= λ p.
        assert_admin_payment_access user p.restaurant_id true db >> ok p)

unfoldable pub update_status :
    (List ℕ → Bool)
    → AuthUserContext
    → ℕ
    → PaymentStatus
    → UpdatePaymentStatusDto
    → ℕ
    → Db
    → Result (Unit {0})
update_status cancels user id status dto now db =
    checked db (checked_update_status user id status db) λ p.
      if is_some (order_of p db)
      then update_order_payment cancels user id status dto now db
      else update_wallet_top_up_status cancels p status dto db

-- The columns of a subscription that its payment decides.
abbrev with_subscription_status : PaymentStatus → TenantSubscription → TenantSubscription
with_subscription_status status row = record {
  payment_status = status;
  is_active = is_paid status || row.is_active;
}

abbrev put_subscription : ℕ → TenantSubscription → Db → Db
put_subscription s row db = record db {
  subscription = λ s'. if s' == s then some row else db.subscription s';
}

-- What `updateTenantSubscriptionPaymentStatus` keeps of the payment: its data, the reference added.
abbrev pub subscription_details : PaymentTransaction → List ℕ → UpdatePaymentStatusDto
subscription_details p ref = record {
  provider_ref = some ref;
  provider_data = some p.provider_data;
}

-- The subscription that a payment names.
abbrev pub subscription_of : PaymentTransaction → Db → Outcome PaymentError (ℕ × TenantSubscription)
subscription_of p db = or_throw p.provider_data.subscription_id missing_context >>= λ s.
    or_throw (db.subscription s) subscription_not_found >>= λ row. ok (s, row)

unfoldable pub update_tenant_subscription_payment_status :
    PaymentTransaction → List ℕ → PaymentStatus → Db → Result (Unit {0})
update_tenant_subscription_payment_status p ref status db = checked db (subscription_of p db) λ x. (
  ok tt,
  put_subscription x.0 (with_subscription_status status x.1)
      (update_payment p.id status (subscription_details p ref) db),
)

-- What Stripe's report writes to a payment.
abbrev pub stripe_details : List ℕ → ProviderData → UpdatePaymentStatusDto
stripe_details ref intent = record { provider_ref = some ref; provider_data = some intent }

-- The expiry of a card that a guest buys: a year, where none is given.
abbrev card_expiry : Option (Option ℕ) → ℕ → Option ℕ
card_expiry none now = some (add_days now 365)
card_expiry (some given) now = given

abbrev checked_expiry : Option ℕ → ℕ → Outcome PaymentError ℕ
checked_expiry none now = err bad_expiry
checked_expiry (some t) now = throw_if (leb t now) bad_expiry >> ok t

abbrev free_code : Outcome Error (List ℕ) → Outcome PaymentError (List ℕ)
free_code (ok code) = ok code
free_code (err e) = err (benefits_error e)

-- The code of the new card and its expiry.
abbrev pub card_terms :
    PaymentTransaction → (ℕ → List ℕ) → ℕ → Db → Outcome PaymentError (List ℕ × ℕ)
card_terms p draw now db =
    free_code (generate_unique_gift_card_code 5 p.restaurant_id draw db.benefits).0 >>= λ code.
    checked_expiry (card_expiry p.provider_data.expires_at now) now >>= λ t. ok (code, t)

unfoldable pub fulfill_guest_gift_card_purchase :
    PaymentTransaction → List ℕ → (ℕ → List ℕ) → ℕ → Db → Result (Unit {0})
fulfill_guest_gift_card_purchase p ref draw now db = checked db (card_terms p draw now db) λ x.
    let card = bought_card db.benefits.next_id p.amount (some p.branch_id) now x.1 in
    (
      ok tt,
      update_payment p.id paid (subscription_details p ref)
          (record db { benefits = create_coupon p.restaurant_id x.0 card db.benefits }),
    )

-- A payment without an order that Stripe has collected.
abbrev pub settle_other :
    PaymentTarget
    → PaymentTransaction
    → List ℕ
    → ProviderData
    → (ℕ → List ℕ)
    → ℕ
    → Db
    → Result (Unit {0})
settle_other tenant_subscription p ref intent draw now db =
    after (update_tenant_subscription_payment_status p ref paid db) (notify p.id)
settle_other guest_gift_card_purchase p ref intent draw now db =
    after (fulfill_guest_gift_card_purchase p ref draw now db) (notify p.id)
settle_other other_target p ref intent draw now db =
    checked db (read_wallet_top_up_context p) λ ctx.
      call_benefits (apply_wallet_top_up ctx p.amount p.id)
        (update_payment p.id paid (stripe_details ref intent) db)

abbrev pub is_payment_pending : Option OrderRows.Order → Bool
is_payment_pending none = false
is_payment_pending (some row) = is_status row.status payment_pending

abbrev pub placed_order : OrderRows.Order → OrderRows.Order
placed_order row = record row { status = placed }

abbrev pub placed_if : Bool → ℕ → Db → Db
placed_if true o db = update_order_state o placed_order db
placed_if false o db = db

-- A payment of an order that Stripe has collected.
unfoldable pub settle_order :
    PaymentTransaction → ℕ → List ℕ → ProviderData → ℕ → Db → Result (Unit {0})
settle_order p o ref intent now db =
    let should_place = is_payment_pending (db.orders.order o) in
    after
      (call_benefits (award_points_for_paid_order o false now) (
        credit_restaurant_wallet_for_payment (record p { status = paid })
          (placed_if should_place o (set_status p.id o paid (stripe_details ref intent) db))))
      λ db₁. (
        ok tt,
        emit
            (notify_payment_status_changed p.id
              ∷ (if should_place then notify_order_placed o ∷ [] else []))
            db₁,
      )

abbrev pub settle_any :
    Option ℕ
    → PaymentTransaction
    → List ℕ
    → ProviderData
    → (ℕ → List ℕ)
    → ℕ
    → Db
    → Result (Unit {0})
settle_any none p ref intent draw now db =
    settle_other p.provider_data.target p ref intent draw now db
settle_any (some o) p ref intent draw now db = settle_order p o ref intent now db

abbrev pub succeeded :
    Option PaymentTransaction → List ℕ → ProviderData → (ℕ → List ℕ) → ℕ → Db → Result (Unit {0})
succeeded none ref intent draw now db = (ok tt, db)
succeeded (some p) ref intent draw now db =
    if is_paid p.status then (ok tt, db) else settle_any p.order_id p ref intent draw now db

unfoldable pub handle_stripe_payment_intent_succeeded :
    List ℕ → ProviderData → (ℕ → List ℕ) → ℕ → Db → Result (Unit {0})
handle_stripe_payment_intent_succeeded ref intent draw now db =
    succeeded (find_by_provider_ref ref db) ref intent draw now db

abbrev pub is_subscription : PaymentTarget → Bool
is_subscription tenant_subscription = true
is_subscription _ = false

abbrev pub close_any :
    Option ℕ
    → PaymentTransaction
    → List ℕ
    → ProviderData
    → PaymentStatus
    → ℕ
    → Db
    → Result (Unit {0})
close_any none p ref intent status now db =
    if is_subscription p.provider_data.target
    then update_tenant_subscription_payment_status p ref status db
    else (ok tt, update_payment p.id status (stripe_details ref intent) db)
close_any (some o) p ref intent status now db =
    apply_payment_terminal_status p.id o status (stripe_details ref intent) 0 true now db

abbrev pub report_failed :
    Option PaymentTransaction → List ℕ → ProviderData → PaymentStatus → ℕ → Db → Result (Unit {0})
report_failed none ref intent status now db = (ok tt, db)
report_failed (some p) ref intent status now db =
    if is_paid p.status || is_refunded p.status
    then (ok tt, db)
    else close_any p.order_id p ref intent status now db

unfoldable pub handle_stripe_payment_intent_failed :
    List ℕ → ProviderData → PaymentStatus → ℕ → Db → Result (Unit {0})
handle_stripe_payment_intent_failed ref intent status now db =
    report_failed (find_by_provider_ref ref db) ref intent status now db
