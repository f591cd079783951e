-- ===== src/Payments/History.antt =====
-- Any sequence of the calls of payments.service.ts that write to a payment, a restaurant's account
-- or a payout request, from administrators, customers and Stripe's webhook.
use deliveryways.Wallet.Store as Benefits
use deliveryways.Prelude.{ℕ, refl, Bool, Option, List, [], ◌∷◌}
use deliveryways.Auth.{AuthUserContext}
use deliveryways.Payments.Webhooks.{
  update_status, handle_stripe_payment_intent_succeeded, handle_stripe_payment_intent_failed,
}
use deliveryways.Payments.Handlers.{mark_paid, fail, cancel, refund_payment}
use deliveryways.Payments.WebhookLaws.{Leaves-update_status, Leaves-succeeded, Leaves-report_failed}
use deliveryways.Payments.Books.{Ledgers}
use deliveryways.Payments.PayoutLaws.{
  Leaves-create_request, Leaves-approve, Leaves-reject, Leaves-mark_paid_out,
}
use deliveryways.Payments.Keeps.{Leaves}
use deliveryways.Payments.HandlerLaws.{
  Leaves-mark_paid, Leaves-fail, Leaves-cancel, Leaves-refund_payment,
}
use deliveryways.Payments.Payouts.{
  create_restaurant_payout_request, approve_restaurant_payout_request,
  reject_restaurant_payout_request, mark_restaurant_payout_paid,
}
use deliveryways.Payments.Store.{ProviderData, UpdatePaymentStatusDto, Db, Result}
use deliveryways.Wallet.Store.{PaymentStatus, failed}

-- A call with its arguments, and with what Stripe answers to the requests it makes.
pub data Request : Type 0 where
  marks_paid : AuthUserContext → ℕ → UpdatePaymentStatusDto → ℕ → Request
  fails : AuthUserContext → ℕ → UpdatePaymentStatusDto → Request
  cancels_payment : (List ℕ → Bool) → AuthUserContext → ℕ → UpdatePaymentStatusDto → ℕ → Request
  refunds_payment :
      (List ℕ → ℕ → Bool) → AuthUserContext → ℕ → Option ℕ → UpdatePaymentStatusDto → ℕ → Request
  updates_status :
      (List ℕ → Bool) → AuthUserContext → ℕ → PaymentStatus → UpdatePaymentStatusDto → ℕ → Request
  reports_succeeded : List ℕ → ProviderData → (ℕ → List ℕ) → ℕ → Request
  reports_failed : List ℕ → ProviderData → ℕ → Request
  reports_cancelled : List ℕ → ProviderData → ℕ → Request
  requests_payout : AuthUserContext → ℕ → ℕ → Request
  approves_payout : AuthUserContext → ℕ → Request
  rejects_payout : AuthUserContext → ℕ → Request
  pays_payout : AuthUserContext → ℕ → Request

-- What the call returns or throws, and the tables that it leaves. A report of Stripe is
-- `handleStripeWebhook` for its event.
unfoldable pub perform : Request → Db → Result (Unit {0})
perform (marks_paid user id dto now) db = mark_paid user id dto now db
perform (fails user id dto) db = fail user id dto db
perform (cancels_payment cancels user id dto now) db = cancel cancels user id dto now db
perform (refunds_payment refunds user id asked dto now) db =
    refund_payment refunds user id asked dto now db
perform (updates_status cancels user id status dto now) db =
    update_status cancels user id status dto now db
perform (reports_succeeded ref intent draw now) db =
    handle_stripe_payment_intent_succeeded ref intent draw now db
perform (reports_failed ref intent now) db =
    handle_stripe_payment_intent_failed ref intent failed now db
perform (reports_cancelled ref intent now) db =
    handle_stripe_payment_intent_failed ref intent Benefits.cancelled now db
perform (requests_payout user r amount) db = create_restaurant_payout_request user r amount db
perform (approves_payout user q) db = approve_restaurant_payout_request user q db
perform (rejects_payout user q) db = reject_restaurant_payout_request user q db
perform (pays_payout user q) db = mark_restaurant_payout_paid user q db

unfoldable pub run : List Request → Db → Db
run [] db = db
run (q ∷ qs) db = run qs (perform q db).1

Leaves-perform : (q : Request) (db : Db) → Ledgers db → Leaves (perform q db)
unfolding perform
Leaves-perform (marks_paid user id dto now) = Leaves-mark_paid user id dto now
Leaves-perform (fails user id dto) = Leaves-fail user id dto
Leaves-perform (cancels_payment cancels user id dto now) = Leaves-cancel cancels user id dto now
Leaves-perform (refunds_payment refunds user id asked dto now) =
    Leaves-refund_payment refunds user id asked dto now
Leaves-perform (updates_status cancels user id status dto now) =
    Leaves-update_status cancels user id status dto now
Leaves-perform (reports_succeeded ref intent draw now) = Leaves-succeeded ref intent draw now
Leaves-perform (reports_failed ref intent now) =
    λ db. Leaves-report_failed ref intent failed now db refl
Leaves-perform (reports_cancelled ref intent now) =
    λ db. Leaves-report_failed ref intent Benefits.cancelled now db refl
Leaves-perform (requests_payout user r amount) = Leaves-create_request user r amount
Leaves-perform (approves_payout user q) = Leaves-approve user q
Leaves-perform (rejects_payout user q) = Leaves-reject user q
Leaves-perform (pays_payout user q) = Leaves-mark_paid_out user q

-- Whatever calls are made, in whatever order and with whatever failures: if the ledgers agree
-- before, they agree after. That is, the balance of each restaurant is the sum of its rows and
-- never negative, the refunds of each order are at most its largest charge, and the books of the
-- customers hold.
pub run-Ledgers : (qs : List Request) (db : Db) → Ledgers db → Ledgers (run qs db)
unfolding run
run-Ledgers [] db h = h
run-Ledgers (q ∷ qs) db h = run-Ledgers qs _ (Leaves-perform q db h).ledgers
