-- ===== src/Payments/Tests.antt =====
-- The payments at concrete inputs: restaurant 1 of tenant 5, with a charge of 1000 cents by Stripe for
-- the order 9, a COD charge, an approved payout request and one that was just made.
use deliveryways.Prelude.{
  ℕ, ◌≡◌, refl, true, false, none, some, List, [], ◌∷◌, arith, ◌==◌, if◌then◌else◌, ok, err,
}
use deliveryways.Prelude.Int.{pos, ◌+ℤ◌, ◌-ℤ◌}
use deliveryways.Auth.{super_admin, AuthUserContext, staff}
use deliveryways.Payments.History.{
  approves_payout, pays_payout, Request, refunds_payment, updates_status, run, run-Ledgers, perform,
}
use deliveryways.Payments.Handlers.{
  balance_of, credit_restaurant_wallet_for_payment, checked_payment, refund_amount, checked_refund,
  refund_payment,
}
use deliveryways.Payments.Books.{Ledgers}
use deliveryways.Payments.Store.{
  PaymentError, stripe, charge, other_target, ProviderData, PaymentTransaction, order_credit,
  RestaurantWalletTransaction, requested, approved, RestaurantPayoutRequest, UpdatePaymentStatusDto,
  Db, sum_successful_refunds, update_payment, create_payment, update_order_payment_status,
  update_order_state,
}
use deliveryways.Wallet.Tests.{start, start-Books}
use deliveryways.Wallet.Store.{pending, paid, running}
use deliveryways.Payments.Moves.{pay, review, IsReviewed, review-IsReviewed, credit_once}
use deliveryways.Payments.Webhooks.{
  read_wallet_top_up_context, update_wallet_top_up_status, checked_update_status, update_status,
}
use deliveryways.Payments.Access.{assert_admin_payment_access}
use deliveryways.Payments.Effects.{IsRefunded}
use deliveryways.Payments.Refunded.{refund_payment-IsRefunded}
use deliveryways.Payments.Checks.{IsCleared, IsRefundable}
use deliveryways.Payments.PayoutLaws.{payout_completes, payout_once}
use deliveryways.Payments.Payouts.{
  approve_restaurant_payout_request, settled, checked_completion,
  complete_restaurant_payout_request, mark_restaurant_payout_paid,
}
use deliveryways.Wallet.OrderBenefits.{restore_order_benefits}
use deliveryways.Wallet.Accounts.{
  ensure_wallet_account, ensure_loyalty_account, ensure_loyalty_program, apply_wallet_top_up,
}
use deliveryways.Payments.Authority.{outsider_changes_nothing}

abbrev super_user : AuthUserContext
super_user = record { uid = 1; role = super_admin; tid = none; rid = none; bid = none }

abbrev no_data : ProviderData
no_data = record {
  target = other_target;
  customer_id = none;
  subscription_id = none;
  expires_at = none;
}

abbrev reference : List ℕ
reference = 112 ∷ 105 ∷ []

abbrev charged : PaymentTransaction
charged = record {
  id = 1;
  order_id = some 9;
  restaurant_id = 1;
  branch_id = 2;
  payment_method = stripe;
  kind = charge;
  status = paid;
  amount = 1000;
  provider_ref = some reference;
  provider_data = no_data;
}

abbrev top_up : PaymentTransaction
top_up = record charged {
  id = 2;
  order_id = none;
  status = pending;
  provider_ref = none;
  provider_data = record no_data { customer_id = some 7 };
}

abbrev first_request : RestaurantPayoutRequest
first_request = record {
  restaurant_id = 1;
  requested_by = 40;
  reviewed_by = some 1;
  paid_by = none;
  status = approved;
  amount = 600;
}

abbrev credit_row : RestaurantWalletTransaction
credit_row = record {
  restaurant_id = 1;
  payment_transaction_id = some 1;
  payout_request_id = none;
  kind = order_credit;
  amount = pos 1000;
  balance_after = pos 1000;
}

abbrev opening : Db
opening = record {
  payments = charged ∷ top_up ∷ [];
  balance = λ r. if r == 1 then some (pos 1000) else none;
  wallet_transactions = credit_row ∷ [];
  payout_request = λ q.
      if q == 50
      then some first_request
      else (if q == 51 then some (record first_request { status = requested }) else none);
  subscription = λ s. none;
  has_payout_provider = λ r. false;
  orders = record {
    order = λ o. none;
    restaurant_tenant = λ r. if r == 1 then some 5 else none;
    events = [];
  };
  benefits = start;
  events = [];
  next_id = 60;
}

opening-Ledgers : Ledgers opening
unfolding ◌+ℤ◌
opening-Ledgers = record {
  customers = start-Books;
  restaurants = λ r. record { agrees = ground arith; nonneg = ground arith };
  refunds = λ o. ground arith;
}

abbrev nothing_new : UpdatePaymentStatusDto
nothing_new = record { provider_ref = none; provider_data = none }

abbrev requests : List Request
requests =
    refunds_payment (λ ref n. true) super_user 1 (some 300) nothing_new 5000
    ∷ updates_status (λ ref. true) super_user 2 paid nothing_new 6000
    ∷ pays_payout super_user 50
    ∷ approves_payout super_user 51
    ∷ pays_payout super_user 51
    ∷ refunds_payment (λ ref n. true) super_user 1 none nothing_new 5000
    ∷ []

run-Ledgers_example : Ledgers (run requests opening)
run-Ledgers_example = run-Ledgers requests opening opening-Ledgers

balance_test : balance_of 1 (run requests opening) ≡ pos 400
unfolding run perform refund_payment checked_refund checked_payment assert_admin_payment_access
    mark_restaurant_payout_paid checked_completion complete_restaurant_payout_request
    approve_restaurant_payout_request update_status checked_update_status ◌-ℤ◌ ◌+ℤ◌
    update_wallet_top_up_status read_wallet_top_up_context apply_wallet_top_up running
    restore_order_benefits sum_successful_refunds create_payment update_payment
    update_order_payment_status update_order_state ensure_wallet_account ensure_loyalty_account
    ensure_loyalty_program
balance_test = refl

refund_payment-IsRefunded_example :
    let db' = (refund_payment (λ ref n. true) super_user 1 (some 300) nothing_new 5000 opening).1 in
    (p : PaymentTransaction) × (o : ℕ) × (c : IsCleared super_user 1 false opening p o)
    × IsRefundable (some 300) opening p o
    × IsRefunded super_user 5000 p o (refund_amount (some 300) p) c.order opening db'
unfolding refund_payment checked_refund checked_payment assert_admin_payment_access
    restore_order_benefits running sum_successful_refunds create_payment update_payment
    update_order_payment_status update_order_state ensure_wallet_account ◌-ℤ◌ ◌+ℤ◌
    ensure_loyalty_account ensure_loyalty_program
refund_payment-IsRefunded_example =
    refund_payment-IsRefunded (λ ref n. true) super_user 1 (some 300) nothing_new 5000 opening
      (refund_payment (λ ref n. true) super_user 1 (some 300) nothing_new 5000 opening).1 refl

payout_completes_example :
    let after_call = mark_restaurant_payout_paid super_user 50 opening in
    (after_call.0 ≡ ok tt)
    × (balance_of 1 after_call.1 ≡ pos 1000 -ℤ pos 600)
    × (after_call.1.payout_request 50 ≡ some (settled 1 first_request))
payout_completes_example =
    payout_completes super_user 50 first_request opening refl refl (omega arith) refl

payout_once_example :
    let first = mark_restaurant_payout_paid super_user 50 opening in
    mark_restaurant_payout_paid super_user 50 first.1 ≡ (ok tt, first.1)
unfolding mark_restaurant_payout_paid checked_completion complete_restaurant_payout_request ◌-ℤ◌
payout_once_example = payout_once super_user super_user 50 opening refl

review-IsReviewed_example :
    IsReviewed first_request ((review pay super_user 50 opening).1.payout_request 50)
unfolding mark_restaurant_payout_paid checked_completion complete_restaurant_payout_request ◌-ℤ◌
review-IsReviewed_example = review-IsReviewed pay super_user 50 first_request opening refl refl

abbrev uncredited : Db
uncredited = record opening { wallet_transactions = []; balance = λ r. none }

credit_once_example :
    let first = credit_restaurant_wallet_for_payment charged uncredited in
    let second = credit_restaurant_wallet_for_payment charged first in
    (balance_of 1 second ≡ balance_of 1 first)
    × (second.wallet_transactions ≡ first.wallet_transactions)
credit_once_example = credit_once charged 1 uncredited

abbrev staff_user : AuthUserContext
staff_user = record { uid = 77; role = staff; tid = some 5; rid = some 1; bid = some 2 }

outsider_changes_nothing_example :
    (e : PaymentError) × (perform
        (refunds_payment (λ ref n. true) staff_user 1 none nothing_new 5000)
        opening
      ≡ (err e, opening))
outsider_changes_nothing_example =
    outsider_changes_nothing (refunds_payment (λ ref n. true) staff_user 1 none nothing_new 5000)
      staff_user opening refl refl
