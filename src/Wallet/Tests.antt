-- ===== src/Wallet/Tests.antt =====
-- The ledger at concrete inputs: customer 7 of restaurant 1, with 500 cents and 80 points from the
-- profile, and the paid order 9.
use deliveryways.Prelude.{
  ℕ, ◌≡◌, refl, true, false, ◌&&◌, none, some, List, [], ◌∷◌, arith, ◌==◌, if◌then◌else◌, text_eq,
  ok, ◌≢◌,
}
use deliveryways.Prelude.Int.{pos, ◌+ℤ◌, ◌-ℤ◌}
use deliveryways.Auth.{branch_admin, customer, AuthUserContext}
use deliveryways.Wallet.History.{
  Request, run, adjusts_wallet, tops_up, redeems_code, takes_benefits, restores_benefits, run-Books,
}
use deliveryways.Wallet.Store.{
  Order, Db, gift_card, Coupon, active, paid, Customer, Context, running,
}
use deliveryways.Wallet.Once.{top_up_once, award_once, restore_once}
use deliveryways.Wallet.Reconciled.{Books, wallet_balance, points_balance, wallet_of, posted_wallet}
use deliveryways.Wallet.OrderBenefits.{
  award_points_for_paid_order, QuoteBenefits, calculate_quote_benefits, apply_order_benefits,
  order_context, for_refund, for_payment_reversal, restore_order_benefits,
}
use deliveryways.Wallet.Accounts.{
  ensure_wallet_account, ensure_loyalty_account, ensure_loyalty_program, apply_wallet_top_up,
  resolve_admin_managed_customer,
}
use deliveryways.Wallet.GiftCardLaws.{IsAccepted, card_used, card_row}
use deliveryways.Wallet.RoundTrip.{restore-apply}
use deliveryways.Wallet.GiftCardUse.{redeem_effect, redeem_last_use}
use deliveryways.Wallet.GiftCards.{
  normalize_gift_card_code, find_purchase, is_buyer, card_check, redeem_code,
  redeem_gift_card_to_wallet, find_gift_card,
}

abbrev card_code : List ℕ
card_code = 71 ∷ 49 ∷ []

abbrev card : Coupon
card = record {
  id = 3;
  kind = gift_card;
  branch_id = none;
  is_active = true;
  status = active;
  is_deleted = false;
  discount_value = 700;
  max_uses = some 1;
  max_uses_per_customer = some 1;
  used_count = 0;
  starts_at = none;
  expires_at = none;
}

abbrev pub paid_order : Order
paid_order = record {
  restaurant_id = 1;
  customer_id = 7;
  total_amount = 400000;
  payment_status = paid;
  wallet_applied_amount = 200;
  loyalty_points_redeemed = 60;
  loyalty_points_awarded = 0;
}

abbrev the_customer : Customer
the_customer = record {
  role = customer;
  tenant_id = some 5;
  restaurant_id = some 1;
  branch_id = some 2;
  is_active = true;
  is_deleted = false;
}

abbrev pub start : Db
start = record {
  wallet_account = λ r c. none;
  wallet_transactions = [];
  loyalty_account = λ r c. none;
  loyalty_transactions = [];
  loyalty_program = λ r. none;
  coupon = λ r code. if r == 1 && text_eq code card_code then some card else none;
  coupon_usages = [];
  order = λ o. if o == 9 then some paid_order else none;
  customer = λ c. if c == 7 then some the_customer else none;
  legacy_metadata = λ c. record { balance = pos 500; points = pos 80; redeemed_points = pos 0 };
  wallet_currency = λ r c. "PKR";
  payment_currency = λ p. none;
  next_id = 10;
}

abbrev ctx : Context
ctx = record { customer_id = 7; restaurant_id = 1; branch_id = some 2 }

abbrev branch_admin_user : AuthUserContext
branch_admin_user = record {
  uid = 40;
  role = branch_admin;
  tid = some 5;
  rid = some 1;
  bid = some 2;
}

pub start-Books : Books start
unfolding ◌+ℤ◌
start-Books r c = record {
  wallet = refl;
  points = refl;
  wallet_nonneg = omega arith;
  points_nonneg = omega arith;
}

abbrev requests : List Request
requests =
    tops_up ctx 300 44
    ∷ redeems_code ctx 1000 card_code
    ∷ takes_benefits ctx 9 200 60
    ∷ adjusts_wallet branch_admin_user 7 5000 false
    ∷ restores_benefits 9 for_refund
    ∷ []

run-Books_example : Books (run requests start)
run-Books_example = run-Books requests start start-Books

top_up_once_example :
    let first = apply_wallet_top_up ctx 300 44 start in
    apply_wallet_top_up ctx 999 44 first.1 ≡ (ok (pos 800, pos 300), first.1)
unfolding apply_wallet_top_up running ensure_wallet_account ◌+ℤ◌
top_up_once_example = top_up_once ctx 300 999 44 start refl

award_once_example :
    let first = award_points_for_paid_order 9 false 1000 start in
    award_points_for_paid_order 9 true 2000 first.1 ≡ (ok none, first.1)
unfolding award_points_for_paid_order running ensure_loyalty_account ensure_loyalty_program ◌+ℤ◌
award_once_example = award_once 9 false true 1000 2000 200 start refl

restore_once_example :
    let first = restore_order_benefits 9 for_refund start in
    restore_order_benefits 9 for_payment_reversal first.1 ≡ (ok tt, first.1)
restore_once_example = restore_once 9 paid_order for_refund for_payment_reversal start refl

checkout_test : (apply_order_benefits (order_context paid_order) 9 200 60 start).0 ≡ ok tt
unfolding apply_order_benefits running ensure_wallet_account ensure_loyalty_account
    ensure_loyalty_program ◌+ℤ◌ ◌-ℤ◌
checkout_test = refl

restore-apply_example :
    let taken = apply_order_benefits (order_context paid_order) 9 200 60 start in
    let db' = (restore_order_benefits 9 for_refund taken.1).1 in
    (wallet_balance 1 7 db' ≡ wallet_balance 1 7 start)
    × (points_balance 1 7 db' ≡ points_balance 1 7 start)
restore-apply_example = restore-apply 1 7 9 paid_order for_refund start refl refl refl checkout_test

redeem_test : (redeem_gift_card_to_wallet ctx 1000 card_code start).0 ≡ ok (pos 1200, 700)
unfolding redeem_gift_card_to_wallet redeem_code card_check normalize_gift_card_code running
    ensure_wallet_account ◌+ℤ◌
redeem_test = refl

normal_code : List ℕ
normal_code = normalize_gift_card_code card_code

redeem_effect_example :
    let called = redeem_gift_card_to_wallet ctx 1000 card_code start in
    (found : Coupon) × IsAccepted ctx 1000 normal_code start found
    × (is_buyer 7 (find_purchase 1 normal_code start) ≡ false)
    × (700 ≡ found.discount_value)
    × (pos 1200 ≡ (wallet_of ctx start).balance +ℤ pos 700)
    × (called.1
        ≡ posted_wallet ctx (card_row ctx found start) (card_used ctx normal_code found start))
unfolding normal_code
redeem_effect_example = redeem_effect ctx 1000 card_code start redeem_test

abbrev quote : QuoteBenefits
quote = record {
  wallet_applied_amount = pos 300;
  loyalty_discount_amount = pos 6000;
  loyalty_points_redeemed = 60;
  total_amount = pos 2700;
}

-- Half a cent from the wallet makes the parts of ten euros add up to 10.01.
half_cent_test :
    (calculate_quote_benefits ctx (pos 1000) 5000 0 start).0
    ≡ ok (record {
      wallet_applied_amount = pos 1;
      loyalty_discount_amount = pos 0;
      loyalty_points_redeemed = 0;
      total_amount = pos 1000;
    })
unfolding calculate_quote_benefits running ensure_wallet_account ensure_loyalty_account
    ensure_loyalty_program ◌+ℤ◌ ◌-ℤ◌
half_cent_test = refl

scope_test : (resolve_admin_managed_customer branch_admin_user 7 start).0 ≡ ok the_customer
unfolding resolve_admin_managed_customer running
scope_test = refl

abbrev other_ctx : Context
other_ctx = record { customer_id = 8; restaurant_id = 1; branch_id = none }

found_test : find_gift_card 1 (normalize_gift_card_code card_code) start ≡ some card
unfolding normalize_gift_card_code
found_test = refl

redeem_last_use_example :
    (redeem_gift_card_to_wallet other_ctx 2000 card_code
      (redeem_gift_card_to_wallet ctx 1000 card_code start).1).0
    ≢ ok (pos 1200, 700)
redeem_last_use_example =
    redeem_last_use ctx other_ctx 1000 2000 card_code card start refl found_test refl redeem_test
