-- ===== src/Coupons/Tests.antt =====
-- Coupons at concrete inputs: a fifth off, ten at most, from 10 January 1970 to the end of the
-- 20th.
use mathlib.Core.List.{Memᴰ}
use deliveryways.Prelude.{
  ℕ, ◌/◌, ◌%◌, ◌≤◌, ◌<◌, ◌≡◌, refl, ◌↔◌, ◌⊎◌, true, false, none, some, [], ◌∷◌, ok,
}
use deliveryways.Coupons.Validate.{
  is_other_branch, is_gift, to_cents, resolve_flat_discount_amount, raw_discount, reached, is_below,
  assert_usable, validate_resolved_coupon, should_match_item_preview_eligibility, best_of,
  find_best_auto_apply_promotion,
}
use deliveryways.Coupons.Eligible.{resolve_scoped_ids, resolve_eligible_subtotal}
use deliveryways.Coupons.Best.{
  Offers, is_beaten, find_best_auto_apply_promotion-Offers, find_best_auto_apply_promotion_max,
}
use deliveryways.Coupons.Laws.{validate_lem, percentage-bound}
use deliveryways.Coupons.Schedule.{
  day_ms, read_active_days, is_coupon_schedule_active, is_coupon_within_date_window,
  is_coupon_within_date_window_lem,
}
use deliveryways.Coupons.Rows.{
  promotion, flat, percentage, order_total, Coupon, CouponValidationInput, CouponValidationResult,
}

abbrev fifth_off : Coupon
fifth_off = record {
  id = 1;
  kind = promotion;
  is_active = true;
  is_status_active = true;
  is_deleted = false;
  branch_id = none;
  apply_mode = order_total;
  discount_type = percentage;
  discount_value = 2000;
  max_discount_amount = some 1000;
  min_order_amount = some 500;
  max_uses = some 3;
  max_uses_per_customer = some 1;
  used_count = 2;
  starts_at = some 777600000;
  expires_at = some 1641600000;
  active_days = [];
  daily_start_time = none;
  daily_end_time = none;
  scope_menu_item_id = none;
  scope_category_id = none;
  scope_menu_items = [];
  scope_categories = [];
  deal_selection_mode = none;
  deal_required_quantity = none;
}

abbrev two_off : Coupon
two_off = record fifth_off { id = 2; discount_type = flat; discount_value = 200 }

abbrev basket : CouponValidationInput
basket = record {
  branch_id = 4;
  customer_id = 7;
  subtotal = 3333;
  menu_item_ids = [];
  category_ids = [];
  line_items = [];
  ignore_min_order_amount = false;
}

abbrev unused : ℕ → ℕ → ℕ
unused coupon who = 0

abbrev now : ℕ
now = 1641600005

abbrev fifth_result : CouponValidationResult
fifth_result = record { coupon = fifth_off; discount_amount = 667; eligible_subtotal = 3333 }

abbrev two_result : CouponValidationResult
two_result = record { coupon = two_off; discount_amount = 200; eligible_subtotal = 3333 }

fifth_test : validate_resolved_coupon unused now fifth_off basket ≡ ok fifth_result
unfolding validate_resolved_coupon assert_usable is_coupon_within_date_window
    is_coupon_schedule_active read_active_days resolve_eligible_subtotal resolve_scoped_ids
    raw_discount to_cents
fifth_test = refl

two_test : validate_resolved_coupon unused now two_off basket ≡ ok two_result
unfolding validate_resolved_coupon assert_usable is_coupon_within_date_window
    is_coupon_schedule_active read_active_days resolve_eligible_subtotal resolve_scoped_ids
    raw_discount to_cents resolve_flat_discount_amount
two_test = refl

best_test :
    find_best_auto_apply_promotion unused now basket (two_off ∷ []) (fifth_off ∷ [])
    ≡ some fifth_result
unfolding find_best_auto_apply_promotion best_of should_match_item_preview_eligibility
best_test = rw (two_test, fifth_test) refl

validate_lem_example :
    (667 ≤ 3333)
    × (0 < 3333)
    × (true ≡ true)
    × (true ≡ true)
    × (false ≡ false)
    × (is_coupon_within_date_window (some 777600000) (some 1641600000) now ≡ true)
    × (is_coupon_schedule_active fifth_off now ≡ true)
    × (is_other_branch fifth_off.branch_id basket.branch_id ≡ false)
    × (is_gift fifth_off.kind ≡ false)
    × (reached (some 3) 2 ≡ false)
    × (reached (some 1) 0 ≡ false)
    × ((false ≡ true) ⊎ (is_below (some 500) 3333 ≡ false))
validate_lem_example = validate_lem unused now fifth_off basket fifth_test

percentage-bound_example : 667 ≤ 1000
percentage-bound_example = percentage-bound unused now fifth_off basket 1000 refl refl fifth_test

find_best_auto_apply_promotion-Offers_example :
    (c : Coupon) × Memᴰ c (two_off ∷ fifth_off ∷ []) × Offers unused now basket fifth_result c
find_best_auto_apply_promotion-Offers_example =
    find_best_auto_apply_promotion-Offers unused now basket (two_off ∷ []) (fifth_off ∷ [])
      best_test

Offers-test : Offers unused now basket two_result two_off
unfolding Offers should_match_item_preview_eligibility
Offers-test = (two_test, λ z. absurd (cc z))

find_best_auto_apply_promotion_max_example :
    is_beaten two_result
      (find_best_auto_apply_promotion unused now basket (two_off ∷ []) (fifth_off ∷ []))
    ≡ false
find_best_auto_apply_promotion_max_example =
    find_best_auto_apply_promotion_max unused now basket (two_off ∷ []) (fifth_off ∷ []) two_off
      two_result (Memᴰ.head refl) Offers-test

is_coupon_within_date_window_lem_example :
    (is_coupon_within_date_window (some 777600000) (some 1641600000) now ≡ true) ↔ (
      (777600000 ≤ now)
      × ((now ≤ 1641600000) ⊎ ((1641600000 % day_ms ≡ 0) × (now / day_ms ≡ 1641600000 / day_ms))))
is_coupon_within_date_window_lem_example = is_coupon_within_date_window_lem 777600000 1641600000 now

abbrev one_o_clock : ℕ
one_o_clock = 60
