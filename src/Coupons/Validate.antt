-- ===== src/Coupons/Validate.antt =====
-- coupons.service.ts: whether a coupon holds for an order, what it takes off, and the best
-- promotion that applies by itself. `usage` is the count of a coupon's uses by a customer.
use deliveryways.Prelude.{
  ℕ, ◌+◌, ◌-◌, ◌*◌, ◌/◌, min, Bool, true, false, ◌&&◌, ◌||◌, not, Option, none, some, List, [], ◌∷◌,
  ◌++◌, map, ltb, leb, ◌==◌, if◌then◌else◌, is_some, or_default, length, every, select, sum_by,
  includes, Outcome, ok, err, throw_if, ◌>>=◌, ◌>>◌,
}
use deliveryways.Coupons.Eligible.{
  is_order_total, is_flexible, item_ids, scoped_category_ids, resolve_eligible_deal_quantity,
  at_least_one, none_in, resolve_eligible_subtotal, resolve_eligible_line_items,
}
use deliveryways.Coupons.Schedule.{is_coupon_schedule_active, is_coupon_within_date_window}
use deliveryways.Coupons.Rows.{
  CouponKind, happy_hour, gift_card, flat, percentage, fixed_price, Coupon, CouponValidationInput,
  CouponValidationResult, CouponError, inactive, out_of_window, out_of_schedule, other_branch,
  is_gift_card, usage_limit, customer_limit, below_minimum, nothing_eligible, not_scoped,
  bad_quantity, too_few_items, too_few_scoped, missing_item,
}

-- Amounts inside the computation are in ten-thousandths of a cent; `toDecimalPlaces(2)` rounds half
-- up.
abbrev pub unit : ℕ
unit = 10000

unfoldable pub to_cents : ℕ → ℕ
to_cents x = (x + 5000) / unit

abbrev pub refuse_missing : List ℕ → (ℕ → Bool) → Outcome CouponError (Unit {0})
refuse_missing items selected = throw_if (not (every selected items)) missing_item

-- The item ids of an order outside its deals.
abbrev selected_ids : CouponValidationInput → List ℕ
selected_ids input = elim input.line_items [
  | [] ↦ input.menu_item_ids
  | line ∷ lines ↦ map (λ l. l.menu_item_id) (select (λ l. not (is_some l.deal_id)) (line ∷ lines))
]

unfoldable pub assert_fixed_price_promotion_eligible :
    Coupon → CouponValidationInput → Outcome CouponError (Unit {0})
assert_fixed_price_promotion_eligible coupon input =
    let items = item_ids coupon in
    let categories = scoped_category_ids coupon in
    let required = or_default coupon.deal_required_quantity 0 in
    throw_if (is_order_total coupon.apply_mode) not_scoped
    >> (if is_flexible coupon.deal_selection_mode
        then (throw_if (ltb required 1) bad_quantity
            >> throw_if (ltb (resolve_eligible_deal_quantity items categories input) required)
                too_few_items)
        else (throw_if (not (none_in categories) || ltb (length items) 2) too_few_scoped
            >> refuse_missing items (λ i. includes i (selected_ids input))))

unfoldable pub resolve_flat_discount_amount : Coupon → CouponValidationInput → ℕ → ℕ
resolve_flat_discount_amount coupon input eligible =
    if is_order_total coupon.apply_mode
    then min coupon.discount_value eligible
    else elim (resolve_eligible_line_items coupon input) [
      | [] ↦ min coupon.discount_value eligible
      | line ∷ lines ↦
          min
            (sum_by (λ l. coupon.discount_value * at_least_one (or_default l.quantity 1))
              (line ∷ lines))
            eligible
    ]

abbrev pub capped : Option ℕ → ℕ → ℕ
capped none x = x
capped (some most) x = min x (most * unit)

-- The discount before it is rounded.
unfoldable pub raw_discount : Coupon → CouponValidationInput → ℕ → Outcome CouponError ℕ
raw_discount coupon input eligible = elim coupon.discount_type [
  | fixed_price ↦
      assert_fixed_price_promotion_eligible coupon input
      >> ok ((eligible - coupon.discount_value) * unit)
  | flat ↦ ok (resolve_flat_discount_amount coupon input eligible * unit)
  | percentage ↦
      ok (
        min (capped coupon.max_discount_amount (eligible * coupon.discount_value))
          (eligible * unit))
]

abbrev pub is_other_branch : Option ℕ → ℕ → Bool
is_other_branch none branch = false
is_other_branch (some b) branch = not (b == branch)

abbrev pub is_gift : CouponKind → Bool
is_gift gift_card = true
is_gift _ = false

abbrev pub reached : Option ℕ → ℕ → Bool
reached none used = false
reached (some limit) used = leb limit used

abbrev pub is_below : Option ℕ → ℕ → Bool
is_below none subtotal = false
is_below (some least) subtotal = ltb subtotal least

-- The conditions that do not look at the order's lines.
unfoldable pub assert_usable :
    (ℕ → ℕ → ℕ) → ℕ → Coupon → CouponValidationInput → Outcome CouponError (Unit {0})
assert_usable usage now coupon input =
    throw_if (not coupon.is_active || not coupon.is_status_active || coupon.is_deleted) inactive
    >> throw_if (not (is_coupon_within_date_window coupon.starts_at coupon.expires_at now))
        out_of_window
    >> throw_if (not (is_coupon_schedule_active coupon now)) out_of_schedule
    >> throw_if (is_other_branch coupon.branch_id input.branch_id) other_branch
    >> throw_if (is_gift coupon.kind) is_gift_card
    >> throw_if (reached coupon.max_uses coupon.used_count) usage_limit
    >> throw_if (reached coupon.max_uses_per_customer (usage coupon.id input.customer_id))
        customer_limit
    >> throw_if
        (not input.ignore_min_order_amount && is_below coupon.min_order_amount input.subtotal)
        below_minimum

unfoldable pub validate_resolved_coupon :
    (ℕ → ℕ → ℕ) → ℕ → Coupon → CouponValidationInput → Outcome CouponError CouponValidationResult
validate_resolved_coupon usage now coupon input =
    assert_usable usage now coupon input
    >> (resolve_eligible_subtotal coupon input >>= λ eligible.
        throw_if (eligible == 0) nothing_eligible
        >> (raw_discount coupon input eligible >>= λ discount. ok (record {
          coupon = coupon;
          discount_amount = to_cents discount;
          eligible_subtotal = eligible;
        })))

abbrev is_happy_hour : CouponKind → Bool
is_happy_hour happy_hour = true
is_happy_hour _ = false

unfoldable pub should_match_item_preview_eligibility : Coupon → Bool
should_match_item_preview_eligibility coupon =
    is_happy_hour coupon.kind && not (is_order_total coupon.apply_mode)

-- A result beats the best so far by its discount, or by its subtotal where the discounts are equal.
abbrev pub beats : CouponValidationResult → CouponValidationResult → Bool
beats result best =
    ltb best.discount_amount result.discount_amount
    || (result.discount_amount == best.discount_amount
        && ltb best.eligible_subtotal result.eligible_subtotal)

abbrev pub better_of :
    Option CouponValidationResult → CouponValidationResult → Option CouponValidationResult
better_of none result = some result
better_of (some best) result = if beats result best then some result else some best

-- One turn of the loop: a coupon that throws or takes nothing off is passed over.
abbrev pub consider :
    Option CouponValidationResult
    → Outcome CouponError CouponValidationResult
    → Option CouponValidationResult
consider best (err e) = best
consider best (ok result) = if result.discount_amount == 0 then best else better_of best result

abbrev pub auto_input : Coupon → CouponValidationInput → CouponValidationInput
auto_input coupon input = record input {
  ignore_min_order_amount = should_match_item_preview_eligibility coupon;
}

unfoldable pub best_of :
    (ℕ → ℕ → ℕ)
    → ℕ
    → CouponValidationInput
    → List Coupon
    → Option CouponValidationResult
    → Option CouponValidationResult
best_of usage now input [] best = best
best_of usage now input (c ∷ cs) best =
    best_of usage now input cs
      (consider best (validate_resolved_coupon usage now c (auto_input c input)))

-- The promotions and the happy hours that the tables hold for the restaurant and the branch.
unfoldable pub find_best_auto_apply_promotion :
    (ℕ → ℕ → ℕ)
    → ℕ
    → CouponValidationInput
    → List Coupon
    → List Coupon
    → Option CouponValidationResult
find_best_auto_apply_promotion usage now input promotions happy_hours =
    best_of usage now input (promotions ++ happy_hours) none

-- `discountAmount` and `discountedAmount` of the preview of a base amount.
unfoldable pub build_promotion_preview : CouponValidationResult → ℕ → ℕ × ℕ
build_promotion_preview validation base =
    (validation.discount_amount, base - validation.discount_amount)
