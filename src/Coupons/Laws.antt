-- ===== src/Coupons/Laws.antt =====
-- What a coupon that holds takes off, and the choice of the best promotion.
use deliveryways.Prelude.{
  ℕ, ◌*◌, ◌≤◌, ◌<◌, ◌≡◌, refl, subst, ◌≢◌, ◌⊎◌, true, false, some, arith, ◌==◌, ok, throw_if,
  bind_ok, then_ok, throw_if_ok, ok_inj,
}
use deliveryways.Coupons.Validate.{
  unit, to_cents, resolve_flat_discount_amount, raw_discount, reached, is_below, is_other_branch,
  is_gift, assert_usable, validate_resolved_coupon,
}
use deliveryways.Coupons.Eligible.{resolve_eligible_subtotal}
use deliveryways.Coupons.Schedule.{is_coupon_schedule_active, is_coupon_within_date_window}
use deliveryways.Coupons.Rows.{
  percentage, Coupon, CouponValidationInput, CouponValidationResult, nothing_eligible,
}

resolve_flat-bound :
    (coupon : Coupon) (input : CouponValidationInput) (eligible : ℕ)
    → resolve_flat_discount_amount coupon input eligible ≤ eligible
unfolding resolve_flat_discount_amount
resolve_flat-bound coupon input eligible = ground arith

raw_discount-bound :
    (coupon : Coupon) (input : CouponValidationInput) (eligible : ℕ) {x : ℕ}
    → raw_discount coupon input eligible ≡ ok x
    → x ≤ eligible * unit
unfolding raw_discount
raw_discount-bound coupon input eligible h =
    ground (arith, resolve_flat-bound coupon input eligible)

to_cents-bound : (x e : ℕ) → x ≤ e * unit → to_cents x ≤ e
unfolding to_cents
to_cents-bound x e h = omega arith

-- What stands behind a result.
pub record IsValid (usage : ℕ → ℕ → ℕ) (now : ℕ) (coupon : Coupon) (input : CouponValidationInput)
    (r : CouponValidationResult) : Type 0 where
  pub usable : assert_usable usage now coupon input ≡ ok tt
  pub eligible : resolve_eligible_subtotal coupon input ≡ ok r.eligible_subtotal
  pub not_zero : r.eligible_subtotal ≢ 0
  pub raw : ℕ
  pub discount : raw_discount coupon input r.eligible_subtotal ≡ ok raw
  pub rounded : r.discount_amount ≡ to_cents raw

pub validate-IsValid :
    (usage : ℕ → ℕ → ℕ) (now : ℕ) (coupon : Coupon) (input : CouponValidationInput)
    {r : CouponValidationResult}
    → validate_resolved_coupon usage now coupon input ≡ ok r
    → IsValid usage now coupon input r
unfolding validate_resolved_coupon
validate-IsValid usage now coupon input h =
    let (usable, h₁) = then_ok (assert_usable usage now coupon input) _ h in
    let (e, eligible, h₂) = bind_ok (resolve_eligible_subtotal coupon input) _ h₁ in
    let (some_left, h₃) = then_ok (throw_if (e == 0) nothing_eligible) _ h₂ in
    let (raw, discount, h₄) = bind_ok (raw_discount coupon input e) _ h₃ in
    let nonzero : e ≢ 0 = λ z. absurd (cc (throw_if_ok (e == 0) nothing_eligible some_left, z)) in
    subst (IsValid usage now coupon input) (ok_inj h₄) (record {
      usable = usable;
      eligible = eligible;
      not_zero = nonzero;
      raw = raw;
      discount = discount;
      rounded = refl;
    })

-- The conditions that do not look at the lines of the order.
pub assert_usable_lem :
    (usage : ℕ → ℕ → ℕ) (now : ℕ) (coupon : Coupon) (input : CouponValidationInput)
    → assert_usable usage now coupon input ≡ ok tt
    → (coupon.is_active ≡ true)
      × (coupon.is_status_active ≡ true)
      × (coupon.is_deleted ≡ false)
      × (is_coupon_within_date_window coupon.starts_at coupon.expires_at now ≡ true)
      × (is_coupon_schedule_active coupon now ≡ true)
      × (is_other_branch coupon.branch_id input.branch_id ≡ false)
      × (is_gift coupon.kind ≡ false)
      × (reached coupon.max_uses coupon.used_count ≡ false)
      × (reached coupon.max_uses_per_customer (usage coupon.id input.customer_id) ≡ false)
      × ((input.ignore_min_order_amount ≡ true)
          ⊎ (is_below coupon.min_order_amount input.subtotal ≡ false))
unfolding assert_usable
assert_usable_lem usage now coupon input h = ground arith

-- A coupon that validates is active, also by its status, and not deleted, in force at the time by its
-- dates and its schedule, of no other branch, no gift card, below its limits for everyone and for the
-- customer, and the order reaches its minimum unless that is waived; what it takes off is at most the
-- part of the order it is about, which is not zero.
pub validate_lem :
    (usage : ℕ → ℕ → ℕ) (now : ℕ) (coupon : Coupon) (input : CouponValidationInput)
    {r : CouponValidationResult}
    → validate_resolved_coupon usage now coupon input ≡ ok r
    → (r.discount_amount ≤ r.eligible_subtotal)
      × (0 < r.eligible_subtotal)
      × (coupon.is_active ≡ true)
      × (coupon.is_status_active ≡ true)
      × (coupon.is_deleted ≡ false)
      × (is_coupon_within_date_window coupon.starts_at coupon.expires_at now ≡ true)
      × (is_coupon_schedule_active coupon now ≡ true)
      × (is_other_branch coupon.branch_id input.branch_id ≡ false)
      × (is_gift coupon.kind ≡ false)
      × (reached coupon.max_uses coupon.used_count ≡ false)
      × (reached coupon.max_uses_per_customer (usage coupon.id input.customer_id) ≡ false)
      × ((input.ignore_min_order_amount ≡ true)
          ⊎ (is_below coupon.min_order_amount input.subtotal ≡ false))
validate_lem usage now coupon input {r} h =
    let v = validate-IsValid usage now coupon input h in
    let least =
      to_cents-bound v.raw r.eligible_subtotal
        (raw_discount-bound coupon input r.eligible_subtotal v.discount) in
    let (a, b, c, d, e, f, g, i, j, k) = assert_usable_lem usage now coupon input v.usable in
    (rw v.rounded least, ground (arith, v.not_zero), a, b, c, d, e, f, g, i, j, k)

percentage_raw :
    (coupon : Coupon) (input : CouponValidationInput) (eligible most : ℕ) {x : ℕ}
    → coupon.discount_type ≡ percentage
    → coupon.max_discount_amount ≡ some most
    → raw_discount coupon input eligible ≡ ok x
    → (x ≤ most * unit) × (x ≤ eligible * coupon.discount_value)
unfolding raw_discount
percentage_raw coupon input eligible most is_percent is_most h = ground arith

-- A percentage coupon never takes off more than its maximum.
pub percentage-bound :
    (usage : ℕ → ℕ → ℕ) (now : ℕ) (coupon : Coupon) (input : CouponValidationInput) (most : ℕ)
    {r : CouponValidationResult}
    → coupon.discount_type ≡ percentage
    → coupon.max_discount_amount ≡ some most
    → validate_resolved_coupon usage now coupon input ≡ ok r
    → r.discount_amount ≤ most
percentage-bound usage now coupon input most {r} is_percent is_most h =
    let v = validate-IsValid usage now coupon input h in
    rw v.rounded (
      to_cents-bound v.raw most
        (percentage_raw coupon input _ most is_percent is_most v.discount).0)
