-- ===== src/Coupons/Rows.antt =====
-- The rows and inputs of coupons.service.ts. Amounts are cents; the value of a percentage coupon is
-- in hundredths of a percent. An entry of `activeDays` is what `Number` makes of it, and nothing
-- where that is no natural number. A line carries its unit price, as the callers give it, and a
-- missing `lineItems` is an empty list, which the code treats alike.
use deliveryways.Prelude.{ℕ, Bool, Option, List}

pub data CouponKind : Type 0 where
  promotion happy_hour gift_card : CouponKind

pub data CouponDiscountType : Type 0 where
  flat percentage fixed_price : CouponDiscountType

pub data CouponApplyMode : Type 0 where
  order_total scoped_items : CouponApplyMode

pub data CouponDealSelectionMode : Type 0 where
  fixed_items flexible_items : CouponDealSelectionMode

pub record Coupon : Type 0 where
  pub id : ℕ
  pub kind : CouponKind
  pub is_active : Bool
  pub is_status_active : Bool
  pub is_deleted : Bool
  pub branch_id : Option ℕ
  pub apply_mode : CouponApplyMode
  pub discount_type : CouponDiscountType
  pub discount_value : ℕ
  pub max_discount_amount : Option ℕ
  pub min_order_amount : Option ℕ
  pub max_uses : Option ℕ
  pub max_uses_per_customer : Option ℕ
  pub used_count : ℕ
  pub starts_at : Option ℕ
  pub expires_at : Option ℕ
  pub active_days : List (Option ℕ)
  pub daily_start_time : Option (List ℕ)
  pub daily_end_time : Option (List ℕ)
  pub scope_menu_item_id : Option ℕ
  pub scope_category_id : Option ℕ
  pub scope_menu_items : List ℕ
  pub scope_categories : List ℕ
  pub deal_selection_mode : Option CouponDealSelectionMode
  pub deal_required_quantity : Option ℕ

pub record CouponValidationLineInput : Type 0 where
  pub menu_item_id : ℕ
  -- `categoryIds`, or the one `categoryId` where they are not given.
  pub category_ids : List ℕ
  pub line_total : ℕ
  pub unit_price : ℕ
  pub quantity : Option ℕ
  pub deal_id : Option ℕ

pub record CouponValidationInput : Type 0 where
  pub branch_id : ℕ
  pub customer_id : ℕ
  pub subtotal : ℕ
  pub menu_item_ids : List ℕ
  pub category_ids : List ℕ
  pub line_items : List CouponValidationLineInput
  pub ignore_min_order_amount : Bool

pub record CouponValidationResult : Type 0 where
  pub coupon : Coupon
  pub discount_amount : ℕ
  pub eligible_subtotal : ℕ

pub data CouponError : Type 0 where
  inactive out_of_window out_of_schedule other_branch is_gift_card : CouponError
  usage_limit customer_limit below_minimum nothing_eligible : CouponError
  not_scoped bad_quantity too_few_items too_few_scoped missing_item : CouponError
  not_applicable : CouponError
