-- ===== src/Coupons/Eligible.antt =====
-- coupons.service.ts: the part of an order that a coupon is about.
use deliveryways.Prelude.{
  ℕ, zero, suc, ◌+◌, Bool, true, false, ◌&&◌, ◌||◌, not, Option, none, some, List, [], ◌∷◌, ltb,
  leb, ◌==◌, if◌then◌else◌, is_some, or_default, length, any, select, sum_by, includes, Outcome, ok,
  err, throw_if, ◌>>◌,
}
use deliveryways.Coupons.Rows.{
  CouponDiscountType, fixed_price, CouponApplyMode, order_total, scoped_items,
  CouponDealSelectionMode, flexible_items, Coupon, CouponValidationLineInput, CouponValidationInput,
  CouponError, bad_quantity, too_few_items, not_applicable,
}

abbrev pub is_order_total : CouponApplyMode → Bool
is_order_total order_total = true
is_order_total scoped_items = false

abbrev pub is_fixed_price : CouponDiscountType → Bool
is_fixed_price fixed_price = true
is_fixed_price _ = false

-- `mode ?? FIXED_ITEMS`
abbrev pub is_flexible : Option CouponDealSelectionMode → Bool
is_flexible (some flexible_items) = true
is_flexible _ = false

abbrev pub unique : List ℕ → List ℕ
unique [] = []
unique (x ∷ xs) = x ∷ select (λ y. not (y == x)) (unique xs)

-- `[...new Set([...(primary ? [primary] : []), ...extras])]`
unfoldable pub resolve_scoped_ids : Option ℕ → List ℕ → List ℕ
resolve_scoped_ids none extras = unique extras
resolve_scoped_ids (some primary) extras = unique (primary ∷ extras)

abbrev pub item_ids : Coupon → List ℕ
item_ids coupon = resolve_scoped_ids coupon.scope_menu_item_id coupon.scope_menu_items

abbrev pub scoped_category_ids : Coupon → List ℕ
scoped_category_ids coupon = resolve_scoped_ids coupon.scope_category_id coupon.scope_categories

-- A line that is not part of a deal and whose item or a category of it is in the scope.
abbrev pub matches : List ℕ → List ℕ → CouponValidationLineInput → Bool
matches items categories line =
    not (is_some line.deal_id)
    && (includes line.menu_item_id items || any (λ c. includes c categories) line.category_ids)

abbrev pub count : (ℕ → Bool) → List ℕ → ℕ
count p = sum_by (λ x. if p x then 1 else 0)

unfoldable pub resolve_eligible_deal_quantity : List ℕ → List ℕ → CouponValidationInput → ℕ
resolve_eligible_deal_quantity items categories input = elim input.line_items [
  | [] ↦
      count (λ i. includes i items) input.menu_item_ids
      + count (λ c. includes c categories) input.category_ids
  | line ∷ lines ↦
      sum_by (λ l. if matches items categories l then or_default l.quantity 1 else 0) (line ∷ lines)
]

abbrev pub at_least_one : ℕ → ℕ
at_least_one zero = 1
at_least_one (suc n) = suc n

abbrev repeat : ℕ → ℕ → List ℕ → List ℕ
repeat zero price rest = rest
repeat (suc n) price rest = price ∷ repeat n price rest

-- The price of each single eligible item.
abbrev pub unit_prices : List ℕ → List ℕ → List CouponValidationLineInput → List ℕ
unit_prices items categories [] = []
unit_prices items categories (line ∷ lines) =
    let rest = unit_prices items categories lines in
    if matches items categories line
    then repeat (at_least_one (or_default line.quantity 1)) line.unit_price rest
    else rest

-- A stable sort, the dearest first.
abbrev insert_desc : ℕ → List ℕ → List ℕ
insert_desc x [] = x ∷ []
insert_desc x (y ∷ ys) = let rest = insert_desc x ys in if leb y x then x ∷ y ∷ ys else y ∷ rest

abbrev pub sort_desc : List ℕ → List ℕ
sort_desc [] = []
sort_desc (x ∷ xs) = insert_desc x (sort_desc xs)

abbrev pub take : ℕ → List ℕ → List ℕ
take zero xs = []
take (suc n) [] = []
take (suc n) (x ∷ xs) = x ∷ take n xs

abbrev pub sum : List ℕ → ℕ
sum = sum_by (λ x. x)

unfoldable pub resolve_flexible_deal_eligible_subtotal :
    List ℕ → List ℕ → ℕ → CouponValidationInput → Outcome CouponError ℕ
resolve_flexible_deal_eligible_subtotal items categories required input =
    throw_if (ltb required 1) bad_quantity >> elim input.line_items [
      | [] ↦
          if leb required (resolve_eligible_deal_quantity items categories input)
          then ok input.subtotal
          else err too_few_items
      | line ∷ lines ↦
          let prices = unit_prices items categories (line ∷ lines) in
          throw_if (ltb (length prices) required) too_few_items
          >> ok (sum (take required (sort_desc prices)))
    ]

-- Where the lines of the order are not given, its items and categories decide.
abbrev whole_if_matched : List ℕ → List ℕ → CouponValidationInput → Outcome CouponError ℕ
whole_if_matched items categories input =
    if any (λ i. includes i input.menu_item_ids) items
      || any (λ c. includes c input.category_ids) categories
    then ok input.subtotal
    else err not_applicable

abbrev pub none_in : List ℕ → Bool
none_in [] = true
none_in (x ∷ xs) = false

unfoldable pub resolve_eligible_subtotal : Coupon → CouponValidationInput → Outcome CouponError ℕ
resolve_eligible_subtotal coupon input =
    let items = item_ids coupon in
    let categories = scoped_category_ids coupon in
    if is_order_total coupon.apply_mode || (none_in items && none_in categories)
    then ok input.subtotal
    else (if is_fixed_price coupon.discount_type && is_flexible coupon.deal_selection_mode
        then resolve_flexible_deal_eligible_subtotal items categories
            (or_default coupon.deal_required_quantity 0) input
        else elim input.line_items [
          | [] ↦ whole_if_matched items categories input
          | line ∷ lines ↦
              ok (
                sum_by (λ l. if matches items categories l then l.line_total else 0) (line ∷ lines))
        ])

unfoldable pub resolve_eligible_line_items :
    Coupon → CouponValidationInput → List CouponValidationLineInput
resolve_eligible_line_items coupon input =
    let items = item_ids coupon in
    let categories = scoped_category_ids coupon in
    if none_in items && none_in categories
    then select (λ l. not (is_some l.deal_id)) input.line_items
    else select (matches items categories) input.line_items
