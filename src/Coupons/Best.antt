-- ===== src/Coupons/Best.antt =====
-- The promotion that an order gets by itself is the best of those that hold.
use mathlib.Core.List.{Memᴰ}
use deliveryways.Prelude.{
  ℕ, ◌≡◌, ◌≢◌, Bool, true, false, Option, none, some, arith, Outcome, ok, sym, subst, ◌⊎◌, inl, inr,
  List, [], ◌∷◌, ◌==◌, err, refl, ap, ◌∙◌, ◌++◌, if◌then◌else◌,
}
use deliveryways.Coupons.Validate.{
  validate_resolved_coupon, beats, consider, auto_input, best_of, find_best_auto_apply_promotion,
}
use deliveryways.Coupons.Rows.{Coupon, CouponValidationInput, CouponValidationResult, CouponError}

-- A result that the loop may take: the coupon of the list that it comes from, and something off.
unfoldable pub Offers :
    (ℕ → ℕ → ℕ) → ℕ → CouponValidationInput → CouponValidationResult → Coupon → Type 0
Offers usage now input r c =
    (validate_resolved_coupon usage now c (auto_input c input) ≡ ok r) × (r.discount_amount ≢ 0)

-- At least as good: nothing beats it.
abbrev pub is_beaten : CouponValidationResult → Option CouponValidationResult → Bool
is_beaten r none = true
is_beaten r (some best) = beats r best

consider_keeps :
    (r : CouponValidationResult) (best : Option CouponValidationResult)
    (out : Outcome CouponError CouponValidationResult)
    → is_beaten r best ≡ false
    → is_beaten r (consider best out) ≡ false
consider_keeps r best out h = ground arith

consider_takes :
    (r : CouponValidationResult) (best : Option CouponValidationResult)
    → r.discount_amount ≢ 0
    → is_beaten r (consider best (ok r)) ≡ false
consider_takes r best h = ground arith

best_of_keeps :
    (usage : ℕ → ℕ → ℕ) (now : ℕ) (input : CouponValidationInput) (r : CouponValidationResult)
    (cs : List Coupon) (best : Option CouponValidationResult)
    → is_beaten r best ≡ false
    → is_beaten r (best_of usage now input cs best) ≡ false
unfolding best_of
best_of_keeps usage now input r [] best h = h
best_of_keeps usage now input r (c ∷ cs) best h =
    let out = validate_resolved_coupon usage now c (auto_input c input) in
    best_of_keeps usage now input r cs (consider best out) (consider_keeps r best out h)

best_of_max :
    (usage : ℕ → ℕ → ℕ) (now : ℕ) (input : CouponValidationInput) (r : CouponValidationResult)
    (c : Coupon) (cs : List Coupon) (best : Option CouponValidationResult)
    → Memᴰ c cs
    → Offers usage now input r c
    → is_beaten r (best_of usage now input cs best) ≡ false
unfolding best_of Offers
best_of_max usage now input r c [] best m offers = elim m [ ]
best_of_max usage now input r c (d ∷ cs) best (Memᴰ.head same) (offered, off) =
    let found =
      subst (λ d. validate_resolved_coupon usage now d (auto_input d input) ≡ ok r) same offered in
    let taken = consider_takes r best off in
    best_of_keeps usage now input r cs _
      (subst (λ o. is_beaten r (consider best o) ≡ false) (sym found) taken)
best_of_max usage now input r c (d ∷ cs) best (Memᴰ.tail m) offers =
    best_of_max usage now input r c cs _ m offers

-- What the loop takes at a turn is the best so far or the turn's own offer.
picked :
    (zero_off beaten : Bool) (best : Option CouponValidationResult) (x r : CouponValidationResult)
    → (if zero_off then best else (if beaten then some x else best)) ≡ some r
    → (best ≡ some r) ⊎ ((x ≡ r) × (zero_off ≡ false))
picked true beaten best x r h = inl h
picked false true best x r h = inr (cc h, refl)
picked false false best x r h = inl h

as_pick :
    (best : Option CouponValidationResult) (x : CouponValidationResult)
    → consider best (ok x)
      ≡ (if x.discount_amount == 0 then best else (if is_beaten x best then some x else best))
as_pick none x = refl
as_pick (some b) x = refl

consider_source :
    (best : Option CouponValidationResult) (out : Outcome CouponError CouponValidationResult)
    (r : CouponValidationResult)
    → consider best out ≡ some r
    → (best ≡ some r) ⊎ ((out ≡ ok r) × (r.discount_amount ≢ 0))
consider_source best (err e) r h = inl h
consider_source best (ok x) r h =
    elim (picked (x.discount_amount == 0) (is_beaten x best) best x r (sym (as_pick best x) ∙ h)) [
      | inl kept ↦ inl kept
      | inr (same, off) ↦ inr (ap ok same, λ z. absurd (ground arith))
    ]

best_of_source :
    (usage : ℕ → ℕ → ℕ) (now : ℕ) (input : CouponValidationInput) (r : CouponValidationResult)
    (cs : List Coupon) (best : Option CouponValidationResult)
    → best_of usage now input cs best ≡ some r
    → (best ≡ some r) ⊎ ((c : Coupon) × Memᴰ c cs × Offers usage now input r c)
unfolding best_of Offers
best_of_source usage now input r [] best h = inl h
best_of_source usage now input r (c ∷ cs) best h = elim (best_of_source usage now input r cs _ h) [
  | inl here ↦
      elim (consider_source best (validate_resolved_coupon usage now c (auto_input c input)) r
        here) [ inl before ↦ inl before | inr offers ↦ inr (c, Memᴰ.head refl, offers) ]
  | inr (d, m, offers) ↦ inr (d, Memᴰ.tail m, offers)
]

-- The promotion that is found is an offer: a promotion or a happy hour of the lists that holds for
-- the order and takes something off.
pub find_best_auto_apply_promotion-Offers :
    (usage : ℕ → ℕ → ℕ) (now : ℕ) (input : CouponValidationInput)
    (promotions happy_hours : List Coupon) {r : CouponValidationResult}
    → find_best_auto_apply_promotion usage now input promotions happy_hours ≡ some r
    → (c : Coupon) × Memᴰ c (promotions ++ happy_hours) × Offers usage now input r c
unfolding find_best_auto_apply_promotion
find_best_auto_apply_promotion-Offers usage now input promotions happy_hours {r} h =
    elim (best_of_source usage now input r (promotions ++ happy_hours) none h) [
      | inl nothing ↦ absurd (cc nothing)
      | inr offer ↦ offer
    ]

-- Where a promotion or a happy hour of the lists holds for the order and takes something off, one
-- is found, and no such offer beats it: none takes more off, or as much from a larger part of the
-- order.
pub find_best_auto_apply_promotion_max :
    (usage : ℕ → ℕ → ℕ) (now : ℕ) (input : CouponValidationInput)
    (promotions happy_hours : List Coupon) (c : Coupon) (r : CouponValidationResult)
    → Memᴰ c (promotions ++ happy_hours)
    → Offers usage now input r c
    → is_beaten r (find_best_auto_apply_promotion usage now input promotions happy_hours) ≡ false
unfolding find_best_auto_apply_promotion
find_best_auto_apply_promotion_max usage now input promotions happy_hours c r m offers =
    best_of_max usage now input r c (promotions ++ happy_hours) none m offers
