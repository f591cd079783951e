-- ===== src/Orders/Deals.antt =====
-- orders.service.ts: how the fixed total of a deal is spread over its lines, in cents.
use deliveryways.Prelude.{
  ℕ, suc, ◌+◌, ◌*◌, ◌/◌, ◌≡◌, refl, ap, ◌∙◌, List, [], ◌∷◌, arith, ltb, if◌then◌else◌, length,
  sum_by,
}
use deliveryways.Prelude.Int.{ℤ, pos, ◌+ℤ◌, ◌-ℤ◌}

-- A quotient in cents, rounded half up.
abbrev pub div_round : ℕ → ℕ → ℕ
div_round a b = (2 * a + b) / (2 * b)

-- The share of a line that is not the last one.
abbrev pub allocation : ℕ → ℕ → ℕ → ℕ → ℕ
allocation fixed subtotal lines current =
    if ltb 0 subtotal then div_round (fixed * current) subtotal else div_round fixed lines

-- The loop: the last line gets what the others have left.
unfoldable pub allocate_lines : (ℕ → ℕ) → ℤ → List ℕ → List ℤ
allocate_lines share rest [] = []
allocate_lines share rest (t ∷ []) = rest ∷ []
allocate_lines share rest (t ∷ u ∷ ts) =
    pos (share t) ∷ allocate_lines share (rest -ℤ pos (share t)) (u ∷ ts)

abbrev pub sum : List ℕ → ℕ
sum = sum_by (λ t. t)

unfoldable pub allocate_fixed_deal_total : List ℕ → ℕ → List ℤ
allocate_fixed_deal_total totals fixed =
    allocate_lines (allocation fixed (sum totals) (length totals)) (pos fixed) totals

abbrev pub sum_ℤ : List ℤ → ℤ
sum_ℤ [] = pos 0
sum_ℤ (x ∷ xs) = x +ℤ sum_ℤ xs

add_back : (a : ℤ) (n : ℕ) → pos n +ℤ (a -ℤ pos n) ≡ a
unfolding ◌+ℤ◌ ◌-ℤ◌
add_back a n = ground arith

add_zero : (a : ℤ) → a +ℤ pos 0 ≡ a
unfolding ◌+ℤ◌
add_zero a = ground arith

allocate_lines_sum :
    (share : ℕ → ℕ) (rest : ℤ) (t : ℕ) (ts : List ℕ)
    → sum_ℤ (allocate_lines share rest (t ∷ ts)) ≡ rest
unfolding allocate_lines
allocate_lines_sum share rest t [] = add_zero rest
allocate_lines_sum share rest t (u ∷ ts) =
    let ih = allocate_lines_sum share (rest -ℤ pos (share t)) u ts in
    ap (λ x. pos (share t) +ℤ x) ih ∙ add_back rest (share t)

length-allocate_lines :
    (share : ℕ → ℕ) (rest : ℤ) (ts : List ℕ) → length (allocate_lines share rest ts) ≡ length ts
unfolding allocate_lines
length-allocate_lines share rest [] = refl
length-allocate_lines share rest (t ∷ []) = refl
length-allocate_lines share rest (t ∷ u ∷ ts) =
    ap suc (length-allocate_lines share (rest -ℤ pos (share t)) (u ∷ ts))

-- For a deal of at least one line, the shares of its lines add up to its fixed total to the cent,
-- whatever was rounded, and there is one for each line.
pub allocate_fixed_deal_total_lem :
    (t : ℕ) (ts : List ℕ) (fixed : ℕ)
    → (sum_ℤ (allocate_fixed_deal_total (t ∷ ts) fixed) ≡ pos fixed)
      × (length (allocate_fixed_deal_total (t ∷ ts) fixed) ≡ length (t ∷ ts))
unfolding allocate_fixed_deal_total
allocate_fixed_deal_total_lem t ts fixed =
    (allocate_lines_sum _ (pos fixed) t ts, length-allocate_lines _ (pos fixed) (t ∷ ts))
