-- ===== src/Modifiers/Refines.antt =====
-- The limits of the cart against those of an order.
use deliveryways.Prelude.{
  ℕ, ◌≡◌, ap, ◌∙◌, inl, inr, Bool, true, ◌&&◌, some, List, [], ◌∷◌, arith, leb, Option-cases, every,
  refl, sym, false, map, is_nil, includes, subst, not, if◌then◌else◌,
}
use deliveryways.Modifiers.Limits.{
  link_of, order_limits, min_of, max_of, cart_limits, is_distinct, selected_ids,
  assert_grouped_modifier_selection_limits, order_assert_modifier_selection_limits,
  cart_assert_modifier_selection_limits, assert_flat_limits,
}
use deliveryways.Modifiers.Laws.{
  is_ok, fits_link, is_fresh, is_met, is_allowed, assert_grouped-is_allowed,
}
use deliveryways.Modifiers.Rows.{
  ModifierLink, ItemModifierSelection, ModifierSource, ItemModifier, total_selected,
  get_available_modifier_links,
}

-- A link whose own limits lie within those of its group.
abbrev pub is_tight : ModifierLink → Bool
is_tight link =
    leb link.modifier_group.min_select (min_of link)
    && leb (max_of link) link.modifier_group.max_select

link_of-is_tight :
    (id : ℕ) (links : List ModifierLink) {link : ModifierLink}
    → every is_tight links ≡ true
    → link_of id links ≡ some link
    → is_tight link ≡ true
unfolding link_of
link_of-is_tight id [] t e = absurd (cc e)
link_of-is_tight id (l ∷ ls) {link} t e = elim (Option-cases (link_of id ls)) [
  | inl n ↦ let rest : every is_tight ls ≡ true = ground arith in ground arith
  | inr (later, f) ↦
      let rest : every is_tight ls ≡ true = ground arith in
      let same_link : later ≡ link = ground arith in
      link_of-is_tight id ls rest (f ∙ ap some same_link)
]

check_tight :
    (link : ModifierLink) (total : ℕ)
    → is_tight link ≡ true
    → is_ok (cart_limits.check link total) ≡ true
    → is_ok (order_limits.check link total) ≡ true
check_tight link total t h = ground arith

and_true : (a b : Bool) → (a && b) ≡ true → (a ≡ true) × (b ≡ true)
and_true true b h = (refl, h)
and_true false b h = absurd (cc h)

true_and : (a b : Bool) → a ≡ true → b ≡ true → (a && b) ≡ true
true_and true b h k = k
true_and false b h k = absurd (cc h)

fits_link_tight :
    (s : ItemModifierSelection) (link : ModifierLink)
    → is_tight link ≡ true
    → fits_link cart_limits s (some link) ≡ true
    → fits_link order_limits s (some link) ≡ true
fits_link_tight s link t h =
    let d = is_distinct (selected_ids s) in
    let v = every (λ id. includes id link.modifier_group.modifier_ids) (selected_ids s) in
    let total = total_selected s.modifiers in
    let (h₁, rest) = and_true d (v && is_ok (cart_limits.check link total)) h in
    let (h₂, h₃) = and_true v (is_ok (cart_limits.check link total)) rest in
    true_and d (v && is_ok (order_limits.check link total)) h₁
      (true_and v (is_ok (order_limits.check link total)) h₂ (check_tight link total t h₃))

fits_tight :
    (s : ItemModifierSelection) (links : List ModifierLink)
    → every is_tight links ≡ true
    → fits_link cart_limits s (link_of s.modifier_group_id links) ≡ true
    → fits_link order_limits s (link_of s.modifier_group_id links) ≡ true
fits_tight s links t h = elim (Option-cases (link_of s.modifier_group_id links)) [
  | inl e ↦ let refused = subst (λ o. fits_link cart_limits s o ≡ true) e h in absurd (cc refused)
  | inr (link, e) ↦
      let allowed = subst (λ o. fits_link cart_limits s o ≡ true) e h in
      rw e (fits_link_tight s link (link_of-is_tight s.modifier_group_id links t e) allowed)
]

every_tight :
    (links : List ModifierLink) (ss : List ItemModifierSelection)
    → every is_tight links ≡ true
    → every (λ s. fits_link cart_limits s (link_of s.modifier_group_id links)) ss ≡ true
    → every (λ s. fits_link order_limits s (link_of s.modifier_group_id links)) ss ≡ true
every_tight links [] t h = refl
every_tight links (s ∷ ss) t h =
    let (one, rest) =
      and_true (fits_link cart_limits s (link_of s.modifier_group_id links))
        (every (λ s. fits_link cart_limits s (link_of s.modifier_group_id links)) ss) h in
    true_and (fits_link order_limits s (link_of s.modifier_group_id links)) _
      (fits_tight s links t one) (every_tight links ss t rest)

met_tight :
    (ss : List ItemModifierSelection) (links : List ModifierLink)
    → every is_tight links ≡ true
    → every (is_met cart_limits ss) links ≡ true
    → every (is_met order_limits ss) links ≡ true
met_tight ss [] t h = refl
met_tight ss (l ∷ ls) t h =
    let (t₁, ts) = and_true (is_tight l) (every is_tight ls) t in
    let (one, rest) = and_true (is_met cart_limits ss l) (every (is_met cart_limits ss) ls) h in
    true_and (is_met order_limits ss l) _ (ground arith) (met_tight ss ls ts rest)

-- For an item whose links keep within the limits of their groups, an order takes every choice by
-- groups that the cart takes, if it names a group at all: the checks of orders.service.ts return
-- where those of cart.service.ts do.
pub cart-order :
    (item : ModifierSource) (modifiers : List ItemModifier) (s : ItemModifierSelection)
    (ss : List ItemModifierSelection)
    → every is_tight (get_available_modifier_links item) ≡ true
    → is_nil (get_available_modifier_links item) ≡ false
    → is_ok (cart_assert_modifier_selection_limits item modifiers (s ∷ ss)) ≡ true
    → is_ok (order_assert_modifier_selection_limits item modifiers (s ∷ ss)) ≡ true
unfolding cart_assert_modifier_selection_limits order_assert_modifier_selection_limits
cart-order item modifiers s ss t n h =
    let links = get_available_modifier_links item in
    let all : List ItemModifierSelection = s ∷ ss in
    let by_group : is_ok (assert_grouped_modifier_selection_limits cart_limits item all) ≡ true =
      subst
        (λ b.
          is_ok (
            if not b
            then assert_grouped_modifier_selection_limits cart_limits item all
            else assert_flat_limits item modifiers)
          ≡ true)
        n h in
    let allowed : is_allowed cart_limits links all ≡ true =
      sym (assert_grouped-is_allowed cart_limits item all) ∙ by_group in
    let fresh = is_fresh [] (map (λ s. s.modifier_group_id) all) in
    let fits = every (λ s. fits_link cart_limits s (link_of s.modifier_group_id links)) all in
    let (h₁, rest) = and_true fresh (fits && every (is_met cart_limits all) links) allowed in
    let (h₂, h₃) = and_true fits (every (is_met cart_limits all) links) rest in
    let done : is_allowed order_limits links all ≡ true = true_and fresh _ h₁ (
      true_and (every (λ s. fits_link order_limits s (link_of s.modifier_group_id links)) all) _
        (every_tight links all t h₂) (met_tight all links t h₃)) in
    rw n (assert_grouped-is_allowed order_limits item all ∙ done)
