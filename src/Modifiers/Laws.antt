-- ===== src/Modifiers/Laws.antt =====
-- What the limits of cart.service.ts and orders.service.ts let through.
use deliveryways.Prelude.{
  ℕ, ◌≡◌, refl, ◌∙◌, inl, inr, Bool, true, false, ◌&&◌, ◌||◌, not, Option, none, some, List, [],
  ◌∷◌, map, ltb, Option-cases, every, includes, Outcome, ok, err, throw_if, ◌>>◌, ap,
}
use deliveryways.Modifiers.Rows.{
  Check, ModifierLink, ItemModifierSelection, LimitError, total_selected, ModifierSource,
  repeated_group, too_few, get_available_modifier_links, repeated_modifier, invalid_option,
}
use deliveryways.Modifiers.Limits.{
  link_of, is_distinct, selected_ids, LinkLimits, check_selection, check_selections, is_selected,
  check_required, assert_grouped_modifier_selection_limits,
}

-- Whether a check returns.
abbrev pub is_ok {ℓ κ} : {E : Type ℓ} {A : Type κ} → Outcome E A → Bool
is_ok (ok a) = true
is_ok (err e) = false

-- A selection within the limits: its group is linked, its options are distinct and of the group,
-- and their number is allowed.
abbrev pub fits_link : LinkLimits → ItemModifierSelection → Option ModifierLink → Bool
fits_link limits s none = false
fits_link limits s (some link) =
    is_distinct (selected_ids s)
    && (every (λ id. includes id link.modifier_group.modifier_ids) (selected_ids s)
        && is_ok (limits.check link (total_selected s.modifiers)))

-- Groups that differ from one another and from those seen.
abbrev pub is_fresh : List ℕ → List ℕ → Bool
is_fresh seen [] = true
is_fresh seen (g ∷ gs) = not (includes g seen) && is_fresh (g ∷ seen) gs

-- A link whose group is chosen from, if it must be.
abbrev pub is_met : LinkLimits → List ItemModifierSelection → ModifierLink → Bool
is_met limits ss l = not (ltb 0 (limits.required l)) || is_selected ss l

-- A choice of modifiers, described without the loops.
abbrev pub is_allowed : LinkLimits → List ModifierLink → List ItemModifierSelection → Bool
is_allowed limits links ss =
    is_fresh [] (map (λ s. s.modifier_group_id) ss)
    && (every (λ s. fits_link limits s (link_of s.modifier_group_id links)) ss
        && every (is_met limits ss) links)

then-is_ok : (m k : Check) → is_ok (m >> k) ≡ (is_ok m && is_ok k)
then-is_ok (ok u) k = refl
then-is_ok (err e) k = refl

-- Two conditions and what follows.
guarded-is_ok :
    (x y : Bool) (e e' : LimitError) (k : Check)
    → is_ok (throw_if (not x) e >> throw_if (not y) e' >> k) ≡ (x && (y && is_ok k))
guarded-is_ok false y e e' k = refl
guarded-is_ok true false e e' k = refl
guarded-is_ok true true e e' k = refl

chained-is_ok :
    (b : Bool) (e : LimitError) (m k : Check)
    → is_ok (throw_if b e >> m >> k) ≡ (not b && (is_ok m && is_ok k))
chained-is_ok true e m k = refl
chained-is_ok false e m k = then-is_ok m k

throw_if-is_ok :
    (b : Bool) (e : LimitError) (k : Check) → is_ok (throw_if b e >> k) ≡ (not b && is_ok k)
throw_if-is_ok true e k = refl
throw_if-is_ok false e k = refl

and_swap : (a b c d : Bool) → (a && (b && (c && d))) ≡ ((a && c) && (b && d))
and_swap false b c d = refl
and_swap true true c d = refl
and_swap true false true d = refl
and_swap true false false d = refl

check_selection-fits_link :
    (limits : LinkLimits) (links : List ModifierLink) (s : ItemModifierSelection)
    → is_ok (check_selection limits links s)
      ≡ fits_link limits s (link_of s.modifier_group_id links)
check_selection-fits_link limits links s = elim (Option-cases (link_of s.modifier_group_id links)) [
  | inl e ↦ rw e refl
  | inr (link, e) ↦ rw e (
      guarded-is_ok (is_distinct (selected_ids s))
        (every (λ id. includes id link.modifier_group.modifier_ids) (selected_ids s))
        repeated_modifier invalid_option (limits.check link (total_selected s.modifiers)))
]

pub check_selections-every :
    (limits : LinkLimits) (links : List ModifierLink) (seen : List ℕ)
    (ss : List ItemModifierSelection)
    → is_ok (check_selections limits links seen ss) ≡ (
        is_fresh seen (map (λ s. s.modifier_group_id) ss)
        && every (λ s. fits_link limits s (link_of s.modifier_group_id links)) ss)
unfolding check_selections
check_selections-every limits links seen [] = refl
check_selections-every limits links seen (s ∷ ss) =
    let rest = check_selections-every limits links (s.modifier_group_id ∷ seen) ss in
    let one = check_selection-fits_link limits links s in
    chained-is_ok (includes s.modifier_group_id seen) repeated_group
      (check_selection limits links s)
      (check_selections limits links (s.modifier_group_id ∷ seen) ss)
    ∙ rw one (
        rw rest (
          and_swap (not (includes s.modifier_group_id seen))
            (fits_link limits s (link_of s.modifier_group_id links))
            (is_fresh (s.modifier_group_id ∷ seen) (map (λ s. s.modifier_group_id) ss))
            (every (λ s. fits_link limits s (link_of s.modifier_group_id links)) ss)))

check_required-every :
    (limits : LinkLimits) (ss : List ItemModifierSelection) (links : List ModifierLink)
    → is_ok (check_required limits ss links) ≡ every (is_met limits ss) links
unfolding check_required
check_required-every limits ss [] = refl
check_required-every limits ss (l ∷ ls) =
    let rest = check_required-every limits ss ls in
    throw_if-is_ok (ltb 0 (limits.required l) && not (is_selected ss l)) too_few
      (check_required limits ss ls)
    ∙ ap (λ b. not (ltb 0 (limits.required l) && not (is_selected ss l)) && b) rest
    ∙ ap (λ b. b && every (is_met limits ss) ls)
        (not_and (ltb 0 (limits.required l)) (is_selected ss l))
  where
    not_and : (a b : Bool) → not (a && not b) ≡ (not a || b)
    not_and true true = refl
    not_and true false = refl
    not_and false b = refl

and_assoc : (a b c : Bool) → ((a && b) && c) ≡ (a && (b && c))
and_assoc true b c = refl
and_assoc false b c = refl

-- The loops over the selections and the links let a choice through exactly if it is allowed: its
-- groups are distinct, each is linked to the item with options of its own, distinct and in a number
-- that the limits allow, and each required group is chosen from. So for the limits of either
-- service.
pub assert_grouped-is_allowed :
    (limits : LinkLimits) (item : ModifierSource) (ss : List ItemModifierSelection)
    → is_ok (assert_grouped_modifier_selection_limits limits item ss)
      ≡ is_allowed limits (get_available_modifier_links item) ss
assert_grouped-is_allowed limits item ss =
    let links = get_available_modifier_links item in
    then-is_ok (check_selections limits links [] ss) (check_required limits ss links)
    ∙ rw (check_selections-every limits links [] ss) (
        rw (check_required-every limits ss links) (
          and_assoc (is_fresh [] (map (λ s. s.modifier_group_id) ss))
            (every (λ s. fits_link limits s (link_of s.modifier_group_id links)) ss)
            (every (is_met limits ss) links)))
