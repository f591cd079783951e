-- ===== src/Modifiers/Grouping.antt =====
-- cart.service.ts: what groupFlatModifierSelections makes of a flat list of modifiers.
use deliveryways.Prelude.{
  ℕ, false, List, [], ◌∷◌, map, ◌==◌, if◌then◌else◌, is_some, find, sum_by, Option, none, some,
  Bool,
}
use deliveryways.Modifiers.Limits.{offers}
use deliveryways.Modifiers.Rows.{
  ModifierLink, ItemModifier, ItemModifierSelection, quantity_of, total_selected,
}

abbrev pub total_of : List ItemModifierSelection → ℕ
total_of = sum_by (λ s. total_selected s.modifiers)

-- The number chosen of the modifiers that some group of the item offers.
abbrev pub offered_total : List ModifierLink → List ItemModifier → ℕ
offered_total links = sum_by (λ m. if is_some (find (offers m) links) then quantity_of m else 0)

abbrev pub groups_of : List ItemModifierSelection → List ℕ
groups_of ss = map (λ s. s.modifier_group_id) ss

-- The modifiers of the selection of a group, and none where it is not chosen from.
unfoldable pub chosen_in : ℕ → List ItemModifierSelection → List ItemModifier
chosen_in g [] = []
chosen_in g (s ∷ ss) = if s.modifier_group_id == g then s.modifiers else chosen_in g ss

-- A modifier that goes to a group: the first link that offers it is of that group.
abbrev pub is_of : ℕ → Option ModifierLink → Bool
is_of g none = false
is_of g (some link) = link.modifier_group.id == g
