-- ===== src/Modifiers/Limits.antt =====
-- cart.service.ts and orders.service.ts: the limits on the modifiers of an item. The two services
-- have the same loop over the selections; they differ in the limits of a link.
use deliveryways.Prelude.{
  ℕ, Bool, true, false, ◌&&◌, not, Option, none, some, List, [], ◌∷◌, ◌++◌, map, ltb, ◌==◌,
  if◌then◌else◌, or_default, is_nil, any, every, find, includes, ok, throw_if, or_throw, ◌>>=◌,
  ◌>>◌,
}
use deliveryways.Modifiers.Rows.{
  Check, SelectionType, single, multiple, ModifierLink, ModifierPriceOverride, ModifierSource,
  ItemModifier, ItemModifierSelection, repeated_group, group_not_found, repeated_modifier,
  invalid_option, only_one, too_few, too_many, missing_modifier, quantity_of, total_selected,
  get_available_modifier_links,
}

-- `linksByGroupId.get`: a later link of the same group replaces an earlier one.
unfoldable pub link_of : ℕ → List ModifierLink → Option ModifierLink
link_of id [] = none
link_of id (l ∷ ls) = elim (link_of id ls) [
  | some later ↦ some later
  | none ↦ if l.modifier_group.id == id then some l else none
]

-- Whether `new Set(ids).size === ids.length`.
abbrev pub is_distinct : List ℕ → Bool
is_distinct [] = true
is_distinct (x ∷ xs) = not (includes x xs) && is_distinct xs

abbrev pub selected_ids : ItemModifierSelection → List ℕ
selected_ids s = map (λ m. m.modifier_id) s.modifiers

-- What a service asks of the number of modifiers chosen from a link's group, and how many it asks
-- for where none is chosen.
pub record LinkLimits : Type 0 where
  pub check : ModifierLink → ℕ → Check
  pub required : ModifierLink → ℕ

-- The checks of one selection whose group has not come before.
abbrev pub check_selection : LinkLimits → List ModifierLink → ItemModifierSelection → Check
check_selection limits links s =
    or_throw (link_of s.modifier_group_id links) group_not_found >>= λ link.
    throw_if (not (is_distinct (selected_ids s))) repeated_modifier
    >> throw_if (not (every (λ id. includes id link.modifier_group.modifier_ids) (selected_ids s)))
        invalid_option
    >> limits.check link (total_selected s.modifiers)

-- The loop over the selections, with the groups that have come before.
unfoldable pub check_selections :
    LinkLimits → List ModifierLink → List ℕ → List ItemModifierSelection → Check
check_selections limits links seen [] = ok tt
check_selections limits links seen (s ∷ ss) =
    throw_if (includes s.modifier_group_id seen) repeated_group
    >> check_selection limits links s
    >> check_selections limits links (s.modifier_group_id ∷ seen) ss

abbrev pub is_selected : List ItemModifierSelection → ModifierLink → Bool
is_selected ss link = any (λ s. s.modifier_group_id == link.modifier_group.id) ss

-- The loop over the links for the groups that are required.
unfoldable pub check_required : LinkLimits → List ItemModifierSelection → List ModifierLink → Check
check_required limits ss [] = ok tt
check_required limits ss (l ∷ ls) =
    throw_if (ltb 0 (limits.required l) && not (is_selected ss l)) too_few
    >> check_required limits ss ls

-- `assertGroupedModifierSelectionLimits`
abbrev pub assert_grouped_modifier_selection_limits :
    LinkLimits → ModifierSource → List ItemModifierSelection → Check
assert_grouped_modifier_selection_limits limits item ss =
    let links = get_available_modifier_links item in
    check_selections limits links [] ss >> check_required limits ss links

-- The limits of orders.service.ts: those of the group.
abbrev pub order_limits : LinkLimits
order_limits = record {
  check = λ link total.
      throw_if (ltb total link.modifier_group.min_select) too_few
      >> throw_if (ltb link.modifier_group.max_select total) too_many;
  required = λ link. link.modifier_group.min_select;
}

abbrev pub min_of : ModifierLink → ℕ
min_of link = or_default link.min_select link.modifier_group.min_select

abbrev pub max_of : ModifierLink → ℕ
max_of link = or_default link.max_select link.modifier_group.max_select

abbrev pub is_single : Option SelectionType → Bool
is_single none = true
is_single (some single) = true
is_single (some multiple) = false

-- The limits of cart.service.ts: those of the link, or else of the group.
abbrev pub cart_limits : LinkLimits
cart_limits = record {
  check = λ link total.
      throw_if (is_single link.selection_type && ltb 1 total) only_one
      >> throw_if (ltb total (min_of link)) too_few
      >> throw_if (ltb (max_of link) total) too_many;
  required = min_of;
}

-- The overrides that ask for a modifier which is not chosen.
abbrev pub is_missing : List ItemModifier → ModifierPriceOverride → Bool
is_missing modifiers override =
    override.is_required
    && not (any (λ m. ltb 0 (quantity_of m) && m.modifier_id == override.modifier_id) modifiers)

abbrev above : ℕ → Option ℕ → Bool
above n none = false
above n (some limit) = ltb limit n

-- The limits of an item without groups.
abbrev pub assert_flat_limits : ModifierSource → List ItemModifier → Check
assert_flat_limits item modifiers =
    if not (is_nil item.modifier_price_overrides)
    then throw_if (any (is_missing modifiers) item.modifier_price_overrides) missing_modifier
    else (throw_if
          (item.is_required && ltb (total_selected modifiers) (or_default item.min_select 1))
          too_few
        >> throw_if
            (above (total_selected modifiers)
              (if item.is_required then item.max_select else some 1))
            too_many)

-- `assertModifierSelectionLimits` of orders.service.ts
unfoldable pub order_assert_modifier_selection_limits :
    ModifierSource → List ItemModifier → List ItemModifierSelection → Check
order_assert_modifier_selection_limits item modifiers ss =
    if not (is_nil (get_available_modifier_links item)) && not (is_nil ss)
    then assert_grouped_modifier_selection_limits order_limits item ss
    else assert_flat_limits item modifiers

-- The group of a flat modifier: that of the first link which offers it.
abbrev pub offers : ItemModifier → ModifierLink → Bool
offers m link = includes m.modifier_id link.modifier_group.modifier_ids

-- A modifier added to the selection of its group, which is made at the end if need be.
unfoldable pub add_to_group :
    ℕ → ItemModifier → List ItemModifierSelection → List ItemModifierSelection
add_to_group g m [] = record { modifier_group_id = g; modifiers = m ∷ [] } ∷ []
add_to_group g m (s ∷ ss) =
    let rest = add_to_group g m ss in
    if s.modifier_group_id == g
    then record s { modifiers = s.modifiers ++ (m ∷ []) } ∷ ss
    else s ∷ rest

-- A step of the loop of `groupFlatModifierSelections`; a modifier that no link offers is dropped.
abbrev pub place_modifier :
    Option ModifierLink → ItemModifier → List ItemModifierSelection → List ItemModifierSelection
place_modifier none m ss = ss
place_modifier (some link) m ss = add_to_group link.modifier_group.id m ss

unfoldable pub place_modifiers :
    List ModifierLink → List ItemModifier → List ItemModifierSelection → List ItemModifierSelection
place_modifiers links [] ss = ss
place_modifiers links (m ∷ ms) ss =
    place_modifiers links ms (place_modifier (find (offers m) links) m ss)

abbrev pub group_flat_modifier_selections :
    ModifierSource → List ItemModifier → List ItemModifierSelection
group_flat_modifier_selections item modifiers =
    place_modifiers (get_available_modifier_links item) modifiers []

-- `assertModifierSelectionLimits` of cart.service.ts
unfoldable pub cart_assert_modifier_selection_limits :
    ModifierSource → List ItemModifier → List ItemModifierSelection → Check
cart_assert_modifier_selection_limits item modifiers ss =
    if not (is_nil (get_available_modifier_links item))
    then assert_grouped_modifier_selection_limits cart_limits item
        (if not (is_nil ss) then ss else group_flat_modifier_selections item modifiers)
    else assert_flat_limits item modifiers

-- `assertItemQuantityLimits` of both services
unfoldable pub assert_item_quantity_limits : ModifierSource → ℕ → Check
assert_item_quantity_limits item quantity =
    throw_if (ltb quantity (or_default item.min_quantity 1)) too_few
    >> throw_if (above quantity item.max_quantity) too_many
