-- ===== src/Modifiers/Tests.antt =====
-- The limits at a concrete item: a size that must be chosen, and up to two sauces.
use deliveryways.Prelude.{ℕ, ◌≡◌, refl, true, false, none, some, List, [], ◌∷◌}
use deliveryways.Modifiers.Limits.{
  link_of, check_selections, check_required, assert_grouped_modifier_selection_limits, cart_limits,
  order_assert_modifier_selection_limits, place_modifiers, group_flat_modifier_selections,
  cart_assert_modifier_selection_limits, assert_item_quantity_limits, add_to_group,
}
use deliveryways.Modifiers.Grouping.{chosen_in}
use deliveryways.Modifiers.Refines.{cart-order}
use deliveryways.Modifiers.Laws.{is_ok, is_allowed, assert_grouped-is_allowed}
use deliveryways.Modifiers.Rows.{
  ModifierGroup, single, multiple, ModifierLink, ModifierSource, ItemModifier,
  ItemModifierSelection,
}

abbrev size_group : ModifierGroup
size_group = record { id = 1; modifier_ids = 10 ∷ 11 ∷ []; min_select = 1; max_select = 1 }

abbrev sauce_group : ModifierGroup
sauce_group = record { id = 2; modifier_ids = 20 ∷ 21 ∷ 22 ∷ []; min_select = 0; max_select = 3 }

abbrev size_link : ModifierLink
size_link = record {
  modifier_group = size_group;
  selection_type = some single;
  min_select = none;
  max_select = none;
}

abbrev sauce_link : ModifierLink
sauce_link = record {
  modifier_group = sauce_group;
  selection_type = some multiple;
  min_select = none;
  max_select = some 2;
}

abbrev dish : ModifierSource
dish = record {
  category_links = size_link ∷ [];
  modifier_links = sauce_link ∷ [];
  modifier_price_overrides = [];
  is_required = false;
  min_select = none;
  max_select = none;
  min_quantity = none;
  max_quantity = some 5;
}

abbrev chosen : ℕ → ItemModifier
chosen m = record { modifier_id = m; quantity = none }

abbrev large : ItemModifierSelection
large = record { modifier_group_id = 1; modifiers = chosen 11 ∷ [] }

abbrev two_sauces : ItemModifierSelection
two_sauces = record { modifier_group_id = 2; modifiers = chosen 20 ∷ chosen 22 ∷ [] }

assert_grouped-is_allowed_example :
    is_ok (assert_grouped_modifier_selection_limits cart_limits dish (large ∷ two_sauces ∷ []))
    ≡ is_allowed cart_limits (size_link ∷ sauce_link ∷ []) (large ∷ two_sauces ∷ [])
assert_grouped-is_allowed_example =
    assert_grouped-is_allowed cart_limits dish (large ∷ two_sauces ∷ [])

cart-order_example :
    is_ok (order_assert_modifier_selection_limits dish [] (large ∷ two_sauces ∷ [])) ≡ true
unfolding cart_assert_modifier_selection_limits check_selections check_required link_of
cart-order_example = cart-order dish [] large (two_sauces ∷ []) refl refl refl

abbrev flat : List ItemModifier
flat = chosen 20 ∷ chosen 11 ∷ chosen 22 ∷ chosen 99 ∷ []

sauces_test : chosen_in 2 (group_flat_modifier_selections dish flat) ≡ chosen 20 ∷ chosen 22 ∷ []
unfolding chosen_in place_modifiers add_to_group
sauces_test = refl

-- The cart asks for a size, and an order without selections does not.
cart_test : is_ok (cart_assert_modifier_selection_limits dish [] []) ≡ false
unfolding cart_assert_modifier_selection_limits check_selections check_required place_modifiers
cart_test = refl

order_test : is_ok (order_assert_modifier_selection_limits dish [] []) ≡ true
unfolding order_assert_modifier_selection_limits
order_test = refl

quantity_test : is_ok (assert_item_quantity_limits dish 6) ≡ false
unfolding assert_item_quantity_limits
quantity_test = refl
