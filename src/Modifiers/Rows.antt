-- ===== src/Modifiers/Rows.antt =====
-- What cart.service.ts and orders.service.ts read of a menu item and of a request to choose its
-- modifiers: `CartModifierSource`, `OrderModifierSource` and the DTO classes of both.
use deliveryways.Prelude.{ℕ, Bool, Option, List, ◌++◌, or_default, sum_by, Outcome}

pub record ModifierGroup : Type 0 where
  pub id : ℕ
  pub modifier_ids : List ℕ  -- of its `modifierLinks`
  pub min_select : ℕ
  pub max_select : ℕ

pub data SelectionType : Type 0 where
  single multiple : SelectionType

-- A group as it is linked to an item or its category, with limits of its own.
pub record ModifierLink : Type 0 where
  pub modifier_group : ModifierGroup
  pub selection_type : Option SelectionType
  pub min_select : Option ℕ
  pub max_select : Option ℕ

pub record ModifierPriceOverride : Type 0 where
  pub modifier_id : ℕ
  pub is_required : Bool

pub record ModifierSource : Type 0 where
  pub category_links : List ModifierLink
  pub modifier_links : List ModifierLink
  pub modifier_price_overrides : List ModifierPriceOverride
  pub is_required : Bool
  pub min_select : Option ℕ
  pub max_select : Option ℕ
  pub min_quantity : Option ℕ
  pub max_quantity : Option ℕ

pub record ItemModifier : Type 0 where
  pub modifier_id : ℕ
  pub quantity : Option ℕ

pub record ItemModifierSelection : Type 0 where
  pub modifier_group_id : ℕ
  pub modifiers : List ItemModifier

pub data LimitError : Type 0 where
  repeated_group group_not_found repeated_modifier invalid_option : LimitError
  only_one too_few too_many missing_modifier : LimitError

abbrev pub Check : Type 0
Check = Outcome LimitError (Unit {0})

-- `modifier.quantity ?? 1`, and its sum.
abbrev pub quantity_of : ItemModifier → ℕ
quantity_of m = or_default m.quantity 1

abbrev pub total_selected : List ItemModifier → ℕ
total_selected = sum_by quantity_of

abbrev pub get_available_modifier_links : ModifierSource → List ModifierLink
get_available_modifier_links item = item.category_links ++ item.modifier_links
