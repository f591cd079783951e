-- ===== src/Inventory/Movements.antt =====
-- movement.service.ts: a movement is recorded, and moves the stock of its item, in one transaction.
-- The stock and the quantity of a row are in thousandths, as the Decimal(12, 3) columns hold them,
-- which round what is written half away from zero. The quantity of a request may have more decimals,
-- and is in ten-thousandths of a thousandth; one that is negative is refused like 0, so it is a number.
use deliveryways.Prelude.{
  ℕ, Bool, ◌&&◌, ◌||◌, not, Option, none, some, List, ◌∷◌, ◌==◌, if◌then◌else◌, Outcome, ok,
  throw_if, or_throw, ◌>>=◌, ◌>>◌,
}
use deliveryways.Prelude.Int.{ℤ, pos, sub_ℕ, ◌+ℤ◌, fine, rounded, rounded_ℕ}
use deliveryways.Auth.{AuthUserContext, is_id, is_super_admin, is_business_admin, is_branch_admin}

pub data StockMovementType : Type 0 where
  moves_in moves_out adjusts : StockMovementType

pub record InventoryItem : Type 0 where
  pub restaurant_id : ℕ
  pub current_qty : ℤ
  pub is_deleted : Bool

pub record InventoryMovement : Type 0 where
  pub inventory_item_id : ℕ
  pub movement_type : StockMovementType
  pub quantity : ℕ
  pub created_by_user_id : ℕ

pub record Db : Type 0 where
  pub item : ℕ → Option InventoryItem
  pub movements : List InventoryMovement

pub data MovementError : Type 0 where
  item_not_found not_permitted bad_quantity : MovementError

pub record CreateInventoryMovementDto : Type 0 where
  pub inventory_item_id : ℕ
  pub movement_type : StockMovementType
  pub quantity : ℕ

unfoldable pub calc_delta : StockMovementType → ℕ → ℤ
calc_delta moves_in qty = pos qty
calc_delta moves_out qty = sub_ℕ 0 qty
calc_delta adjusts qty = pos qty

unfoldable pub ensure_write_access : AuthUserContext → ℕ → Outcome MovementError (Unit {0})
ensure_write_access user restaurant =
    if is_super_admin user.role
    then ok tt
    else throw_if
        (not (is_business_admin user.role) && not (is_branch_admin user.role)
          || not (is_id restaurant user.rid))
        not_permitted

-- `findById`, of an item that is not deleted.
abbrev pub live_item : ℕ → Db → Option InventoryItem
live_item i db = elim (db.item i) [
  | none ↦ none
  | some row ↦ if row.is_deleted then none else some row
]

-- `itemRepository.adjustQty`, by a delta that may have more decimals than the column
abbrev pub adjusted : ℤ → Option InventoryItem → Option InventoryItem
adjusted delta none = none
adjusted delta (some row) =
    some (record row { current_qty = rounded (fine row.current_qty +ℤ delta) })

abbrev pub adjust_qty : ℕ → ℤ → Db → Db
adjust_qty i delta db = record db {
  item = λ i'. if i' == i then adjusted delta (db.item i) else db.item i';
}

unfoldable pub create : AuthUserContext → CreateInventoryMovementDto → Db → Outcome MovementError Db
create user dto db = or_throw (live_item dto.inventory_item_id db) item_not_found >>= λ row.
    ensure_write_access user row.restaurant_id
    >> throw_if (dto.quantity == 0) bad_quantity
    >> ok (
        adjust_qty dto.inventory_item_id (calc_delta dto.movement_type dto.quantity) (record db {
          movements =
              record {
                inventory_item_id = dto.inventory_item_id;
                movement_type = dto.movement_type;
                quantity = rounded_ℕ dto.quantity;
                created_by_user_id = user.uid;
              }
              ∷ db.movements;
        }))
