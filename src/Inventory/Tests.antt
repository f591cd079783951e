-- ===== src/Inventory/Tests.antt =====
-- Rice of restaurant 1, in thousandths of a kilogram.
use deliveryways.Prelude.{◌≡◌, refl, true, false, none, some, List, [], ◌∷◌, ◌==◌, if◌then◌else◌}
use deliveryways.Prelude.Int.{pos, negsuc, ◌+ℤ◌, ltb_ℤ}
use deliveryways.Auth.{branch_admin, AuthUserContext}
use deliveryways.Inventory.Laws.{run, net, stock, run-stock}
use deliveryways.Inventory.Movements.{
  Db, moves_in, moves_out, InventoryItem, CreateInventoryMovementDto, calc_delta,
  ensure_write_access, create,
}

abbrev rice : InventoryItem
rice = record { restaurant_id = 1; current_qty = pos 2500; is_deleted = false }

abbrev tables : Db
tables = record { item = λ i. if i == 4 then some rice else none; movements = [] }

abbrev manager : AuthUserContext
manager = record { uid = 40; role = branch_admin; tid = some 5; rid = some 1; bid = some 2 }

abbrev delivery_in : CreateInventoryMovementDto
delivery_in = record { inventory_item_id = 4; movement_type = moves_in; quantity = 10000000 }

abbrev used : CreateInventoryMovementDto
used = record { inventory_item_id = 4; movement_type = moves_out; quantity = 40000000 }

abbrev requests : List (AuthUserContext × CreateInventoryMovementDto)
requests = (manager, delivery_in) ∷ (manager, used) ∷ []

run-stock_example :
    stock 4 (run requests tables) ≡ pos 2500 +ℤ net 4 (run requests tables).movements
unfolding ◌+ℤ◌
run-stock_example = run-stock requests 4 (pos 2500) tables refl refl

-- A movement of half a thousandth is recorded as one, and leaves the stock as it is.
abbrev sliver : CreateInventoryMovementDto
sliver = record { inventory_item_id = 4; movement_type = moves_out; quantity = 5000 }

sliver_test :
    (stock 4 (run ((manager, sliver) ∷ []) tables) ≡ pos 2500)
    × (net 4 (run ((manager, sliver) ∷ []) tables).movements ≡ negsuc 0)
unfolding run create ensure_write_access calc_delta ◌+ℤ◌
sliver_test = (refl, refl)

-- More may go out than there is.
negative_test : ltb_ℤ (stock 4 (run requests tables)) (pos 0) ≡ true
unfolding run create ensure_write_access calc_delta ◌+ℤ◌
negative_test = refl
