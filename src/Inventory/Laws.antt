-- ===== src/Inventory/Laws.antt =====
-- movement.service.ts: the stock of an item is the sum of its movements.
use deliveryways.Prelude.{
  Bool-cases, inl, inr, sym, ◌∙◌, every, ℕ, Bool, ◌%◌, ◌≡◌, none, some, List, [], ◌∷◌, arith, ◌==◌,
  if◌then◌else◌, Outcome, ok, err, refl, ◌<◌, subst, true, false, ◌&&◌, ◌||◌, throw_if, or_throw,
  ◌>>◌, bind_ok, then_ok, or_throw_ok, ok_inj, throw_if_ok,
}
use deliveryways.Prelude.Int.{ℤ, pos, negsuc, ◌+ℤ◌, int_laws, fine, rounded, rounded_ℕ}
use deliveryways.Auth.{AuthUserContext, is_id, is_super_admin, is_business_admin, is_branch_admin}
use deliveryways.Inventory.Movements.{
  StockMovementType, moves_in, moves_out, adjusts, Db, InventoryItem, InventoryMovement,
  MovementError, CreateInventoryMovementDto, calc_delta, live_item, create, adjust_qty,
  item_not_found, bad_quantity, ensure_write_access,
}

abbrev pub net : ℕ → List InventoryMovement → ℤ
net i [] = pos 0
net i (m ∷ ms) =
    if i == m.inventory_item_id then net i ms +ℤ calc_delta m.movement_type m.quantity else net i ms

-- The stock of an item, and 0 where there is no such item.
abbrev pub stock : ℕ → Db → ℤ
stock i db = elim (db.item i) [ none ↦ pos 0 | some row ↦ row.current_qty ]

-- The tables after any requests, each of which may be refused.
abbrev kept : Db → Outcome MovementError Db → Db
kept db (ok db') = db'
kept db (err e) = db

unfoldable pub run : List (AuthUserContext × CreateInventoryMovementDto) → Db → Db
run [] db = db
run (q ∷ qs) db = run qs (kept db (create q.0 q.1 db))

-- A quantity with three decimals at most.
abbrev pub is_exact : CreateInventoryMovementDto → Bool
is_exact dto = dto.quantity % 10000 == 0

-- Nothing is rounded off where a quantity has three decimals.
exact_sum :
    (c : ℤ) (t : StockMovementType) (q : ℕ)
    → (q % 10000 == 0) ≡ true
    → rounded (fine c +ℤ calc_delta t q) ≡ c +ℤ calc_delta t (rounded_ℕ q)
unfolding calc_delta ◌+ℤ◌
exact_sum (pos c) moves_in q h = ground arith
exact_sum (pos c) moves_out q h = ground arith
exact_sum (pos c) adjusts q h = ground arith
exact_sum (negsuc c) moves_in q h = ground arith
exact_sum (negsuc c) moves_out q h = ground arith
exact_sum (negsuc c) adjusts q h = ground arith

-- The stock of an item that is adjusted, and of the others.
stock-adjust_qty :
    (i j : ℕ) (delta : ℤ) (db : Db) {row : InventoryItem}
    → live_item j db ≡ some row
    → stock i (adjust_qty j delta db)
      ≡ (if i == j then rounded (fine row.current_qty +ℤ delta) else stock i db)
stock-adjust_qty i j delta db e = ground arith

live_stock :
    (i j : ℕ) (db : Db) {row : InventoryItem}
    → live_item j db ≡ some row
    → (i == j) ≡ true
    → stock i db ≡ row.current_qty
live_stock i j db e h = ground arith

add_later : (base x y z : ℤ) → x ≡ base +ℤ y → x +ℤ z ≡ base +ℤ (y +ℤ z)
add_later base x y z h = grind int_laws

-- The stock and the movements of an item, once a movement of another quantity is added.
adjusted-stock :
    (i : ℕ) (base delta whole : ℤ) (dto : CreateInventoryMovementDto) (db : Db)
    {row : InventoryItem}
    → live_item dto.inventory_item_id db ≡ some row
    → stock i db ≡ base +ℤ net i db.movements
    → rounded (fine row.current_qty +ℤ delta) ≡ row.current_qty +ℤ whole
    → stock i (adjust_qty dto.inventory_item_id delta db)
      ≡ base
        +ℤ (if i == dto.inventory_item_id then net i db.movements +ℤ whole else net i db.movements)
adjusted-stock i base delta whole dto db {row} e h k =
    elim (Bool-cases (i == dto.inventory_item_id)) [
      | inl same ↦
          let here = live_stock i dto.inventory_item_id db e same in
          let added = add_later base row.current_qty (net i db.movements) whole (sym here ∙ h) in
          stock-adjust_qty i dto.inventory_item_id delta db e ∙ rw same (k ∙ added)
      | inr other ↦ stock-adjust_qty i dto.inventory_item_id delta db e ∙ rw other h
    ]

-- A movement that is recorded: its item is there, and the tables after it.
abbrev pub recorded : AuthUserContext → CreateInventoryMovementDto → Db → Db
recorded user dto db =
    adjust_qty dto.inventory_item_id (calc_delta dto.movement_type dto.quantity) (record db {
      movements =
          record {
            inventory_item_id = dto.inventory_item_id;
            movement_type = dto.movement_type;
            quantity = rounded_ℕ dto.quantity;
            created_by_user_id = user.uid;
          }
          ∷ db.movements;
    })

create_ok :
    (user : AuthUserContext) (dto : CreateInventoryMovementDto) (db : Db) {db' : Db}
    → create user dto db ≡ ok db'
    → (row : InventoryItem) × (live_item dto.inventory_item_id db ≡ some row)
      × (recorded user dto db ≡ db')
unfolding create
create_ok user dto db {db'} h =
    let (row, found, rest) =
      bind_ok (or_throw (live_item dto.inventory_item_id db) item_not_found) _ h in
    let (passed, done) =
      then_ok
        (ensure_write_access user row.restaurant_id >> throw_if (dto.quantity == 0) bad_quantity) _
        rest in
    (row, or_throw_ok (live_item dto.inventory_item_id db) item_not_found found, ok_inj done)

recorded-stock :
    (i : ℕ) (base : ℤ) (user : AuthUserContext) (dto : CreateInventoryMovementDto) (db : Db)
    {row : InventoryItem}
    → is_exact dto ≡ true
    → live_item dto.inventory_item_id db ≡ some row
    → stock i db ≡ base +ℤ net i db.movements
    → stock i (recorded user dto db) ≡ base +ℤ net i (recorded user dto db).movements
recorded-stock i base user dto db {row} x e h =
    adjusted-stock i base (calc_delta dto.movement_type dto.quantity)
      (calc_delta dto.movement_type (rounded_ℕ dto.quantity)) dto db e h
      (exact_sum row.current_qty dto.movement_type dto.quantity x)

both_exact : (a b : Bool) → (a && b) ≡ true → (a ≡ true) × (b ≡ true)
both_exact a b h = ground arith

create-stock :
    (i : ℕ) (base : ℤ) (user : AuthUserContext) (dto : CreateInventoryMovementDto) (db : Db)
    → is_exact dto ≡ true
    → stock i db ≡ base +ℤ net i db.movements
    → stock i (kept db (create user dto db))
      ≡ base +ℤ net i (kept db (create user dto db)).movements
create-stock i base user dto db x h = go (create user dto db) refl
  where
    go :
        (o : Outcome MovementError Db)
        → create user dto db ≡ o
        → stock i (kept db o) ≡ base +ℤ net i (kept db o).movements
    go (err e) k = h
    go (ok db') k =
        let (row, found, same_db) = create_ok user dto db k in
        subst (λ d. stock i d ≡ base +ℤ net i d.movements) same_db
          (recorded-stock i base user dto db x found h)

-- Whatever movements are asked for, by whomever and refused or not, in quantities with three decimals
-- at most: an item whose stock is an opening quantity and the sum of its movements keeps it so, with
-- the same opening quantity. Goods that come in and adjustments count as positive, goods that go out
-- as negative.
pub run-stock :
    (qs : List (AuthUserContext × CreateInventoryMovementDto)) (i : ℕ) (base : ℤ) (db : Db)
    → every (λ q. is_exact q.1) qs ≡ true
    → stock i db ≡ base +ℤ net i db.movements
    → stock i (run qs db) ≡ base +ℤ net i (run qs db).movements
unfolding run
run-stock [] i base db x h = h
run-stock (q ∷ qs) i base db x h =
    let (first, rest) = both_exact (is_exact q.1) (every (λ q. is_exact q.1) qs) x in
    run-stock qs i base (kept db (create q.0 q.1 db)) rest (create-stock i base q.0 q.1 db first h)

-- A movement that is recorded is of an item that is not deleted and of a positive quantity, by a
-- super administrator, or by an administrator of the business or the branch at the item's restaurant.
pub create_guarded :
    (user : AuthUserContext) (dto : CreateInventoryMovementDto) (db db' : Db)
    → create user dto db ≡ ok db'
    → (row : InventoryItem) × (db.item dto.inventory_item_id ≡ some row)
      × (row.is_deleted ≡ false)
      × (0 < dto.quantity)
      × ((is_super_admin user.role
            || (is_business_admin user.role || is_branch_admin user.role)
              && is_id row.restaurant_id user.rid)
          ≡ true)
unfolding create ensure_write_access
create_guarded user dto db db' h =
    let (row, found, rest) =
      bind_ok (or_throw (live_item dto.inventory_item_id db) item_not_found) _ h in
    let e = or_throw_ok (live_item dto.inventory_item_id db) item_not_found found in
    let (passed, done) =
      then_ok
        (ensure_write_access user row.restaurant_id >> throw_if (dto.quantity == 0) bad_quantity) _
        rest in
    let (access, counted) =
      then_ok (ensure_write_access user row.restaurant_id)
        (throw_if (dto.quantity == 0) bad_quantity) passed in
    let positive = throw_if_ok (dto.quantity == 0) bad_quantity counted in
    (row, ground arith, ground arith, ground arith, ground arith)
