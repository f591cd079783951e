-- ===== src/Orders/Lifecycle.antt =====
-- Any sequence of requests on the orders, and what it does to a row.
use deliveryways.Prelude.{
  ℕ, ◌≡◌, refl, subst, ◌⊎◌, inl, inr, Option, none, some, List, [], ◌∷◌, arith, ◌==◌, Bool-cases,
  Outcome, ok, err, or_throw, bind_ok, or_throw_ok, true, false, throw_if, ◌>>◌, then_ok,
  throw_if_ok, ok_inj,
}
use deliveryways.Auth.{AuthUserContext}
use deliveryways.Orders.Moves.{
  Move, checked_update-IsPassed, IsPassed-Move, checked_assignment-Move, cancel-Move,
}
use deliveryways.Orders.Handlers.{
  cancel, updated, checked_update, update_status, assign_deliveryman, accept_deliveryman_order,
  checked_assignment, assign_deliveryman_to_order,
}
use deliveryways.Orders.Store.{
  Order, Event, Db, UpdateOrderStatusDto, OrderError, order_not_found, put_order, emit,
  not_cancellable, not_a_deliveryman, already_assigned,
}
use deliveryways.Orders.Access.{assert_order_access}
use deliveryways.Orders.Status.{includes_status, terminal_statuses}

-- A request to one of the four handlers of orders.service.ts that move an order. The payment service
-- writes the status of an order too, in its refunds and reversals; those are calls of Payments.
pub data Request : Type 0 where
  update_status_request : AuthUserContext → ℕ → UpdateOrderStatusDto → Request
  cancel_request : AuthUserContext → ℕ → Request
  assign_request : AuthUserContext → ℕ → ℕ → ℕ → ℕ → Request
  accept_request : AuthUserContext → ℕ → ℕ → ℕ → Request

unfoldable pub perform : ℕ → Request → Db → Outcome OrderError Db
perform now (update_status_request user o dto) db = update_status user o dto now db
perform now (cancel_request user o) db = cancel user o now db
perform now (assign_request user o who branch restaurant) db =
    assign_deliveryman user o who branch restaurant now db
perform now (accept_request user o branch restaurant) db =
    accept_deliveryman_order user o branch restaurant now db

-- The tables after a request: the old ones where it has thrown.
abbrev pub left : Db → Outcome OrderError Db → Db
left db (ok db') = db'
left db (err e) = db

-- Requests one after the other, each at its time.
unfoldable pub run : List (ℕ × Request) → Db → Db
run [] db = db
run ((now, r) ∷ rs) db = run rs (left db (perform now r db))

-- A row that has moved to another status.
pub record Moved (before after : Order) : Type 0 where
  pub same_type : after.order_type ≡ before.order_type
  pub move : Move before.order_type before.status after.status

-- Every row is kept or has moved.
Next : Db → Db → Type 0
Next db db' =
    (o : ℕ) (row : Order)
    → db.order o ≡ some row
    → (db'.order o ≡ some row) ⊎ ((row' : Order) × (db'.order o ≡ some row') × Moved row row')

put_order-Next :
    (o : ℕ) (row row' : Order) (events : List Event) (db : Db)
    → db.order o ≡ some row
    → Moved row row'
    → Next db (emit events (put_order o row' db))
unfolding Next
put_order-Next o row row' events db found moved o' was e = elim (Bool-cases (o' == o)) [
  | inr other ↦ inl (rw other e)
  | inl same ↦
      let here : row ≡ was = ground arith in
      inr (row', rw same refl, subst (λ r. Moved r row') here moved)
]

updated-Moved :
    (order : Order) (dto : UpdateOrderStatusDto) (accepted : Option ℕ) (now : ℕ)
    → Move order.order_type order.status dto.status
    → Moved order (updated dto.status accepted now order)
updated-Moved order dto none now m = record { same_type = refl; move = m }
updated-Moved order dto (some t) now m = record { same_type = refl; move = m }

update_status-Next :
    (user : AuthUserContext) (o : ℕ) (dto : UpdateOrderStatusDto) (now : ℕ) (db : Db) {db' : Db}
    → update_status user o dto now db ≡ ok db'
    → Next db db'
unfolding update_status
update_status-Next user o dto now db h =
    let (order, found, h₁) = bind_ok (or_throw (db.order o) order_not_found) _ h in
    let (accepted, checked, h₂) = bind_ok (checked_update user order dto db) _ h₁ in
    let m = IsPassed-Move user order dto db (checked_update-IsPassed user order dto db checked) in
    subst (λ d. Next db d) (ok_inj h₂)
      (put_order-Next o order _ _ db (or_throw_ok _ _ found)
        (updated-Moved order dto accepted now m))

cancel-Next :
    (user : AuthUserContext) (o now : ℕ) (db : Db) {db' : Db}
    → cancel user o now db ≡ ok db'
    → Next db db'
unfolding cancel
cancel-Next user o now db h =
    let (order, found, h₁) = bind_ok (or_throw (db.order o) order_not_found) _ h in
    let (checks, h₂) =
      then_ok
        (assert_order_access user order.restaurant_id order.customer_id false db
          >> throw_if (includes_status terminal_statuses order.status) not_cancellable)
        _ h₁ in
    let (access, open_order) = then_ok (assert_order_access user _ _ false db) _ checks in
    let m = cancel-Move order.order_type order.status (throw_if_ok _ _ open_order) in
    subst (λ d. Next db d) (ok_inj h₂)
      (put_order-Next o order _ _ db (or_throw_ok _ _ found)
        (record { same_type = refl; move = m }))

assigned-Next :
    (o : ℕ) (order : Order) (who branch restaurant now : ℕ) (db : Db) {db' : Db}
    → db.order o ≡ some order
    → assign_deliveryman_to_order o order who branch restaurant now db ≡ ok db'
    → Next db db'
unfolding assign_deliveryman_to_order
assigned-Next o order who branch restaurant now db found h =
    let (checked, h₁) = then_ok (checked_assignment order who branch restaurant) _ h in
    let m = checked_assignment-Move order who branch restaurant checked in
    subst (λ d. Next db d) (ok_inj h₁)
      (put_order-Next o order _ _ db found (record { same_type = refl; move = m }))

assign_deliveryman-Next :
    (user : AuthUserContext) (o who branch restaurant now : ℕ) (db : Db) {db' : Db}
    → assign_deliveryman user o who branch restaurant now db ≡ ok db'
    → Next db db'
unfolding assign_deliveryman
assign_deliveryman-Next user o who branch restaurant now db h =
    let (order, found, h₁) = bind_ok (or_throw (db.order o) order_not_found) _ h in
    let (access, h₂) = then_ok (assert_order_access user _ _ true db) _ h₁ in
    assigned-Next o order who branch restaurant now db (or_throw_ok _ _ found) h₂

accept_deliveryman_order-Next :
    (user : AuthUserContext) (o branch restaurant now : ℕ) (db : Db) {db' : Db}
    → accept_deliveryman_order user o branch restaurant now db ≡ ok db'
    → Next db db'
unfolding accept_deliveryman_order
accept_deliveryman_order-Next user o branch restaurant now db h =
    let (is_one, h₁) = then_ok (throw_if _ not_a_deliveryman) _ h in
    let (order, found, h₂) = bind_ok (or_throw (db.order o) order_not_found) _ h₁ in
    let (free, h₃) = then_ok (throw_if _ already_assigned) _ h₂ in
    assigned-Next o order user.uid branch restaurant now db (or_throw_ok _ _ found) h₃

perform-Next :
    (now : ℕ) (r : Request) (db : Db) {db' : Db} → perform now r db ≡ ok db' → Next db db'
unfolding perform
perform-Next now (update_status_request user o dto) db h = update_status-Next user o dto now db h
perform-Next now (cancel_request user o) db h = cancel-Next user o now db h
perform-Next now (assign_request user o who branch restaurant) db h =
    assign_deliveryman-Next user o who branch restaurant now db h
perform-Next now (accept_request user o branch restaurant) db h =
    accept_deliveryman_order-Next user o branch restaurant now db h

left-Next :
    (db : Db) (out : Outcome OrderError Db)
    → ((db' : Db) → out ≡ ok db' → Next db db')
    → Next db (left db out)
unfolding Next
left-Next db (ok db') h = h db' refl
left-Next db (err e) h = λ o row found. inl found

-- A row's life: the moves of the requests that have changed it, one after the other.
pub data Life : Order → Order → Type 0 where
  stays : {a : Order} → Life a a
  moves_on : {a b c : Order} → Moved a b → Life b c → Life a c

-- Whatever is asked of the order service to update the status of orders, to cancel them, to assign
-- a deliveryman or to accept them, an order stays in the table, and its row has lived by moves
-- alone: steps of the table of transitions, and sending out a delivery order that is not final.
pub run-Life :
    (rs : List (ℕ × Request)) (db : Db) (o : ℕ) (row : Order)
    → db.order o ≡ some row
    → (row' : Order) × ((run rs db).order o ≡ some row') × Life row row'
unfolding run Next
run-Life [] db o row found = (row, found, stays)
run-Life ((now, r) ∷ rs) db o row found = elim (perform_next now r db o row found) [
  | inl kept ↦ run-Life rs (left db (perform now r db)) o row kept
  | inr (row', here, moved) ↦
      let (last, at_end, life) = run-Life rs (left db (perform now r db)) o row' here in
      (last, at_end, moves_on moved life)
]
  where
    perform_next : (now : ℕ) (r : Request) (db : Db) → Next db (left db (perform now r db))
    perform_next now r db = left-Next db (perform now r db) (λ db'. perform-Next now r db)
