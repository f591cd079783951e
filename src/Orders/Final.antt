-- ===== src/Orders/Final.antt =====
-- Consequences for whole lives of an order: final rows, the order type, and the climb.
use deliveryways.Prelude.{
  ℕ, ◌≤◌, ◌≡◌, refl, sym, ap, ◌∙◌, Bool, true, false, some, List, arith, subst, [], ◌∷◌, ok,
  throw_if, or_throw, ◌>>◌, bind_ok, then_ok, throw_if_ok, or_throw_ok, ok_inj,
}
use deliveryways.Orders.Moves.{Move-rank, Move, step, send_out}
use deliveryways.Orders.Lifecycle.{Request, run, Life, stays, moves_on, run-Life}
use deliveryways.Orders.Transitions.{
  rank, Step, accept, reject_placed, prepare, reject_confirmed, ready, pick_up, plate, serve,
  dispatch, deliver, call_off,
}
use deliveryways.Orders.Status.{
  OrderType, delivery, takeaway, dine_in, OrderStatus, placed, ready_for_pickup, picked_up,
  ready_to_serve, served, out_for_delivery, delivered, cancelled, rejected, includes_status,
  terminal_statuses, is_delivery, is_completed_order, get_tracking_stages,
}
use deliveryways.Orders.Store.{Order, Db, order_not_found, not_cancellable}
use deliveryways.Auth.{AuthUserContext}
use deliveryways.Orders.Handlers.{cancelled_order, cancel}
use deliveryways.Orders.Access.{assert_order_access}

abbrev is_takeaway : OrderType → Bool
is_takeaway takeaway = true
is_takeaway _ = false

abbrev is_dine_in : OrderType → Bool
is_dine_in dine_in = true
is_dine_in _ = false

-- How an order of a type is handed over.
abbrev pub fits : OrderType → OrderStatus → Bool
fits t ready_for_pickup = is_takeaway t
fits t picked_up = is_takeaway t
fits t ready_to_serve = is_dine_in t
fits t served = is_dine_in t
fits t out_for_delivery = is_delivery t
fits t delivered = is_delivery t
fits t _ = true

Step-fits : {t : OrderType} {a b : OrderStatus} → Step t a b → fits t a ≡ true → fits t b ≡ true
Step-fits accept h = refl
Step-fits reject_placed h = refl
Step-fits prepare h = refl
Step-fits reject_confirmed h = refl
Step-fits ready h = refl
Step-fits pick_up h = h
Step-fits plate h = refl
Step-fits serve h = h
Step-fits dispatch h = refl
Step-fits deliver h = h
Step-fits (call_off open_order) h = refl

Move-fits : {t : OrderType} {a b : OrderStatus} → Move t a b → fits t a ≡ true → fits t b ≡ true
Move-fits (step s) h = Step-fits s h
Move-fits (send_out open_order) h = refl

Life-fits :
    {a b : Order}
    → Life a b
    → fits a.order_type a.status ≡ true
    → (b.order_type ≡ a.order_type) × (fits b.order_type b.status ≡ true)
Life-fits stays h = (refl, h)
Life-fits (moves_on {b = b} moved life) h =
    let here = Move-fits moved.move h in
    let (same_type, there) = Life-fits life (rw moved.same_type here) in
    (same_type ∙ moved.same_type, there)

-- Whatever is asked of the order service to update the status of orders, to cancel them, to assign
-- a deliveryman or to accept them, an order keeps its type, and where its status is one of those
-- of the type, it never leaves them: only a takeaway order is picked up, only a dine-in order is
-- served, and only a delivery order is sent out and delivered.
pub run-fits :
    (rs : List (ℕ × Request)) (db : Db) (o : ℕ) (row : Order)
    → db.order o ≡ some row
    → fits row.order_type row.status ≡ true
    → (row' : Order) × ((run rs db).order o ≡ some row')
      × (row'.order_type ≡ row.order_type)
      × (fits row'.order_type row'.status ≡ true)
run-fits rs db o row found h =
    let (last, at_end, life) = run-Life rs db o row found in
    let (same_type, fit) = Life-fits life h in (last, at_end, same_type, fit)

final-rank : (s : OrderStatus) → includes_status terminal_statuses s ≡ true → rank s ≡ 5
final-rank delivered h = refl
final-rank picked_up h = refl
final-rank served h = refl
final-rank cancelled h = refl
final-rank rejected h = refl
final-rank _ h = absurd (cc h)

final-Life : {a b : Order} → includes_status terminal_statuses a.status ≡ true → Life a b → a ≡ b
final-Life h stays = refl
final-Life {a} h (moves_on moved life) =
    let low = (Move-rank moved.move).1 in let top = final-rank a.status h in absurd (omega arith)

-- Once the status of an order is final, no sequence of the order service's requests to update its
-- status, to cancel it, to assign a deliveryman or to accept it changes its row.
pub run_final :
    (rs : List (ℕ × Request)) (db : Db) (o : ℕ) (row : Order)
    → db.order o ≡ some row
    → includes_status terminal_statuses row.status ≡ true
    → (run rs db).order o ≡ some row
run_final rs db o row found h =
    let (last, at_end, life) = run-Life rs db o row found in
    at_end ∙ ap some (sym (final-Life h life))

Life-rank : {a b : Order} → Life a b → rank a.status ≤ rank b.status
Life-rank stays = omega arith
Life-rank (moves_on moved life) =
    let up = (Move-rank moved.move).0 in let rest = Life-rank life in omega arith

-- A cancellation that returns found an order that was not final, and the row is the old one cancelled
-- by the user at that time; it stays so after any sequence of the order service's requests to update
-- the status, to cancel, to assign a deliveryman or to accept the order.
pub cancelled_for_good :
    (user : AuthUserContext) (o now : ℕ) (db : Db) {db' : Db} (rs : List (ℕ × Request))
    → cancel user o now db ≡ ok db'
    → (row : Order) × (db.order o ≡ some row)
      × (includes_status terminal_statuses row.status ≡ false)
      × ((run rs db').order o ≡ some (cancelled_order user.uid now row))
unfolding cancel
cancelled_for_good user o now db {db'} rs h =
    let (row, found, h₁) = bind_ok (or_throw (db.order o) order_not_found) _ h in
    let (checks, h₂) =
      then_ok
        (assert_order_access user row.restaurant_id row.customer_id false db
          >> throw_if (includes_status terminal_statuses row.status) not_cancellable)
        _ h₁ in
    let (access, open_order) = then_ok (assert_order_access user _ _ false db) _ checks in
    let here : db'.order o ≡ some (cancelled_order user.uid now row) =
      subst (λ d. d.order o ≡ some (cancelled_order user.uid now row)) (ok_inj h₂) (ground arith) in
    (row, or_throw_ok _ _ found, throw_if_ok _ _ open_order, run_final rs db' o _ here refl)

-- Each status of a list is a step from the one before, and the last one completes the order.
abbrev pub Climbs : OrderType → OrderStatus → List OrderStatus → Type 0
Climbs t s [] = is_completed_order t s ≡ true
Climbs t s (s' ∷ ss) = Step t s s' × Climbs t s' ss

-- The stages shown to a customer are a way an order of the type can really go: after placed, each
-- is a step of the table of transitions from the one before, and the last completes the order.
pub get_tracking_stages-Climbs :
    (t : OrderType)
    → (ss : List OrderStatus) × (get_tracking_stages t ≡ placed ∷ ss) × Climbs t placed ss
unfolding get_tracking_stages is_completed_order
get_tracking_stages-Climbs takeaway = (_, refl, (accept, (prepare, (ready, (pick_up, refl)))))
get_tracking_stages-Climbs dine_in = (_, refl, (accept, (prepare, (plate, (serve, refl)))))
get_tracking_stages-Climbs delivery = (_, refl, (accept, (prepare, (dispatch, (deliver, refl)))))
