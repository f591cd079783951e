-- ===== src/Orders/Moves.antt =====
-- What one request may do to the row of an order.
use deliveryways.Prelude.{
  ℕ, ◌<◌, ◌≡◌, refl, true, false, Option, arith, ok, ap, ◌∙◌, inl, inr, ◌&&◌, ◌||◌, not, Bool-cases,
  throw_if, bind_ok, then_ok, throw_if_ok, Bool, ◌>>=◌, ◌>>◌, ◌≤◌,
}
use deliveryways.Auth.{AuthUserContext}
use deliveryways.Orders.Handlers.{
  is_external_delivery_dispatch, checked_update, resolve_accepted_order_time,
  assert_delivery_otp_for_completion, assert_update_access, checked_assignment,
}
use deliveryways.Orders.Transitions.{
  rank, Step, is_status-eq, is_valid_status_transition-Step, Step-rank, rank-top, call_off,
}
use deliveryways.Orders.Status.{
  OrderType, delivery, OrderStatus, payment_pending, placed, confirmed, preparing, ready_for_pickup,
  ready_to_serve, out_for_delivery, is_status, is_delivery, includes_status, terminal_statuses,
  is_valid_status_transition, cancelled,
}
use deliveryways.Orders.Store.{Order, Db, UpdateOrderStatusDto, invalid_transition}

-- A change of status: a step of the table, or sending a delivery order out, which an assignment
-- does from every status that is not final and an external dispatch from two of them.
pub data Move : OrderType → OrderStatus → OrderStatus → Type 0 where
  step : {t : OrderType} {a b : OrderStatus} → Step t a b → Move t a b
  send_out : {a : OrderStatus} → rank a < 5 → Move delivery a out_for_delivery

rank-terminal : (s : OrderStatus) → includes_status terminal_statuses s ≡ false → rank s < 5
rank-terminal payment_pending h = omega arith
rank-terminal placed h = omega arith
rank-terminal confirmed h = omega arith
rank-terminal preparing h = omega arith
rank-terminal ready_for_pickup h = omega arith
rank-terminal ready_to_serve h = omega arith
rank-terminal out_for_delivery h = omega arith
rank-terminal _ h = absurd (cc h)

pub is_delivery-eq : (t : OrderType) → is_delivery t ≡ true → t ≡ delivery
is_delivery-eq delivery h = refl
is_delivery-eq _ h = absurd (cc h)

-- What an update that passes has passed.
pub record IsPassed (user : AuthUserContext) (order : Order) (dto : UpdateOrderStatusDto) (db : Db)
    (accepted : Option ℕ) : Type 0 where
  pub access : assert_update_access user order dto db ≡ ok tt
  pub allowed :
      (not (is_external_delivery_dispatch order dto)
        && not (is_valid_status_transition order.order_type order.status dto.status))
      ≡ false
  pub time : resolve_accepted_order_time order dto ≡ ok accepted
  pub otp : assert_delivery_otp_for_completion order dto ≡ ok tt

pub checked_update-IsPassed :
    (user : AuthUserContext) (order : Order) (dto : UpdateOrderStatusDto) (db : Db)
    {accepted : Option ℕ}
    → checked_update user order dto db ≡ ok accepted
    → IsPassed user order dto db accepted
unfolding checked_update
checked_update-IsPassed user order dto db {accepted} h =
    let check = assert_delivery_otp_for_completion order dto in
    let time = resolve_accepted_order_time order dto in
    let may = assert_update_access user order dto db in
    let refused = throw_if _ invalid_transition in
    let (h₁, h₂) = then_ok (may >> refused) (time >>= λ a. check >> ok a) h in
    let (access, allowed) = then_ok may refused h₁ in
    let (t, timed, h₃) = bind_ok time (λ a. check >> ok a) h₂ in
    let (otp, h₄) = then_ok check (ok t) h₃ in
    let same : t ≡ accepted = cc h₄ in
    record {
      access = access;
      allowed = throw_if_ok _ invalid_transition allowed;
      time = timed ∙ ap ok same;
      otp = otp;
    }

external-Move :
    (t : OrderType) (a b : OrderStatus)
    → (is_delivery t
        && is_status b out_for_delivery
        && (is_status a confirmed || is_status a preparing))
      ≡ true
    → Move t a b
external-Move t a b h =
    let goes : is_status b out_for_delivery ≡ true = ground arith in
    let open_order : rank a < 5 = ground arith in
    rw (is_delivery-eq t (ground arith), is_status-eq b out_for_delivery goes) (send_out open_order)

external_dispatch-Move :
    (order : Order) (dto : UpdateOrderStatusDto)
    → is_external_delivery_dispatch order dto ≡ true
    → Move order.order_type order.status dto.status
unfolding is_external_delivery_dispatch
external_dispatch-Move order dto h =
    external-Move order.order_type order.status dto.status (ground arith)

not_both : (a b : Bool) → (not a && not b) ≡ false → b ≡ false → a ≡ true
not_both a b h g = ground arith

-- An update that passes its checks is a move.
pub IsPassed-Move :
    (user : AuthUserContext) (order : Order) (dto : UpdateOrderStatusDto) (db : Db)
    {accepted : Option ℕ}
    → IsPassed user order dto db accepted
    → Move order.order_type order.status dto.status
IsPassed-Move user order dto db p =
    elim (Bool-cases (is_valid_status_transition order.order_type order.status dto.status)) [
      | inl valid ↦ step ((is_valid_status_transition-Step _ _ _).0 valid)
      | inr other ↦ external_dispatch-Move order dto (not_both _ _ p.allowed other)
    ]

-- An assignment that passes its checks is a move.
pub checked_assignment-Move :
    (order : Order) (who branch restaurant : ℕ)
    → checked_assignment order who branch restaurant ≡ ok tt
    → Move order.order_type order.status out_for_delivery
unfolding checked_assignment
checked_assignment-Move order who branch restaurant h =
    let delivers : is_delivery order.order_type ≡ true = ground arith in
    let fresh : includes_status terminal_statuses order.status ≡ false = ground arith in
    rw (is_delivery-eq order.order_type delivers) (send_out (rank-terminal order.status fresh))

-- A cancellation of an order that is not final is a move.
pub cancel-Move :
    (t : OrderType) (s : OrderStatus)
    → includes_status terminal_statuses s ≡ false
    → Move t s cancelled
cancel-Move t s h = step (call_off (rank-terminal s h))

-- A move goes up, or stays among the statuses on the way to the customer.
pub Move-rank : {t : OrderType} {a b : OrderStatus} → Move t a b → (rank a ≤ rank b) × (rank a < 5)
Move-rank (step s) = let up = Step-rank s in (omega arith, below s)
  where
    below : {t : OrderType} {a b : OrderStatus} → Step t a b → rank a < 5
    below {t} {a} {b} s = let up = Step-rank s in let top = rank-top b in omega arith
Move-rank (send_out h) = (omega arith, h)
