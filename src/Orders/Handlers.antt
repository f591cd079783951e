-- ===== src/Orders/Handlers.antt =====
-- orders.service.ts and orders.repository.ts: the handlers that move an order through its life. A
-- handler reads and checks first and writes once, so that one that throws has written nothing; it
-- returns the tables it leaves.
use deliveryways.Prelude.{
  ℕ, Bool, true, false, ◌&&◌, ◌||◌, not, Option, none, some, List, [], ◌∷◌, ltb, ◌==◌,
  if◌then◌else◌, is_some, trim, text_eq, is_empty, Outcome, ok, err, throw_if, or_throw, ◌>>=◌,
  ◌>>◌,
}
use deliveryways.Auth.{AuthUserContext}
use deliveryways.Orders.Access.{
  is_deliveryman, ensure_branch_access, assert_order_access, assert_deliveryman_order_access,
}
use deliveryways.Orders.Status.{
  OrderStatus, placed, confirmed, preparing, picked_up, served, out_for_delivery, delivered,
  cancelled, is_status, is_delivery, includes_status, is_valid_status_transition,
  is_valid_deliveryman_status_transition, terminal_statuses,
}
use deliveryways.Orders.Store.{
  Order, notify_order_status_changed, sync_delivery_thread, ensure_delivery_thread,
  emit_tracking_update, Db, UpdateOrderStatusDto, OrderError, order_not_found, deliveryman_move,
  invalid_transition, order_time_not_allowed, order_time_required, order_time_invalid,
  otp_not_configured, otp_required, otp_invalid, not_cancellable, not_a_deliveryman,
  already_assigned, assigned_to_another, only_delivery, not_assignable, cross_restaurant,
  branch_mismatch, Check, put_order, emit,
}

abbrev pub has_text : Option (List ℕ) → Option (List ℕ)
has_text none = none
has_text (some text) = if is_empty (trim text) then none else some (trim text)

unfoldable pub is_external_delivery_dispatch : Order → UpdateOrderStatusDto → Bool
is_external_delivery_dispatch order dto =
    dto.is_external
    && (is_delivery order.order_type
        && is_status dto.status out_for_delivery
        && (is_status order.status confirmed || is_status order.status preparing))

abbrev accepted_time : Option (Option ℕ) → Outcome OrderError (Option ℕ)
accepted_time none = err order_time_required
accepted_time (some none) = err order_time_invalid
accepted_time (some (some t)) = ok (some t)

unfoldable pub resolve_accepted_order_time :
    Order → UpdateOrderStatusDto → Outcome OrderError (Option ℕ)
resolve_accepted_order_time order dto =
    if is_status order.status placed && is_status dto.status confirmed
    then accepted_time dto.order_time
    else (if is_some dto.order_time then err order_time_not_allowed else ok none)

abbrev same_otp : List ℕ → List ℕ → Check
same_otp expected provided = throw_if (not (text_eq provided expected)) otp_invalid

unfoldable pub assert_delivery_otp_for_completion : Order → UpdateOrderStatusDto → Check
assert_delivery_otp_for_completion order dto =
    if is_delivery order.order_type
      && is_status order.status out_for_delivery
      && is_status dto.status delivered
    then (or_throw (has_text order.delivery_otp) otp_not_configured >>= λ expected.
        or_throw (has_text dto.delivery_otp) otp_required >>= λ provided.
        same_otp expected provided)
    else ok tt

abbrev hands_over : OrderStatus → Bool
hands_over status =
    is_status status delivered || is_status status picked_up || is_status status served

-- `ordersRepository.updateStatus`
abbrev pub updated : OrderStatus → Option ℕ → ℕ → Order → Order
updated status none now order = record order {
  status = status;
  delivered_at = if hands_over status then some now else order.delivered_at;
}
updated status (some t) now order = record order {
  status = status;
  order_time = some t;
  is_scheduled = ltb now t;
  delivered_at = if hands_over status then some now else order.delivered_at;
}

-- Who may update the order to the status.
unfoldable pub assert_update_access : AuthUserContext → Order → UpdateOrderStatusDto → Db → Check
assert_update_access user order dto db =
    if is_deliveryman user.role
    then (assert_deliveryman_order_access user order.deliveryman_id
        >> throw_if
            (not (is_valid_deliveryman_status_transition order.order_type order.status dto.status))
            deliveryman_move)
    else ensure_branch_access user order.restaurant_id order.branch_id db

unfoldable pub checked_update :
    AuthUserContext → Order → UpdateOrderStatusDto → Db → Outcome OrderError (Option ℕ)
checked_update user order dto db =
    assert_update_access user order dto db
    >> throw_if
        (not (is_external_delivery_dispatch order dto)
          && not (is_valid_status_transition order.order_type order.status dto.status))
        invalid_transition
    >> (resolve_accepted_order_time order dto >>= λ accepted.
        assert_delivery_otp_for_completion order dto >> ok accepted)

unfoldable pub update_status :
    AuthUserContext → ℕ → UpdateOrderStatusDto → ℕ → Db → Outcome OrderError Db
update_status user o dto now db = or_throw (db.order o) order_not_found >>= λ order.
    checked_update user order dto db >>= λ accepted. ok (
      emit
        (notify_order_status_changed o
          ∷ sync_delivery_thread o dto.status
          ∷ emit_tracking_update o
          ∷ [])
        (put_order o (updated dto.status accepted now order) db))

-- `ordersRepository.cancel`
abbrev pub cancelled_order : ℕ → ℕ → Order → Order
cancelled_order who now order = record order {
  status = cancelled;
  cancelled_at = some now;
  cancelled_by_user_id = some who;
}

unfoldable pub cancel : AuthUserContext → ℕ → ℕ → Db → Outcome OrderError Db
cancel user o now db = or_throw (db.order o) order_not_found >>= λ order.
    assert_order_access user order.restaurant_id order.customer_id false db
    >> throw_if (includes_status terminal_statuses order.status) not_cancellable
    >> ok (
        emit
          (notify_order_status_changed o
            ∷ sync_delivery_thread o cancelled
            ∷ emit_tracking_update o
            ∷ [])
          (put_order o (cancelled_order user.uid now order) db))

-- `order.deliverymanId && order.deliverymanId !== deliverymanId`
abbrev is_taken : Option ℕ → ℕ → Bool
is_taken none who = false
is_taken (some other) who = not (other == who)

-- `ordersRepository.assignDeliveryman`
abbrev pub assigned_order : ℕ → ℕ → Order → Order
assigned_order who now order = record order {
  status = out_for_delivery;
  deliveryman_id = some who;
  assigned_at = some now;
}

unfoldable pub checked_assignment : Order → ℕ → ℕ → ℕ → Check
checked_assignment order who branch restaurant =
    throw_if (not (is_delivery order.order_type)) only_delivery
    >> throw_if (includes_status terminal_statuses order.status) not_assignable
    >> throw_if (not (order.restaurant_id == restaurant)) cross_restaurant
    >> throw_if (not (order.branch_id == branch)) branch_mismatch
    >> throw_if (is_taken order.deliveryman_id who) assigned_to_another

unfoldable pub assign_deliveryman_to_order : ℕ → Order → ℕ → ℕ → ℕ → ℕ → Db → Outcome OrderError Db
assign_deliveryman_to_order o order who branch restaurant now db =
    checked_assignment order who branch restaurant
    >> ok (
        emit
          (notify_order_status_changed o
            ∷ ensure_delivery_thread o who
            ∷ emit_tracking_update o
            ∷ [])
          (put_order o (assigned_order who now order) db))

unfoldable pub assign_deliveryman : AuthUserContext → ℕ → ℕ → ℕ → ℕ → ℕ → Db → Outcome OrderError Db
assign_deliveryman user o who branch restaurant now db =
    or_throw (db.order o) order_not_found >>= λ order.
    assert_order_access user order.restaurant_id order.customer_id true db
    >> assign_deliveryman_to_order o order who branch restaurant now db

unfoldable pub accept_deliveryman_order :
    AuthUserContext → ℕ → ℕ → ℕ → ℕ → Db → Outcome OrderError Db
accept_deliveryman_order user o branch restaurant now db =
    throw_if (not (is_deliveryman user.role)) not_a_deliveryman
    >> (or_throw (db.order o) order_not_found >>= λ order.
        throw_if (is_some order.deliveryman_id) already_assigned
        >> assign_deliveryman_to_order o order user.uid branch restaurant now db)
