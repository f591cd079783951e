-- ===== src/Orders/Authority.antt =====
-- What stands behind a change of an order: who asked for it, and what they had to show.
use deliveryways.Prelude.{
  ℕ, ◌≡◌, refl, sym, ap, ◌∙◌, subst, Bool, true, false, not, Option, some, List, arith,
  text_eq_sound, ok, or_throw, bind_ok, throw_if_ok, or_throw_ok, none, then_ok, ok_inj, ◌==◌,
  if◌then◌else◌,
}
use deliveryways.Auth.{AuthUserContext, is_id}
use deliveryways.Orders.Moves.{
  Move, step, IsPassed, checked_update-IsPassed, IsPassed-Move, is_delivery-eq,
}
use deliveryways.Orders.Handlers.{
  has_text, assert_delivery_otp_for_completion, checked_update, update_status, assert_update_access,
  updated, resolve_accepted_order_time,
}
use deliveryways.Orders.Transitions.{deliver, is_status-eq}
use deliveryways.Orders.Status.{
  OrderType, delivery, OrderStatus, out_for_delivery, delivered, is_status, is_delivery,
  is_valid_deliveryman_status_transition,
}
use deliveryways.Orders.Store.{
  Order, Db, UpdateOrderStatusDto, order_not_found, otp_not_configured, otp_required, otp_invalid,
  cross_deliveryman, deliveryman_move, put_order,
}
use deliveryways.Orders.Access.{is_deliveryman, assert_deliveryman_order_access}

unnegated : (b : Bool) → not b ≡ false → b ≡ true
unnegated b h = ground arith

-- The check passes only with one code on both sides.
otp_shown :
    (order : Order) (dto : UpdateOrderStatusDto)
    → is_delivery order.order_type ≡ true
    → is_status order.status out_for_delivery ≡ true
    → is_status dto.status delivered ≡ true
    → assert_delivery_otp_for_completion order dto ≡ ok tt
    → (code : List ℕ) × (has_text order.delivery_otp ≡ some code)
      × (has_text dto.delivery_otp ≡ some code)
unfolding assert_delivery_otp_for_completion
otp_shown order dto is_del is_out is_done h =
    let (expected, configured, h₁) =
      bind_ok (or_throw (has_text order.delivery_otp) otp_not_configured) _
        (rw (is_del, is_out, is_done) at h) in
    let (provided, given, h₂) = bind_ok (or_throw (has_text dto.delivery_otp) otp_required) _ h₁ in
    let equal = text_eq_sound provided expected (unnegated _ (throw_if_ok _ otp_invalid h₂)) in
    (expected, or_throw_ok _ _ configured, or_throw_ok _ _ given ∙ ap some equal)

-- Only a step from the way to the customer ends in delivered.
deliver_from : {t : OrderType} {a : OrderStatus} → Move t a delivered → a ≡ out_for_delivery
deliver_from (step deliver) = refl

-- The row and the checks of an update that returns.
update_status-IsPassed :
    (user : AuthUserContext) (o : ℕ) (dto : UpdateOrderStatusDto) (now : ℕ) (db : Db) {db' : Db}
    → update_status user o dto now db ≡ ok db'
    → (order : Order) × (accepted : Option ℕ) × (db.order o ≡ some order)
      × IsPassed user order dto db accepted
      × (db'.order ≡ (put_order o (updated dto.status accepted now order) db).order)
unfolding update_status
update_status-IsPassed user o dto now db h =
    let (order, found, h₁) = bind_ok (or_throw (db.order o) order_not_found) _ h in
    let (accepted, checked, h₂) = bind_ok (checked_update user order dto db) _ h₁ in
    (
      order,
      accepted,
      or_throw_ok _ _ found,
      checked_update-IsPassed user order dto db checked,
      sym (ap (λ d. d.order) (ok_inj h₂)),
    )

-- An update that sets a delivery order to delivered finds it on its way to the customer, and the
-- given one-time password is the order's, up to the spaces around them, and not blank.
pub delivered_by_otp :
    (user : AuthUserContext) (o : ℕ) (dto : UpdateOrderStatusDto) (now : ℕ) (db : Db) (row : Order)
    {db' : Db}
    → db.order o ≡ some row
    → row.order_type ≡ delivery
    → dto.status ≡ delivered
    → update_status user o dto now db ≡ ok db'
    → (row.status ≡ out_for_delivery)
      × ((code : List ℕ) × (has_text row.delivery_otp ≡ some code)
          × (has_text dto.delivery_otp ≡ some code))
delivered_by_otp user o dto now db row found is_del is_done h =
    let (order, accepted, here, passed, written) = update_status-IsPassed user o dto now db h in
    let p : IsPassed user row dto db accepted =
      subst (λ r. IsPassed user r dto db accepted) (cc (sym here ∙ found)) passed in
    let m = IsPassed-Move user row dto db p in
    let out = deliver_from (subst (Move row.order_type row.status) is_done m) in
    (
      out,
      otp_shown row dto (ap is_delivery is_del) (ap (λ s. is_status s out_for_delivery) out)
          (ap (λ s. is_status s delivered) is_done) p.otp,
    )

-- What a deliveryman's access check lets through.
deliveryman_access :
    (user : AuthUserContext) (order : Order) (dto : UpdateOrderStatusDto) (db : Db)
    → is_deliveryman user.role ≡ true
    → assert_update_access user order dto db ≡ ok tt
    → (is_id user.uid order.deliveryman_id ≡ true)
      × (is_valid_deliveryman_status_transition order.order_type order.status dto.status ≡ true)
unfolding assert_update_access
deliveryman_access user order dto db is_one h =
    let (own, moves) =
      then_ok (assert_deliveryman_order_access user order.deliveryman_id) _ (rw is_one at h) in
    (
      unnegated _ (throw_if_ok _ cross_deliveryman own),
      unnegated _ (throw_if_ok _ deliveryman_move moves),
    )

deliveryman_move_facts :
    (t : OrderType) (a b : OrderStatus)
    → is_valid_deliveryman_status_transition t a b ≡ true
    → (is_delivery t ≡ true)
      × (is_status a out_for_delivery ≡ true)
      × (is_status b delivered ≡ true)
unfolding is_valid_deliveryman_status_transition
deliveryman_move_facts t a b h = ground arith

own_id : (a : ℕ) (o : Option ℕ) → is_id a o ≡ true → o ≡ some a
own_id a none h = absurd (cc h)
own_id a (some b) h = let same : a ≡ b = ground arith in rw same refl

-- The row of an order that is delivered now.
abbrev pub delivered_order : ℕ → Order → Order
delivered_order now row = record row { status = delivered; delivered_at = some now }

-- Only the confirmation of a placed order accepts a time.
no_time :
    (order : Order) (dto : UpdateOrderStatusDto) {accepted : Option ℕ}
    → order.status ≡ out_for_delivery
    → resolve_accepted_order_time order dto ≡ ok accepted
    → accepted ≡ none
unfolding resolve_accepted_order_time
no_time order dto out h = ground arith

updated-delivered :
    (row : Order) (status : OrderStatus) (accepted : Option ℕ) (now : ℕ)
    → status ≡ delivered
    → accepted ≡ none
    → updated status accepted now row ≡ delivered_order now row
updated-delivered row status accepted now done untimed = rw (done, untimed) refl

-- A deliveryman's update that returns does one thing only: it sets a delivery order that is
-- assigned to that very deliveryman from on its way to delivered, with the order's one-time
-- password. The row of that order afterwards is the old one, delivered at that time, and the row of
-- every other order is as it was.
pub deliveryman_delivers :
    (user : AuthUserContext) (o : ℕ) (dto : UpdateOrderStatusDto) (now : ℕ) (db : Db) (i : ℕ)
    {db' : Db}
    → is_deliveryman user.role ≡ true
    → update_status user o dto now db ≡ ok db'
    → (row : Order) × (db.order o ≡ some row)
      × (row.order_type ≡ delivery)
      × (row.deliveryman_id ≡ some user.uid)
      × (row.status ≡ out_for_delivery)
      × (dto.status ≡ delivered)
      × ((code : List ℕ) × (has_text row.delivery_otp ≡ some code)
          × (has_text dto.delivery_otp ≡ some code))
      × (db'.order i ≡ (if i == o then some (delivered_order now row) else db.order i))
deliveryman_delivers user o dto now db i is_one h =
    let (row, accepted, here, p, written) = update_status-IsPassed user o dto now db h in
    let (own, moves) = deliveryman_access user row dto db is_one p.access in
    let (is_del, is_out, is_done) =
      deliveryman_move_facts row.order_type row.status dto.status moves in
    let out = is_status-eq row.status out_for_delivery is_out in
    let done = is_status-eq dto.status delivered is_done in
    let row_after =
      updated-delivered row dto.status accepted now done (no_time row dto out p.time) in
    (
      row,
      here,
      is_delivery-eq row.order_type is_del,
      own_id user.uid row.deliveryman_id own,
      out,
      done,
      otp_shown row dto is_del is_out is_done p.otp,
      ap (λ f. f i) written ∙ ap (λ r. if i == o then some r else db.order i) row_after,
    )
