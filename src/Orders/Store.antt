-- ===== src/Orders/Store.antt =====
-- The order table and what the handlers of orders.service.ts read and write beside it. Texts are
-- lists of characters, times are milliseconds, and a given `orderTime` is what `new Date` makes of
-- it: nothing where that is no date.
use deliveryways.Prelude.{ℕ, Bool, Option, some, List, ◌++◌, ◌==◌, if◌then◌else◌, Outcome}
use deliveryways.Orders.Status.{OrderType, OrderStatus}

pub record Order : Type 0 where
  pub order_type : OrderType
  pub status : OrderStatus
  pub restaurant_id : ℕ
  pub branch_id : ℕ
  pub customer_id : ℕ
  pub deliveryman_id : Option ℕ
  pub delivery_otp : Option (List ℕ)
  pub order_time : Option ℕ
  pub is_scheduled : Bool
  pub assigned_at : Option ℕ
  pub delivered_at : Option ℕ
  pub cancelled_at : Option ℕ
  pub cancelled_by_user_id : Option ℕ

-- What the handlers tell the notifications, the chat and the tracking of an order.
pub data Event : Type 0 where
  notify_order_status_changed : ℕ → Event
  sync_delivery_thread : ℕ → OrderStatus → Event
  ensure_delivery_thread : ℕ → ℕ → Event
  emit_tracking_update : ℕ → Event

pub record Db : Type 0 where
  pub order : ℕ → Option Order
  -- The tenant of a restaurant that is not deleted.
  pub restaurant_tenant : ℕ → Option ℕ
  pub events : List Event

pub record UpdateOrderStatusDto : Type 0 where
  pub status : OrderStatus
  pub order_time : Option (Option ℕ)
  pub is_external : Bool
  pub delivery_otp : Option (List ℕ)

pub data OrderError : Type 0 where
  order_not_found cross_deliveryman deliveryman_move : OrderError
  no_tenant outside_tenant outside_restaurant outside_branch : OrderError
  customer_action cross_customer : OrderError
  invalid_transition order_time_not_allowed order_time_required order_time_invalid : OrderError
  otp_not_configured otp_required otp_invalid : OrderError
  not_cancellable not_a_deliveryman already_assigned assigned_to_another : OrderError
  only_delivery not_assignable cross_restaurant branch_mismatch : OrderError

-- A check reads only, and throws or lets the handler go on.
abbrev pub Check : Type 0
Check = Outcome OrderError (Unit {0})

abbrev pub put_order : ℕ → Order → Db → Db
put_order o row db = record db { order = λ o'. if o' == o then some row else db.order o' }

abbrev pub emit : List Event → Db → Db
emit events db = record db { events = db.events ++ events }
