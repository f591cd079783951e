-- ===== src/Orders/Tests.antt =====
-- Orders at concrete inputs.
use deliveryways.Prelude.{
  ℕ, ◌≡◌, refl, ◌↔◌, true, false, none, some, List, [], ◌∷◌, ◌==◌, if◌then◌else◌, length, ok, err,
  ◌>>=◌, ◌+◌,
}
use deliveryways.Prelude.Int.{pos, pos_part, neg_part, ◌-ℤ◌}
use deliveryways.Auth.{super_admin, deliveryman, AuthUserContext}
use deliveryways.Orders.Final.{
  fits, run-fits, run_final, cancelled_for_good, Climbs, get_tracking_stages-Climbs,
}
use deliveryways.Orders.Authority.{delivered_by_otp, delivered_order, deliveryman_delivers}
use deliveryways.Orders.Handlers.{
  has_text, is_external_delivery_dispatch, resolve_accepted_order_time,
  assert_delivery_otp_for_completion, updated, assert_update_access, checked_update, update_status,
  cancelled_order, cancel,
}
use deliveryways.Orders.Access.{assert_order_access}
use deliveryways.Orders.Lifecycle.{
  Request, update_status_request, cancel_request, run, Life, run-Life,
}
use deliveryways.Orders.Transitions.{Step, is_valid_status_transition-Step}
use deliveryways.Orders.Status.{
  delivery, takeaway, dine_in, OrderStatus, placed, preparing, ready_for_pickup, out_for_delivery,
  delivered, cancelled, rejected, includes_status, base_transitions, is_valid_status_transition,
  is_valid_deliveryman_status_transition, terminal_statuses, get_tracking_stages,
}
use deliveryways.Orders.Deals.{
  allocate_lines, allocate_fixed_deal_total, sum_ℤ, allocate_fixed_deal_total_lem,
}
use deliveryways.Orders.Delivery.{
  Geometry, DeliveryAddress, Terms, DeliveryConfig, zone_bands, below_minimum_amount, insert_band,
  sort_bands, find_band, assert_address_in_delivery_zone_band, resolve_zone_band_delivery_fee,
  resolve_delivery_fee_for_address, assert_delivery_address_in_coverage,
}
use deliveryways.Orders.DeliveryLaws.{covered, resolve_delivery_fee-covers}
use deliveryways.Orders.Store.{
  Order, notify_order_status_changed, sync_delivery_thread, emit_tracking_update, Db,
  UpdateOrderStatusDto, put_order, emit,
}

abbrev code : List ℕ
code = 49 ∷ 50 ∷ 51 ∷ 52 ∷ []

abbrev sent_out : Order
sent_out = record {
  order_type = delivery;
  status = out_for_delivery;
  restaurant_id = 1;
  branch_id = 2;
  customer_id = 7;
  deliveryman_id = some 30;
  delivery_otp = some code;
  order_time = none;
  is_scheduled = false;
  assigned_at = some 500;
  delivered_at = none;
  cancelled_at = none;
  cancelled_by_user_id = none;
}

abbrev fresh_order : Order
fresh_order = record sent_out {
  order_type = takeaway;
  status = placed;
  deliveryman_id = none;
  assigned_at = none;
}

abbrev rejected_order : Order
rejected_order = record fresh_order { status = rejected }

abbrev tables : Db
tables = record {
  order = λ o.
      if o == 1
      then some sent_out
      else if o == 2
      then some fresh_order
      else if o == 3
      then some rejected_order
      else none;
  restaurant_tenant = λ r. some 5;
  events = [];
}

abbrev admin : AuthUserContext
admin = record { uid = 90; role = super_admin; tid = none; rid = none; bid = none }

abbrev rider : AuthUserContext
rider = record { uid = 30; role = deliveryman; tid = none; rid = some 1; bid = some 2 }

abbrev to_delivered : UpdateOrderStatusDto
to_delivered = record {
  status = delivered;
  order_time = none;
  is_external = false;
  delivery_otp = some (32 ∷ 49 ∷ 50 ∷ 51 ∷ 52 ∷ []);
}

abbrev requests : List (ℕ × Request)
requests =
    (1000, update_status_request rider 1 to_delivered)
    ∷ (1100, cancel_request admin 2)
    ∷ (1200, update_status_request admin 3 to_delivered)
    ∷ []

abbrev after_delivery : Db
after_delivery =
    emit
      (notify_order_status_changed 1
        ∷ sync_delivery_thread 1 delivered
        ∷ emit_tracking_update 1
        ∷ [])
      (put_order 1 (updated delivered none 1000 sent_out) tables)

delivers_test : update_status rider 1 to_delivered 1000 tables ≡ ok after_delivery
unfolding update_status checked_update assert_update_access is_external_delivery_dispatch
    is_valid_deliveryman_status_transition is_valid_status_transition base_transitions
    resolve_accepted_order_time assert_delivery_otp_for_completion
delivers_test = refl

abbrev after_cancel : Db
after_cancel =
    emit
      (notify_order_status_changed 2
        ∷ sync_delivery_thread 2 cancelled
        ∷ emit_tracking_update 2
        ∷ [])
      (put_order 2 (cancelled_order 90 1100 fresh_order) tables)

cancels_test : cancel admin 2 1100 tables ≡ ok after_cancel
unfolding cancel assert_order_access
cancels_test = refl

is_valid_status_transition-Step_example :
    (is_valid_status_transition takeaway preparing ready_for_pickup ≡ true)
    ↔ Step takeaway preparing ready_for_pickup
is_valid_status_transition-Step_example =
    is_valid_status_transition-Step takeaway preparing ready_for_pickup

run-Life_example : (row : Order) × ((run requests tables).order 1 ≡ some row) × Life sent_out row
run-Life_example = run-Life requests tables 1 sent_out refl

run_final_example : (run requests tables).order 3 ≡ some rejected_order
run_final_example = run_final requests tables 3 rejected_order refl refl

run-fits_example :
    (row : Order) × ((run requests tables).order 2 ≡ some row)
    × (row.order_type ≡ takeaway)
    × (fits row.order_type row.status ≡ true)
run-fits_example = run-fits requests tables 2 fresh_order refl refl

delivered_by_otp_example :
    (sent_out.status ≡ out_for_delivery)
    × ((c : List ℕ) × (has_text sent_out.delivery_otp ≡ some c)
        × (has_text to_delivered.delivery_otp ≡ some c))
delivered_by_otp_example =
    delivered_by_otp rider 1 to_delivered 1000 tables sent_out refl refl refl delivers_test

deliveryman_delivers_example :
    (row : Order) × (tables.order 1 ≡ some row)
    × (row.order_type ≡ delivery)
    × (row.deliveryman_id ≡ some 30)
    × (row.status ≡ out_for_delivery)
    × (to_delivered.status ≡ delivered)
    × ((c : List ℕ) × (has_text row.delivery_otp ≡ some c)
        × (has_text to_delivered.delivery_otp ≡ some c))
    × (after_delivery.order 1
        ≡ (if 1 == 1 then some (delivered_order 1000 row) else tables.order 1))
deliveryman_delivers_example =
    deliveryman_delivers rider 1 to_delivered 1000 tables 1 refl delivers_test

cancelled_for_good_example :
    (row : Order) × (tables.order 2 ≡ some row)
    × (includes_status terminal_statuses row.status ≡ false)
    × ((run requests after_cancel).order 2 ≡ some (cancelled_order 90 1100 row))
cancelled_for_good_example = cancelled_for_good admin 2 1100 tables requests cancels_test

get_tracking_stages-Climbs_example :
    (ss : List OrderStatus) × (get_tracking_stages dine_in ≡ placed ∷ ss) × Climbs dine_in placed ss
get_tracking_stages-Climbs_example = get_tracking_stages-Climbs dine_in

allocate_fixed_deal_total_lem_example :
    (sum_ℤ (allocate_fixed_deal_total (500 ∷ 500 ∷ 500 ∷ []) 1000) ≡ pos 1000)
    × (length (allocate_fixed_deal_total (500 ∷ 500 ∷ 500 ∷ []) 1000) ≡ 3)
allocate_fixed_deal_total_lem_example = allocate_fixed_deal_total_lem 500 (500 ∷ 500 ∷ []) 1000

thirds_test :
    allocate_fixed_deal_total (500 ∷ 500 ∷ 500 ∷ []) 1000 ≡ pos 333 ∷ pos 333 ∷ pos 334 ∷ []
unfolding allocate_fixed_deal_total allocate_lines ◌-ℤ◌
thirds_test = refl

abbrev flat_earth : Geometry
flat_earth = record {
  distance = λ a b. pos_part (a.lat -ℤ b.lat) + neg_part (a.lat -ℤ b.lat);
  is_inside = λ p polygon. false;
}

abbrev at : ℕ → DeliveryAddress
at n = record { lat = some (pos n); lng = some (pos 0); postal_code = none }

abbrev no_terms : Terms
no_terms = record {
  delivery_fee = 250;
  min_order_amount = some 9000;
  free_delivery_threshold = none;
}

abbrev within_bands : DeliveryConfig
within_bands = record {
  mode = zone_bands;
  radius = 0;
  delivery_fee = 100;
  min_order_amount = 1000;
  zones = [];
  bands = record { from_distance = pos 0; to_distance = pos 2000; terms = no_terms } ∷ [];
  rules = [];
}

band_fee_test :
    resolve_delivery_fee_for_address flat_earth (at 2500) (some (at 700)) within_bands 500 false
    ≡ ok 250
unfolding resolve_delivery_fee_for_address resolve_zone_band_delivery_fee
    assert_address_in_delivery_zone_band find_band sort_bands insert_band ◌-ℤ◌
band_fee_test = refl

band_minimum_test :
    resolve_delivery_fee_for_address flat_earth (at 2500) (some (at 700)) within_bands 500 true
    ≡ err below_minimum_amount
unfolding resolve_delivery_fee_for_address resolve_zone_band_delivery_fee
    assert_address_in_delivery_zone_band find_band sort_bands insert_band ◌-ℤ◌
band_minimum_test = refl

resolve_delivery_fee-covers_example :
    (resolve_delivery_fee_for_address flat_earth (at 2500) (some (at 700)) within_bands 500 false
      >>= covered)
    ≡ assert_delivery_address_in_coverage flat_earth (at 2500) (some (at 700)) within_bands
resolve_delivery_fee-covers_example =
    resolve_delivery_fee-covers flat_earth (at 2500) (some (at 700)) within_bands 500
