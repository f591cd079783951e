-- ===== src/GroupOrders/History.antt =====
-- Any sequence of calls of group-orders.service.ts about existing sessions.
use deliveryways.Prelude.{ℕ, List, [], ◌∷◌}
use deliveryways.Auth.{AuthUserContext}
use deliveryways.GroupOrders.Handlers.{
  update_status, join, add_item, remove_item, leave, update_my_participant_status, checkout,
}
use deliveryways.GroupOrders.Keeps.{
  Leaves, Leaves-update_status, Leaves-leave, Leaves-remove_item,
  Leaves-update_my_participant_status, Leaves-join, Leaves-add_item, Leaves-checkout,
}
use deliveryways.GroupOrders.Store.{Db, Result, GroupOrderStatus, ParticipantStatus, OrderService}
use deliveryways.GroupOrders.Wellformed.{AreWellformed}

-- A call with its arguments: the user, the session, what the handler takes, and the time.
pub data Request : Type 0 where
  joins : AuthUserContext → List ℕ → ℕ → Request
  adds_item : AuthUserContext → ℕ → ℕ → ℕ → Request
  removes_item : AuthUserContext → ℕ → ℕ → ℕ → Request
  leaves : AuthUserContext → ℕ → Request
  sets_my_status : AuthUserContext → ℕ → ParticipantStatus → ℕ → Request
  sets_status : AuthUserContext → ℕ → GroupOrderStatus → ℕ → Request
  checks_out : AuthUserContext → ℕ → ℕ → Request

module _ (service : OrderService) where
  -- What the call returns or throws, and the tables that it leaves.
  unfoldable pub perform : Request → Db → Result
  perform (joins user code now) db = join user code now db
  perform (adds_item user s selection now) db = add_item service user s selection now db
  perform (removes_item user s i now) db = remove_item user s i now db
  perform (leaves user s) db = leave user s db
  perform (sets_my_status user s status now) db = update_my_participant_status user s status now db
  perform (sets_status user s status now) db = update_status user s status now db
  perform (checks_out user s now) db = checkout service user s now db

  unfoldable pub run : List Request → Db → Db
  run [] db = db
  run (q ∷ qs) db = run qs (perform q db).1

Leaves-perform :
    (service : OrderService) (q : Request) (db : Db)
    → AreWellformed db
    → Leaves (perform service q db)
unfolding perform
Leaves-perform service (joins user code now) = Leaves-join user code now
Leaves-perform service (adds_item user s selection now) =
    Leaves-add_item service user s selection now
Leaves-perform service (removes_item user s i now) = Leaves-remove_item user s i now
Leaves-perform service (leaves user s) = Leaves-leave user s
Leaves-perform service (sets_my_status user s status now) =
    Leaves-update_my_participant_status user s status now
Leaves-perform service (sets_status user s status now) = Leaves-update_status user s status now
Leaves-perform service (checks_out user s now) = Leaves-checkout service user s now

-- Whatever calls are made and whatever the order service answers, if each session has an order
-- exactly when it is checked out and each of its items belongs to somebody who takes part, then so it
-- is afterwards.
pub run-AreWellformed :
    (service : OrderService) (qs : List Request) (db : Db)
    → AreWellformed db
    → AreWellformed (run service qs db)
unfolding run
run-AreWellformed service [] db h = h
run-AreWellformed service (q ∷ qs) db h =
    run-AreWellformed service qs (perform service q db).1 (Leaves-perform service q db h).wellformed
