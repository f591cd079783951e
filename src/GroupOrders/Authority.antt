-- ===== src/GroupOrders/Authority.antt =====
-- group-orders.service.ts: who may do what to a session.
use deliveryways.Prelude.{ℕ, ◌≡◌, false, some, List, arith, ◌==◌}
use deliveryways.Auth.{AuthUserContext}
use deliveryways.GroupOrders.History.{
  Request, perform, joins, adds_item, removes_item, leaves, sets_my_status, sets_status, checks_out,
}
use deliveryways.GroupOrders.Handlers.{
  update_status, get_session_for_member, get_session_for_host, prune_invalid_active_items, join,
  add_item, remove_item, leave, update_my_participant_status, checkout,
}
use deliveryways.GroupOrders.Store.{Db, GroupOrderStatus, ParticipantStatus, Session, OrderService}

abbrev pub caller : Request → ℕ
caller (joins user code now) = user.uid
caller (adds_item user s selection now) = user.uid
caller (removes_item user s i now) = user.uid
caller (leaves user s) = user.uid
caller (sets_my_status user s status now) = user.uid
caller (sets_status user s status now) = user.uid
caller (checks_out user s now) = user.uid

module _ (service : OrderService) {s : ℕ} {row row' : Session} where
  join-status :
      (user : AuthUserContext) (code : List ℕ) (now : ℕ) (db : Db)
      → db.session s ≡ some row
      → (join user code now db).1.session s ≡ some row'
      → row'.status ≡ row.status
  unfolding join
  join-status user code now db found e = ground arith

  add_item-status :
      (user : AuthUserContext) (s' selection now : ℕ) (db : Db)
      → db.session s ≡ some row
      → (add_item service user s' selection now db).1.session s ≡ some row'
      → row'.status ≡ row.status
  unfolding add_item get_session_for_member prune_invalid_active_items
  add_item-status user s' selection now db found e = ground arith

  remove_item-status :
      (user : AuthUserContext) (s' i now : ℕ) (db : Db)
      → db.session s ≡ some row
      → (remove_item user s' i now db).1.session s ≡ some row'
      → row'.status ≡ row.status
  unfolding remove_item get_session_for_member
  remove_item-status user s' i now db found e = ground arith

  leave-status :
      (user : AuthUserContext) (s' : ℕ) (db : Db)
      → db.session s ≡ some row
      → (leave user s' db).1.session s ≡ some row'
      → row'.status ≡ row.status
  unfolding leave get_session_for_member
  leave-status user s' db found e = ground arith

  my_status-status :
      (user : AuthUserContext) (s' : ℕ) (status : ParticipantStatus) (now : ℕ) (db : Db)
      → db.session s ≡ some row
      → (update_my_participant_status user s' status now db).1.session s ≡ some row'
      → row'.status ≡ row.status
  unfolding update_my_participant_status get_session_for_member
  my_status-status user s' status now db found e = ground arith

  update_status-status :
      (user : AuthUserContext) (s' : ℕ) (status : GroupOrderStatus) (now : ℕ) (db : Db)
      → (row.host_user_id == user.uid) ≡ false
      → db.session s ≡ some row
      → (update_status user s' status now db).1.session s ≡ some row'
      → row'.status ≡ row.status
  unfolding update_status get_session_for_host get_session_for_member
  update_status-status user s' status now db other found e = ground arith

  checkout-status :
      (user : AuthUserContext) (s' now : ℕ) (db : Db)
      → (row.host_user_id == user.uid) ≡ false
      → db.session s ≡ some row
      → (checkout service user s' now db).1.session s ≡ some row'
      → row'.status ≡ row.status
  unfolding checkout get_session_for_host get_session_for_member prune_invalid_active_items
  checkout-status user s' now db other found e = ground arith

-- Only its host changes the status of a session: a call of anybody else leaves it, whether the call
-- returns or throws.
pub status_by_host :
    (service : OrderService) (q : Request) (s : ℕ) (row row' : Session) (db : Db)
    → (row.host_user_id == caller q) ≡ false
    → db.session s ≡ some row
    → (perform service q db).1.session s ≡ some row'
    → row'.status ≡ row.status
unfolding perform
status_by_host service (joins user code now) s row row' db other =
    join-status service user code now db
status_by_host service (adds_item user s' selection now) s row row' db other =
    add_item-status service user s' selection now db
status_by_host service (removes_item user s' i now) s row row' db other =
    remove_item-status service user s' i now db
status_by_host service (leaves user s') s row row' db other = leave-status service user s' db
status_by_host service (sets_my_status user s' status now) s row row' db other =
    my_status-status service user s' status now db
status_by_host service (sets_status user s' status now) s row row' db other =
    update_status-status service user s' status now db other
status_by_host service (checks_out user s' now) s row row' db other =
    checkout-status service user s' now db other
