-- ===== src/GroupOrders/Handlers.antt =====
-- group-orders.service.ts: the handlers of a session. One that prunes stale items first keeps that
-- even where it throws later.
use deliveryways.Prelude.{
  ℕ, ◌+◌, Bool, true, false, ◌&&◌, ◌||◌, not, Option, none, some, List, [], ◌∷◌, ◌++◌, map, ltb,
  ◌==◌, if◌then◌else◌, is_some, trim, is_nil, any, find, select, Outcome, ok, err, throw_if,
  or_throw, ◌>>=◌, ◌>>◌,
}
use deliveryways.Auth.{AuthUserContext, is_id, is_customer}
use deliveryways.GroupOrders.Store.{
  Db, outside_restaurant, Result, checked, GroupOrderStatus, collecting, locked, checked_out,
  called_off, expired, ParticipantStatus, active, completed, has_left, removed, Participant, Item,
  Session, GroupError, not_a_customer, session_not_found, not_a_participant, not_the_host,
  invite_expired, not_available, session_locked, host_joins, already_joined, was_removed,
  not_active, item_not_found, not_own_item, already_inactive, host_leaves, already_checked_out,
  already_called_off, bad_status, host_completes, empty_order, invalid_selection, order_refused,
  Check, put_session, Quoted, stale, unavailable, OrderService, branch_closed,
}

abbrev is_given : Option ℕ → Bool
is_given none = false
is_given (some n) = true

abbrev pub is_customer_user : AuthUserContext → Bool
is_customer_user user = is_customer user.role && is_given user.tid && is_given user.rid

abbrev pub find_user : ℕ → List Participant → Option Participant
find_user u = find (λ p. p.user_id == u)

-- `getSessionForMemberOrThrow`
unfoldable pub get_session_for_member : AuthUserContext → ℕ → Db → Outcome GroupError Session
get_session_for_member user s db =
    throw_if (not (is_customer_user user)) not_a_customer
    >> (or_throw (db.session s) session_not_found >>= λ row.
        throw_if (not (is_some (find_user user.uid row.participants))) not_a_participant >> ok row)

unfoldable pub get_session_for_host : AuthUserContext → ℕ → Db → Outcome GroupError Session
get_session_for_host user s db = get_session_for_member user s db >>= λ row.
    throw_if (not (row.host_user_id == user.uid)) not_the_host >> ok row

abbrev pub is_over : GroupOrderStatus → Bool
is_over collecting = false
is_over locked = false
is_over _ = true

abbrev pub is_collecting : GroupOrderStatus → Bool
is_collecting collecting = true
is_collecting _ = false

-- `assertSessionAvailable` and `assertSessionMutable`
abbrev pub assert_session_available : Session → ℕ → Check
assert_session_available row now =
    throw_if (ltb row.expires_at now) invite_expired >> throw_if (is_over row.status) not_available

abbrev pub assert_session_open_for_contribution : Session → ℕ → Check
assert_session_open_for_contribution row now =
    assert_session_available row now >> throw_if (not (is_collecting row.status)) session_locked

abbrev pub is_active : ParticipantStatus → Bool
is_active active = true
is_active _ = false

abbrev pub is_contributing : ParticipantStatus → Bool
is_contributing active = true
is_contributing completed = true
is_contributing _ = false

abbrev pub is_checked_out : GroupOrderStatus → Bool
is_checked_out checked_out = true
is_checked_out _ = false

abbrev pub is_called_off : GroupOrderStatus → Bool
is_called_off called_off = true
is_called_off _ = false

-- `getActiveParticipant` and `getContributingParticipant`
abbrev pub get_active_participant : ℕ → Session → Option Participant
get_active_participant u row = find (λ p. p.user_id == u && is_active p.status) row.participants

abbrev pub get_contributing_participant : ℕ → Session → Option Participant
get_contributing_participant u row =
    find (λ p. p.user_id == u && is_contributing p.status) row.participants

-- Whether the participant with that id contributes: `getActiveParticipantIds` has it.
abbrev pub contributes : List Participant → ℕ → Bool
contributes ps id = any (λ p. p.id == id && is_contributing p.status) ps

abbrev pub get_active_items : Session → List Item
get_active_items row = select (λ i. contributes row.participants i.participant_id) row.items

-- `updateParticipant` by its id.
abbrev pub set_participant : ℕ → ParticipantStatus → List Participant → List Participant
set_participant id status ps = map (λ p. if p.id == id then record p { status = status } else p) ps

abbrev pub is_stale : Quoted → Bool
is_stale stale = true
is_stale _ = false

abbrev pub is_unavailable : Quoted → Bool
is_unavailable unavailable = true
is_unavailable _ = false

module _ (service : OrderService) where
  -- The items that `pruneInvalidActiveItems` deletes, unless one cannot be quoted at all.
  abbrev pub pruned : Session → Session
  pruned row =
      if is_some row.final_order
        || is_over row.status
        || any (λ i. is_unavailable (service.quote row i.selection)) (get_active_items row)
      then row
      else record row {
        items =
            select
              (λ i. not (
                contributes row.participants i.participant_id
                && is_stale (service.quote row i.selection)))
              row.items;
      }

  unfoldable pub prune_invalid_active_items : ℕ → Session → Db → Db
  prune_invalid_active_items s row db = put_session s (pruned row) db

abbrev pub add_participant : ℕ → ℕ → Session → Session
add_participant id u row = record row {
  participants =
      row.participants ++ (record { id = id; user_id = u; is_host = false; status = active } ∷ []);
}

-- The last step of `join`, by the status of the user's earlier participation.
abbrev pub rejoined : ParticipantStatus → Participant → ℕ → Session → Db → Result
rejoined active p s row db = (err already_joined, db)
rejoined removed p s row db = (err was_removed, db)
rejoined _ p s row db = (
  ok tt,
  put_session s (record row { participants = set_participant p.id active row.participants }) db,
)

abbrev pub joined : Option Participant → ℕ → ℕ → Session → Db → Result
joined none u s row db = (
  ok tt,
  put_session s (add_participant db.next_id u row) (record db { next_id = db.next_id + 1 }),
)
joined (some p) u s row db = rejoined p.status p s row db

abbrev pub checked_join : AuthUserContext → List ℕ → ℕ → Db → Outcome GroupError (ℕ × Session)
checked_join user code now db =
    throw_if (not (is_customer_user user)) not_a_customer
    >> (or_throw (db.by_invite_code (trim code)) session_not_found >>= λ s.
        or_throw (db.session s) session_not_found >>= λ row.
        assert_session_available row now
        >> throw_if (not (is_id row.restaurant_id user.rid && is_id row.tenant_id user.tid))
            outside_restaurant
        >> throw_if (row.host_user_id == user.uid) host_joins
        >> ok (s, row))

unfoldable pub join : AuthUserContext → List ℕ → ℕ → Db → Result
join user code now db =
    checked db (checked_join user code now db)
      λ x. joined (find_user user.uid x.1.participants) user.uid x.0 x.1 db

module _ (service : OrderService) where
  abbrev pub checked_item : AuthUserContext → ℕ → ℕ → Session → Outcome GroupError Participant
  checked_item user selection now row =
      assert_session_open_for_contribution row now
      >> throw_if (not (service.is_branch_open row)) branch_closed
      >> (or_throw (get_active_participant user.uid row) not_active >>= λ p.
          throw_if
            (is_stale (service.quote row selection) || is_unavailable (service.quote row selection))
            invalid_selection
          >> ok p)

  unfoldable pub add_item : AuthUserContext → ℕ → ℕ → ℕ → Db → Result
  add_item user s selection now db = checked db (get_session_for_member user s db) λ found.
      let row = pruned service found in
      let db₁ = prune_invalid_active_items service s found db in
      checked db₁ (checked_item user selection now row) λ p. (
        ok tt,
        put_session s
            (record row {
              items =
                  row.items
                  ++ (record { id = db₁.next_id; participant_id = p.id; selection = selection }
                      ∷ []);
            })
            (record db₁ { next_id = db₁.next_id + 1 }),
      )

abbrev own_item : Option Participant → Item → Bool
own_item none i = false
own_item (some p) i = i.participant_id == p.id

abbrev pub checked_own_item : AuthUserContext → ℕ → ℕ → Session → Check
checked_own_item user i now row =
    assert_session_open_for_contribution row now
    >> (or_throw (find (λ x. x.id == i) row.items) item_not_found >>= λ item.
        throw_if (not (own_item (get_active_participant user.uid row) item)) not_own_item)

unfoldable pub remove_item : AuthUserContext → ℕ → ℕ → ℕ → Db → Result
remove_item user s i now db = checked db (get_session_for_member user s db) λ row.
    checked db (checked_own_item user i now row) λ u.
      (ok tt, put_session s (record row { items = select (λ x. not (x.id == i)) row.items }) db)

abbrev pub checked_leave : AuthUserContext → Session → Outcome GroupError Participant
checked_leave user row = or_throw (get_active_participant user.uid row) already_inactive >>= λ p.
    throw_if p.is_host host_leaves
    >> throw_if (is_checked_out row.status) already_checked_out
    >> ok p

-- `markParticipantLeftAndDeleteItems`
abbrev pub left_session : ℕ → Session → Session
left_session id row = record row {
  participants = set_participant id has_left row.participants;
  items = select (λ i. not (i.participant_id == id)) row.items;
}

unfoldable pub leave : AuthUserContext → ℕ → Db → Result
leave user s db = checked db (get_session_for_member user s db) λ row.
    checked db (checked_leave user row) λ p. (ok tt, put_session s (left_session p.id row) db)

abbrev pub checked_participant_status :
    AuthUserContext → ParticipantStatus → ℕ → Session → Outcome GroupError Participant
checked_participant_status user status now row =
    assert_session_open_for_contribution row now
    >> throw_if (not (is_contributing status)) bad_status
    >> (or_throw (get_contributing_participant user.uid row) not_active >>= λ p.
        throw_if p.is_host host_completes >> ok p)

-- Writing the status that a participant already has changes nothing.
unfoldable pub update_my_participant_status :
    AuthUserContext → ℕ → ParticipantStatus → ℕ → Db → Result
update_my_participant_status user s status now db =
    checked db (get_session_for_member user s db) λ row.
      checked db (checked_participant_status user status now row) λ p. (
        ok tt,
        put_session s (record row { participants = set_participant p.id status row.participants })
            db,
      )

abbrev assert_session_host_cancellable : GroupOrderStatus → Check
assert_session_host_cancellable status =
    throw_if (is_called_off status) already_called_off
    >> throw_if (is_checked_out status) already_checked_out

abbrev is_automatic : GroupOrderStatus → Bool
is_automatic checked_out = true
is_automatic expired = true
is_automatic _ = false

unfoldable pub checked_status : Session → GroupOrderStatus → ℕ → Check
checked_status row status now =
    (if is_called_off status
      then assert_session_host_cancellable row.status
      else assert_session_available row now)
    >> throw_if (is_automatic status) bad_status

unfoldable pub update_status : AuthUserContext → ℕ → GroupOrderStatus → ℕ → Db → Result
update_status user s status now db = checked db (get_session_for_host user s db) λ row.
    checked db (checked_status row status now)
      λ u. (ok tt, put_session s (record row { status = status }) db)

abbrev pub cancel : AuthUserContext → ℕ → ℕ → Db → Result
cancel user s now db = update_status user s called_off now db

module _ (service : OrderService) where
  -- The order that the order service makes of a session that is ready.
  abbrev pub checked_checkout : ℕ → Session → Outcome GroupError ℕ
  checked_checkout now row =
      assert_session_available row now
      >> throw_if (is_nil (get_active_items row)) empty_order
      >> or_throw (service.create row) order_refused

  unfoldable pub checkout : AuthUserContext → ℕ → ℕ → Db → Result
  checkout user s now db = checked db (get_session_for_host user s db) λ found.
      let row = pruned service found in
      let db₁ = prune_invalid_active_items service s found db in
      checked db₁ (checked_checkout now row) λ order.
        (ok tt, put_session s (record row { status = checked_out; final_order = some order }) db₁)
