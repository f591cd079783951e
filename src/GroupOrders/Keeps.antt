-- ===== src/GroupOrders/Keeps.antt =====
-- Each call of group-orders.service.ts keeps the sessions well formed.
use deliveryways.Prelude.{
  ℕ, ◌+◌, ◌≡◌, refl, subst, Bool, true, false, ◌&&◌, not, Option, none, some, List, arith, ◌==◌,
  Outcome, ok, err, inl, inr, ◌||◌, Bool-cases, is_some, any,
}
use deliveryways.Auth.{AuthUserContext}
use deliveryways.GroupOrders.Handlers.{
  update_status, find_user, get_session_for_member, get_session_for_host, is_contributing,
  set_participant, add_participant, rejoined, joined, checked_join, join, checked_own_item,
  remove_item, checked_leave, left_session, leave, checked_participant_status,
  update_my_participant_status, checked_status, is_over, get_active_participant, contributes,
  get_active_items, is_stale, is_unavailable, pruned, prune_invalid_active_items, checked_item,
  add_item, checked_checkout, checkout,
}
use deliveryways.GroupOrders.Store.{
  Db, Result, checked, GroupOrderStatus, ParticipantStatus, active, completed, has_left, removed,
  Participant, Session, GroupError, put_session, OrderService,
}
use deliveryways.GroupOrders.Wellformed.{
  is_settled_right, are_owned, is_wellformed, AreWellformed, are_owned-add, are_owned-set,
  are_owned-leave, are_owned-select, are_owned-new, active-contributes,
}

-- Whatever a call returns or throws, it leaves well-formed sessions.
pub record Leaves (x : Result) : Type 0 where
  pub wellformed : AreWellformed x.1

put-AreWellformed :
    (s : ℕ) (row : Session) (db : Db)
    → AreWellformed db
    → is_wellformed (some row) ≡ true
    → AreWellformed (put_session s row db)
put-AreWellformed s row db h k = record { each = λ s'. let own = h.each s' in ground arith }

Leaves-put :
    (s : ℕ) (row : Session) (db : Db)
    → AreWellformed db
    → is_wellformed (some row) ≡ true
    → Leaves (ok tt, put_session s row db)
Leaves-put s row db h k = record { wellformed = put-AreWellformed s row db h k }

Leaves-checked {ℓ} :
    {A : Type ℓ} {db : Db} (o : Outcome GroupError A) {f : A → Result}
    → AreWellformed db
    → ((a : A) → o ≡ ok a → Leaves (f a))
    → Leaves (checked db o f)
Leaves-checked (ok a) h k = k a refl
Leaves-checked (err e) h k = record { wellformed = h }

-- The session that a handler has read.
member_found :
    (user : AuthUserContext) (s : ℕ) (db : Db) {row : Session}
    → get_session_for_member user s db ≡ ok row
    → db.session s ≡ some row
unfolding get_session_for_member
member_found user s db h = ground arith

host_found :
    (user : AuthUserContext) (s : ℕ) (db : Db) {row : Session}
    → get_session_for_host user s db ≡ ok row
    → db.session s ≡ some row
unfolding get_session_for_host get_session_for_member
host_found user s db h = ground arith

read_row :
    (s : ℕ) (db : Db) {row : Session}
    → AreWellformed db
    → db.session s ≡ some row
    → (is_settled_right row ≡ true) × (are_owned row.participants row.items ≡ true)
read_row s db {row} h e =
    let own = subst (λ o. is_wellformed o ≡ true) e (h.each s) in
    both (is_settled_right row) (are_owned row.participants row.items) own
  where
    both : (a b : Bool) → (a && b) ≡ true → (a ≡ true) × (b ≡ true)
    both true b h = (refl, h)
    both false b h = absurd (cc h)

made_row : (a b : Bool) → a ≡ true → b ≡ true → (a && b) ≡ true
made_row true b h k = k
made_row false b h k = absurd (cc h)

pub Leaves-leave :
    (user : AuthUserContext) (s : ℕ) (db : Db) → AreWellformed db → Leaves (leave user s db)
unfolding leave
Leaves-leave user s db h = Leaves-checked (get_session_for_member user s db) h λ row e.
    Leaves-checked (checked_leave user row) h λ p e'.
      let (settled, owned) = read_row s db h (member_found user s db e) in
      Leaves-put s (left_session p.id row) db h (
        made_row (is_settled_right row) _ settled
          (are_owned-leave row.participants p.id row.items owned))

pub Leaves-remove_item :
    (user : AuthUserContext) (s i now : ℕ) (db : Db)
    → AreWellformed db
    → Leaves (remove_item user s i now db)
unfolding remove_item
Leaves-remove_item user s i now db h = Leaves-checked (get_session_for_member user s db) h λ row e.
    Leaves-checked (checked_own_item user i now row) h λ u e'.
      let (settled, owned) = read_row s db h (member_found user s db e) in
      Leaves-put s _ db h (
        made_row (is_settled_right row) _ settled
          (are_owned-select row.participants (λ x. not (x.id == i)) row.items owned))

participant_status_contributes :
    (user : AuthUserContext) (status : ParticipantStatus) (now : ℕ) (row : Session)
    {p : Participant}
    → checked_participant_status user status now row ≡ ok p
    → is_contributing status ≡ true
participant_status_contributes user status now row h = ground arith

pub Leaves-update_my_participant_status :
    (user : AuthUserContext) (s : ℕ) (status : ParticipantStatus) (now : ℕ) (db : Db)
    → AreWellformed db
    → Leaves (update_my_participant_status user s status now db)
unfolding update_my_participant_status
Leaves-update_my_participant_status user s status now db h =
    Leaves-checked (get_session_for_member user s db) h λ row e.
      Leaves-checked (checked_participant_status user status now row) h λ p e'.
        let (settled, owned) = read_row s db h (member_found user s db e) in
        Leaves-put s _ db h (
          made_row (is_settled_right row) _ settled (
            are_owned-set row.participants p.id status row.items
              (participant_status_contributes user status now row e') owned))

-- A status that the host sets is no checkout, and the session had none.
status_unsettled :
    (row : Session) (status : GroupOrderStatus) (now : ℕ)
    → checked_status row status now ≡ ok tt
    → is_settled_right row ≡ true
    → is_settled_right (record row { status = status }) ≡ true
unfolding checked_status
status_unsettled row status now h k = ground arith

pub Leaves-update_status :
    (user : AuthUserContext) (s : ℕ) (status : GroupOrderStatus) (now : ℕ) (db : Db)
    → AreWellformed db
    → Leaves (update_status user s status now db)
unfolding update_status
Leaves-update_status user s status now db h =
    Leaves-checked (get_session_for_host user s db) h λ row e.
      Leaves-checked (checked_status row status now) h λ u e'.
        let (settled, owned) = read_row s db h (host_found user s db e) in
        Leaves-put s _ db h (
          made_row (is_settled_right (record row { status = status })) _
            (status_unsettled row status now e' settled) owned)

checked_join_found :
    (user : AuthUserContext) (code : List ℕ) (now : ℕ) (db : Db) {x : ℕ × Session}
    → checked_join user code now db ≡ ok x
    → db.session x.0 ≡ some x.1
checked_join_found user code now db h = ground arith

pub Leaves-join :
    (user : AuthUserContext) (code : List ℕ) (now : ℕ) (db : Db)
    → AreWellformed db
    → Leaves (join user code now db)
unfolding join
Leaves-join user code now db h = Leaves-checked (checked_join user code now db) h λ x e.
    let (settled, owned) = read_row x.0 db h (checked_join_found user code now db e) in
    go x.0 x.1 settled owned (find_user user.uid x.1.participants)
  where
    back :
        (s : ℕ) (row : Session) (p : Participant)
        → is_settled_right row ≡ true
        → are_owned row.participants row.items ≡ true
        → Leaves (
          ok tt,
          put_session s
              (record row { participants = set_participant p.id active row.participants })
              db,
        )
    back s row p settled owned = Leaves-put s _ db h (
        made_row (is_settled_right row) _ settled
          (are_owned-set row.participants p.id active row.items refl owned))

    again :
        (s : ℕ) (row : Session) (p : Participant) (status : ParticipantStatus)
        → is_settled_right row ≡ true
        → are_owned row.participants row.items ≡ true
        → Leaves (rejoined status p s row db)
    again s row p active settled owned = record { wellformed = h }
    again s row p removed settled owned = record { wellformed = h }
    again s row p completed settled owned = back s row p settled owned
    again s row p has_left settled owned = back s row p settled owned

    go :
        (s : ℕ) (row : Session)
        → is_settled_right row ≡ true
        → are_owned row.participants row.items ≡ true
        → (o : Option Participant) → Leaves (joined o user.uid s row db)
    go s row settled owned none =
        Leaves-put s (add_participant db.next_id user.uid row)
          (record db { next_id = db.next_id + 1 }) (record { each = h.each })
          (made_row (is_settled_right row) _ settled
            (are_owned-add row.participants _ row.items owned))
    go s row settled owned (some p) = again s row p p.status settled owned

-- The two handlers that prune first.
module _ (service : OrderService) where
  pruned-wellformed :
      (row : Session)
      → is_settled_right row ≡ true
      → are_owned row.participants row.items ≡ true
      → (is_settled_right (pruned service row) ≡ true)
        × (are_owned (pruned service row).participants (pruned service row).items ≡ true)
  pruned-wellformed row settled owned =
      elim (Bool-cases (
        is_some row.final_order
        || is_over row.status
        || any (λ i. is_unavailable (service.quote row i.selection)) (get_active_items row))) [
          | inl t ↦ rw t (settled, owned)
          | inr f ↦ rw f (
            settled,
            are_owned-select row.participants
                (λ i. not (
                  contributes row.participants i.participant_id
                  && is_stale (service.quote row i.selection)))
                row.items owned,
          )
        ]

  checked_item-contributes :
      (user : AuthUserContext) (selection now : ℕ) (row : Session) {p : Participant}
      → checked_item service user selection now row ≡ ok p
      → get_active_participant user.uid row ≡ some p
  checked_item-contributes user selection now row h = ground arith

  pub Leaves-add_item :
      (user : AuthUserContext) (s selection now : ℕ) (db : Db)
      → AreWellformed db
      → Leaves (add_item service user s selection now db)
  unfolding add_item prune_invalid_active_items
  Leaves-add_item user s selection now db h =
      Leaves-checked (get_session_for_member user s db) h λ found e.
        let row = pruned service found in
        let db₁ = put_session s row db in
        let (settled₀, owned₀) = read_row s db h (member_found user s db e) in
        let (settled, owned) = pruned-wellformed found settled₀ owned₀ in
        let h₁ = put-AreWellformed s row db h (made_row (is_settled_right row) _ settled owned) in
        Leaves-checked (checked_item service user selection now row) h₁ λ p e'.
          Leaves-put s _ (record db₁ { next_id = db₁.next_id + 1 }) (record { each = h₁.each })
            (made_row (is_settled_right row) _ settled (
              are_owned-new row.participants row.items _ owned (
                active-contributes user.uid row.participants
                  (checked_item-contributes user selection now row e'))))

  pub Leaves-checkout :
      (user : AuthUserContext) (s now : ℕ) (db : Db)
      → AreWellformed db
      → Leaves (checkout service user s now db)
  unfolding checkout prune_invalid_active_items
  Leaves-checkout user s now db h = Leaves-checked (get_session_for_host user s db) h λ found e.
      let row = pruned service found in
      let (settled₀, owned₀) = read_row s db h (host_found user s db e) in
      let (settled, owned) = pruned-wellformed found settled₀ owned₀ in
      let h₁ = put-AreWellformed s row db h (made_row (is_settled_right row) _ settled owned) in
      Leaves-checked (checked_checkout service now row) h₁
        λ order e'. Leaves-put s _ (put_session s row db) h₁ (made_row true _ refl owned)
