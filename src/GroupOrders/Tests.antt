-- ===== src/GroupOrders/Tests.antt =====
-- A session of restaurant 1 with its host 7 and the guest 8, who joins by the code.
use deliveryways.Prelude.{
  ℕ, ◌≡◌, refl, Bool, true, false, ◌&&◌, Option, none, some, List, [], ◌∷◌, arith, ◌==◌,
  if◌then◌else◌, text_eq,
}
use deliveryways.Auth.{customer, AuthUserContext, is_id}
use deliveryways.GroupOrders.History.{
  Request, perform, run, joins, adds_item, sets_my_status, sets_status, checks_out,
  run-AreWellformed,
}
use deliveryways.GroupOrders.Handlers.{
  update_status, get_session_for_member, get_session_for_host, is_checked_out,
  prune_invalid_active_items, join, add_item, update_my_participant_status, checked_status,
  checkout,
}
use deliveryways.GroupOrders.Store.{
  Db, GroupOrderStatus, collecting, locked, checked_out, active, completed, Participant, Session,
  orderable, stale, OrderService,
}
use deliveryways.GroupOrders.Authority.{status_by_host}
use deliveryways.GroupOrders.Wellformed.{AreWellformed}

abbrev host : AuthUserContext
host = record { uid = 7; role = customer; tid = some 5; rid = some 1; bid = none }

abbrev guest : AuthUserContext
guest = record host { uid = 8 }

abbrev code : List ℕ
code = 65 ∷ 66 ∷ []

abbrev host_part : Participant
host_part = record { id = 1; user_id = 7; is_host = true; status = active }

abbrev started : Session
started = record {
  tenant_id = 5;
  restaurant_id = 1;
  host_user_id = 7;
  status = collecting;
  expires_at = 9000;
  final_order = none;
  participants = host_part ∷ [];
  items = [];
}

abbrev tables : Db
tables = record {
  session = λ s. if s == 3 then some started else none;
  by_invite_code = λ c. if text_eq c code then some 3 else none;
  next_id = 20;
}

-- Item 44 is gone, and order 99 is made.
abbrev shop : OrderService
shop = record {
  is_branch_open = λ row. true;
  quote = λ row selection. if selection == 44 then stale else orderable;
  create = λ row. some 99;
}

tables-AreWellformed : AreWellformed tables
tables-AreWellformed = record { each = λ s. ground arith }

abbrev requests : List Request
requests =
    joins guest code 1000
    ∷ adds_item guest 3 40 1000
    ∷ adds_item host 3 41 1000
    ∷ adds_item host 3 44 1000
    ∷ sets_my_status guest 3 completed 1000
    ∷ sets_status host 3 locked 1000
    ∷ checks_out host 3 1000
    ∷ []

run-AreWellformed_example : AreWellformed (run shop requests tables)
run-AreWellformed_example = run-AreWellformed shop requests tables tables-AreWellformed

abbrev closed_session : Session
closed_session = record started { status = checked_out; final_order = some 99 }

abbrev closed_tables : Db
closed_tables = record tables { session = λ s. if s == 3 then some closed_session else none }

abbrev after_lock : Db
after_lock = (perform shop (sets_status guest 3 locked 1000) tables).1

status_by_host_example : ◌≡◌ {A = GroupOrderStatus} collecting collecting
unfolding perform update_status get_session_for_host get_session_for_member
status_by_host_example =
    status_by_host shop (sets_status guest 3 locked 1000) 3 started started tables refl refl refl

abbrev has_order : Option Session → Bool
has_order none = false
has_order (some row) = is_checked_out row.status && is_id 99 row.final_order

checkout_test : has_order ((run shop requests tables).session 3) ≡ true
unfolding run perform join add_item update_my_participant_status update_status checkout
    get_session_for_host get_session_for_member prune_invalid_active_items checked_status
checkout_test = refl
