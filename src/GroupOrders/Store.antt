-- ===== src/GroupOrders/Store.antt =====
-- The tables of group-orders.service.ts. The participants and the items of a session stand in its
-- row, as its handlers read them; a moment is its milliseconds. What a customer chose of an item is
-- one value here, which the order service alone reads.
use deliveryways.Prelude.{ℕ, Bool, Option, some, List, ◌==◌, if◌then◌else◌, Outcome, ok, err}

pub data GroupOrderStatus : Type 0 where
  collecting locked checked_out called_off expired : GroupOrderStatus

pub data ParticipantStatus : Type 0 where
  active completed has_left removed : ParticipantStatus

pub record Participant : Type 0 where
  pub id : ℕ
  pub user_id : ℕ
  pub is_host : Bool
  pub status : ParticipantStatus

pub record Item : Type 0 where
  pub id : ℕ
  pub participant_id : ℕ
  pub selection : ℕ

pub record Session : Type 0 where
  pub tenant_id : ℕ
  pub restaurant_id : ℕ
  pub host_user_id : ℕ
  pub status : GroupOrderStatus
  pub expires_at : ℕ
  pub final_order : Option ℕ
  pub participants : List Participant
  pub items : List Item

pub record Db : Type 0 where
  pub session : ℕ → Option Session
  pub by_invite_code : List ℕ → Option ℕ
  pub next_id : ℕ

pub data GroupError : Type 0 where
  not_a_customer session_not_found not_a_participant not_the_host : GroupError
  invite_expired not_available session_locked not_ready : GroupError
  outside_restaurant host_joins already_joined was_removed : GroupError
  not_active item_not_found not_own_item already_inactive host_leaves : GroupError
  already_checked_out already_called_off bad_status host_completes : GroupError
  empty_order invalid_selection order_refused branch_closed : GroupError

abbrev pub Check : Type 0
Check = Outcome GroupError (Unit {0})

-- What a call returns or throws, and the tables that it leaves.
abbrev pub Result : Type 0
Result = Outcome GroupError (Unit {0}) × Db

abbrev pub checked {ℓ} : {A : Type ℓ} → Db → Outcome GroupError A → (A → Result) → Result
checked db (ok a) f = f a
checked db (err e) f = (err e, db)

abbrev pub put_session : ℕ → Session → Db → Db
put_session s row db = record db { session = λ s'. if s' == s then some row else db.session s' }

-- What the order service answers of a selection: that it can be ordered, that something it names is
-- gone, or that the whole session cannot be ordered from now.
pub data Quoted : Type 0 where
  orderable stale unavailable : Quoted

-- The order service, as this one uses it: the check of one item, and the creation of the order,
-- with the coupon that the request names. Beside it, whether the branch takes items for the time of
-- the session.
pub record OrderService : Type 0 where
  pub is_branch_open : Session → Bool
  pub quote : Session → ℕ → Quoted
  pub create : Session → Option ℕ
