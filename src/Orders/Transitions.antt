-- ===== src/Orders/Transitions.antt =====
-- What the table of moves allows.
use deliveryways.Prelude.{
  ℕ, ◌<◌, ◌≡◌, true, arith, refl, sym, ap, ◌∙◌, subst, ◌↔◌, inl, inr, List, [], ◌∷◌, Bool-cases,
  ◌==◌, if◌then◌else◌, ◌≤◌,
}
use deliveryways.Orders.Status.{
  OrderType, delivery, takeaway, dine_in, OrderStatus, payment_pending, placed, confirmed,
  preparing, ready_for_pickup, picked_up, ready_to_serve, served, out_for_delivery, delivered,
  cancelled, rejected, get_preparing_transitions, base_transitions, is_valid_status_transition,
  status_code, is_status, includes_status,
}

-- A rise through the statuses: nothing moves down, and a final status is the highest.
abbrev pub rank : OrderStatus → ℕ
rank payment_pending = 0
rank placed = 1
rank confirmed = 2
rank preparing = 3
rank ready_for_pickup = 4
rank ready_to_serve = 4
rank out_for_delivery = 4
rank _ = 5

pub data Step : OrderType → OrderStatus → OrderStatus → Type 0 where
  accept : {t : OrderType} → Step t placed confirmed
  reject_placed : {t : OrderType} → Step t placed rejected
  prepare : {t : OrderType} → Step t confirmed preparing
  reject_confirmed : {t : OrderType} → Step t confirmed rejected
  ready : Step takeaway preparing ready_for_pickup
  pick_up : {t : OrderType} → Step t ready_for_pickup picked_up
  plate : Step dine_in preparing ready_to_serve
  serve : {t : OrderType} → Step t ready_to_serve served
  dispatch : Step delivery preparing out_for_delivery
  deliver : {t : OrderType} → Step t out_for_delivery delivered
  call_off : {t : OrderType} {s : OrderStatus} → rank s < 5 → Step t s cancelled

status_of : ℕ → OrderStatus
status_of k = find_or_rejected (
    (0, payment_pending)
    ∷ (1, placed)
    ∷ (2, confirmed)
    ∷ (3, preparing)
    ∷ (4, ready_for_pickup)
    ∷ (5, picked_up)
    ∷ (6, ready_to_serve)
    ∷ (7, served)
    ∷ (8, out_for_delivery)
    ∷ (9, delivered)
    ∷ (10, cancelled)
    ∷ [])
  where
    find_or_rejected : List (ℕ × OrderStatus) → OrderStatus
    find_or_rejected [] = rejected
    find_or_rejected ((c, s) ∷ rows) = if c == k then s else find_or_rejected rows

status_of-status_code : (s : OrderStatus) → status_of (status_code s) ≡ s
unfolding status_of
status_of-status_code payment_pending = refl
status_of-status_code placed = refl
status_of-status_code confirmed = refl
status_of-status_code preparing = refl
status_of-status_code ready_for_pickup = refl
status_of-status_code picked_up = refl
status_of-status_code ready_to_serve = refl
status_of-status_code served = refl
status_of-status_code out_for_delivery = refl
status_of-status_code delivered = refl
status_of-status_code cancelled = refl
status_of-status_code rejected = refl

-- `===` on statuses is equality.
pub is_status-eq : (a b : OrderStatus) → is_status a b ≡ true → a ≡ b
is_status-eq a b h =
    let same : status_code a ≡ status_code b = ground arith in
    sym (status_of-status_code a) ∙ ap status_of same ∙ status_of-status_code b

-- Every status of a list has a property.
All : (OrderStatus → Type 0) → List OrderStatus → Type 0
All P [] = Unit {0}
All P (s ∷ ss) = P s × All P ss

All-includes :
    (P : OrderStatus → Type 0) (ss : List OrderStatus) (b : OrderStatus)
    → All P ss
    → includes_status ss b ≡ true
    → P b
unfolding All
All-includes P [] b u h = absurd (cc h)
All-includes P (s ∷ ss) b (p, ps) h = elim (Bool-cases (is_status b s)) [
  | inl same ↦ subst P (sym (is_status-eq b s same)) p
  | inr other ↦ All-includes P ss b ps (rw other at h)
]

table_steps : (t : OrderType) (a : OrderStatus) → All (Step t a) (base_transitions t a)
unfolding All base_transitions get_preparing_transitions
table_steps t payment_pending = (call_off (omega arith), tt)
table_steps t placed = (accept, (call_off (omega arith), (reject_placed, tt)))
table_steps t confirmed = (prepare, (call_off (omega arith), (reject_confirmed, tt)))
table_steps takeaway preparing = (ready, (call_off (omega arith), tt))
table_steps dine_in preparing = (plate, (call_off (omega arith), tt))
table_steps delivery preparing = (dispatch, (call_off (omega arith), tt))
table_steps t ready_for_pickup = (pick_up, (call_off (omega arith), tt))
table_steps t picked_up = tt
table_steps t ready_to_serve = (serve, (call_off (omega arith), tt))
table_steps t served = tt
table_steps t out_for_delivery = (deliver, (call_off (omega arith), tt))
table_steps t delivered = tt
table_steps t cancelled = tt
table_steps t rejected = tt

cancels :
    (t : OrderType) (s : OrderStatus) → rank s < 5 → is_valid_status_transition t s cancelled ≡ true
unfolding is_valid_status_transition base_transitions get_preparing_transitions
cancels t payment_pending h = refl
cancels t placed h = refl
cancels t confirmed h = refl
cancels takeaway preparing h = refl
cancels dine_in preparing h = refl
cancels delivery preparing h = refl
cancels t ready_for_pickup h = refl
cancels t ready_to_serve h = refl
cancels t out_for_delivery h = refl
cancels t _ h = absurd (omega arith)

in_table :
    (t : OrderType) (a b : OrderStatus) → Step t a b → is_valid_status_transition t a b ≡ true
unfolding is_valid_status_transition base_transitions get_preparing_transitions
in_table t a b accept = refl
in_table t a b reject_placed = refl
in_table t a b prepare = refl
in_table t a b reject_confirmed = refl
in_table t a b ready = refl
in_table t a b pick_up = refl
in_table t a b plate = refl
in_table t a b serve = refl
in_table t a b dispatch = refl
in_table t a b deliver = refl
in_table t a b (call_off h) = cancels t a h

-- A move between two statuses of an order passes the table exactly when it is one of the steps: an
-- acceptance, a rejection, a step of the kitchen, the order type's way of handing over, or a
-- cancellation from a status that is not final.
pub is_valid_status_transition-Step :
    (t : OrderType) (a b : OrderStatus) → (is_valid_status_transition t a b ≡ true) ↔ Step t a b
unfolding is_valid_status_transition
is_valid_status_transition-Step t a b =
    (All-includes (Step t a) (base_transitions t a) b (table_steps t a), in_table t a b)

-- Every step goes up.
pub Step-rank : {t : OrderType} {a b : OrderStatus} → Step t a b → rank a < rank b
Step-rank accept = omega arith
Step-rank reject_placed = omega arith
Step-rank prepare = omega arith
Step-rank reject_confirmed = omega arith
Step-rank ready = omega arith
Step-rank pick_up = omega arith
Step-rank plate = omega arith
Step-rank serve = omega arith
Step-rank dispatch = omega arith
Step-rank deliver = omega arith
Step-rank (call_off h) = h

pub rank-top : (s : OrderStatus) → rank s ≤ 5
rank-top payment_pending = omega arith
rank-top placed = omega arith
rank-top confirmed = omega arith
rank-top preparing = omega arith
rank-top ready_for_pickup = omega arith
rank-top ready_to_serve = omega arith
rank-top out_for_delivery = omega arith
rank-top _ = omega arith
