-- ===== src/Orders/Status.antt =====
-- The order statuses and the moves between them (orders.service.ts, prisma/schema.prisma).
use deliveryways.Prelude.{ℕ, Bool, true, false, ◌&&◌, List, [], ◌∷◌, ◌==◌, any}

pub data OrderType : Type 0 where
  delivery takeaway dine_in : OrderType

pub data OrderStatus : Type 0 where
  payment_pending placed confirmed preparing ready_for_pickup picked_up : OrderStatus
  ready_to_serve served out_for_delivery delivered cancelled rejected : OrderStatus

-- A number for each status, to compare two of them.
abbrev pub status_code : OrderStatus → ℕ
status_code payment_pending = 0
status_code placed = 1
status_code confirmed = 2
status_code preparing = 3
status_code ready_for_pickup = 4
status_code picked_up = 5
status_code ready_to_serve = 6
status_code served = 7
status_code out_for_delivery = 8
status_code delivered = 9
status_code cancelled = 10
status_code rejected = 11

-- `a === b` on statuses
abbrev pub is_status : OrderStatus → OrderStatus → Bool
is_status a b = status_code a == status_code b

abbrev pub is_delivery : OrderType → Bool
is_delivery delivery = true
is_delivery _ = false

abbrev pub includes_status : List OrderStatus → OrderStatus → Bool
includes_status statuses next = any (is_status next) statuses

unfoldable pub get_preparing_transitions : OrderType → List OrderStatus
get_preparing_transitions takeaway = ready_for_pickup ∷ cancelled ∷ []
get_preparing_transitions dine_in = ready_to_serve ∷ cancelled ∷ []
get_preparing_transitions delivery = out_for_delivery ∷ cancelled ∷ []

unfoldable pub base_transitions : OrderType → OrderStatus → List OrderStatus
base_transitions t payment_pending = cancelled ∷ []
base_transitions t placed = confirmed ∷ cancelled ∷ rejected ∷ []
base_transitions t confirmed = preparing ∷ cancelled ∷ rejected ∷ []
base_transitions t preparing = get_preparing_transitions t
base_transitions t ready_for_pickup = picked_up ∷ cancelled ∷ []
base_transitions t picked_up = []
base_transitions t ready_to_serve = served ∷ cancelled ∷ []
base_transitions t served = []
base_transitions t out_for_delivery = delivered ∷ cancelled ∷ []
base_transitions t delivered = []
base_transitions t cancelled = []
base_transitions t rejected = []

unfoldable pub is_valid_status_transition : OrderType → OrderStatus → OrderStatus → Bool
is_valid_status_transition t current next = includes_status (base_transitions t current) next

unfoldable pub is_valid_deliveryman_status_transition : OrderType → OrderStatus → OrderStatus → Bool
is_valid_deliveryman_status_transition t current next =
    is_delivery t && is_status current out_for_delivery && is_status next delivered

-- `terminalStatuses` of `cancel`, and `blockedStatuses` of `assignDeliverymanToOrder`.
abbrev pub terminal_statuses : List OrderStatus
terminal_statuses = delivered ∷ picked_up ∷ served ∷ cancelled ∷ rejected ∷ []

unfoldable pub is_completed_order : OrderType → OrderStatus → Bool
is_completed_order delivery status = is_status status delivered
is_completed_order takeaway status = is_status status picked_up
is_completed_order dine_in status = is_status status served

unfoldable pub get_tracking_stages : OrderType → List OrderStatus
get_tracking_stages takeaway = placed ∷ confirmed ∷ preparing ∷ ready_for_pickup ∷ picked_up ∷ []
get_tracking_stages dine_in = placed ∷ confirmed ∷ preparing ∷ ready_to_serve ∷ served ∷ []
get_tracking_stages delivery = placed ∷ confirmed ∷ preparing ∷ out_for_delivery ∷ delivered ∷ []
