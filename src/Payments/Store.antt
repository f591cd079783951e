-- ===== src/Payments/Store.antt =====
-- The tables of payments.service.ts and payments.repository.ts. Money is in cents. The columns of
-- an order's row stand in two tables: those that the benefits read and the payment status in the
-- table of the wallet, the status and the cancellation in the table of the orders.
use deliveryways.Orders.Store as OrderRows
use deliveryways.Wallet.Store as Benefits
use deliveryways.Prelude.{
  ℕ, ◌+◌, Bool, true, false, ◌&&◌, Option, none, some, List, [], ◌∷◌, ◌++◌, find, sum_by, ◌==◌,
  if◌then◌else◌, text_eq, Outcome, ok, err, is_some, or_default,
}
use deliveryways.Prelude.Int.{ℤ}
use deliveryways.Auth.{is_id}
use deliveryways.Orders.Store.{Order, put_order}
use deliveryways.Wallet.Store.{PaymentStatus, Error, Action, Context}

pub data PaymentMethod : Type 0 where
  cod card_on_delivery stripe paypal easypaisa jazzcash bank_transfer wallet : PaymentMethod

pub data PaymentTransactionType : Type 0 where
  charge refund : PaymentTransactionType

-- `readPaymentTarget`
pub data PaymentTarget : Type 0 where
  tenant_subscription guest_gift_card_purchase other_target : PaymentTarget

-- What the service reads of `providerData`. An expiry that is given is what `new Date` makes of it:
-- nothing where that is no date.
pub record ProviderData : Type 0 where
  pub target : PaymentTarget
  pub customer_id : Option ℕ
  pub subscription_id : Option ℕ
  pub expires_at : Option (Option ℕ)

pub record PaymentTransaction : Type 0 where
  pub id : ℕ
  pub order_id : Option ℕ
  pub restaurant_id : ℕ
  pub branch_id : ℕ
  pub payment_method : PaymentMethod
  pub kind : PaymentTransactionType
  pub status : PaymentStatus
  pub amount : ℕ
  pub provider_ref : Option (List ℕ)
  pub provider_data : ProviderData

pub data RestaurantWalletTransactionType : Type 0 where
  order_credit payout_debit adjustment : RestaurantWalletTransactionType

pub record RestaurantWalletTransaction : Type 0 where
  pub restaurant_id : ℕ
  pub payment_transaction_id : Option ℕ
  pub payout_request_id : Option ℕ
  pub kind : RestaurantWalletTransactionType
  pub amount : ℤ
  pub balance_after : ℤ

pub data RestaurantPayoutRequestStatus : Type 0 where
  requested approved rejected paid_out withdrawn : RestaurantPayoutRequestStatus

pub record RestaurantPayoutRequest : Type 0 where
  pub restaurant_id : ℕ
  pub requested_by : ℕ
  pub reviewed_by : Option ℕ
  pub paid_by : Option ℕ
  pub status : RestaurantPayoutRequestStatus
  pub amount : ℕ

pub data Event : Type 0 where
  notify_payment_status_changed : ℕ → Event
  notify_order_placed : ℕ → Event
  cancel_payment_intent : List ℕ → Event
  refund_payment_intent : List ℕ → ℕ → Event
  persist_special_payout_invoice : ℕ → ℕ → Event

-- A payment's subscription: whether it is paid, and whether it is active.
pub record TenantSubscription : Type 0 where
  pub payment_status : PaymentStatus
  pub is_active : Bool

pub record UpdatePaymentStatusDto : Type 0 where
  pub provider_ref : Option (List ℕ)
  pub provider_data : Option ProviderData

pub record Db : Type 0 where
  pub payments : List PaymentTransaction  -- in the order of their creation
  pub balance : ℕ → Option ℤ  -- of `restaurantWalletAccount`, by restaurant
  pub wallet_transactions : List RestaurantWalletTransaction
  pub payout_request : ℕ → Option RestaurantPayoutRequest
  pub subscription : ℕ → Option TenantSubscription
  -- Whether a restaurant has an automated payout provider enabled.
  pub has_payout_provider : ℕ → Bool
  pub orders : OrderRows.Db
  pub benefits : Benefits.Db
  pub events : List Event
  pub next_id : ℕ

pub data PaymentError : Type 0 where
  use_refund_endpoint unsupported_status payment_not_found order_required : PaymentError
  only_charges already_refunded already_paid not_paid : PaymentError
  exceeds_charge exceeds_remaining no_downgrade : PaymentError
  no_tenant outside_tenant not_permitted no_restaurant outside_restaurant : PaymentError
  cross_customer stripe_failed missing_context subscription_not_found bad_expiry : PaymentError
  restaurant_not_found provider_configured exceeds_balance : PaymentError
  request_not_found not_requested not_approved : PaymentError
  benefits_error : Error → PaymentError

-- What a call returns or throws, and the tables that it leaves.
abbrev pub Result {ℓ} : Type ℓ → Type ℓ
Result A = Outcome PaymentError A × Db

-- What follows the checks, which read only.
abbrev pub checked {ℓ} :
    {A : Type ℓ} → Db → Outcome PaymentError A → (A → Result (Unit {0})) → Result (Unit {0})
checked db (ok a) f = f a
checked db (err e) f = (err e, db)

-- A call of the benefits' service, which commits its own tables.
abbrev pub carried {ℓ} : {A : Type ℓ} → Db → Outcome Error A × Benefits.Db → Result (Unit {0})
carried db (ok a, w) = (ok tt, record db { benefits = w })
carried db (err e, w) = (err (benefits_error e), record db { benefits = w })

abbrev pub call_benefits {ℓ} : {A : Type ℓ} → Action A → Db → Result (Unit {0})
call_benefits m db = carried db (m db.benefits)

abbrev pub emit : List Event → Db → Db
emit events db = record db { events = db.events ++ events }

-- What follows a call that has returned.
abbrev pub after : Result (Unit {0}) → (Db → Result (Unit {0})) → Result (Unit {0})
after (ok u, db) f = f db
after (err e, db) f = (err e, db)

abbrev pub find_payment : ℕ → Db → Option PaymentTransaction
find_payment id db = find (λ p. p.id == id) db.payments

-- `findByProviderRef`: the first row with that reference.
abbrev has_ref : List ℕ → Option (List ℕ) → Bool
has_ref ref none = false
has_ref ref (some r) = text_eq r ref

abbrev pub find_by_provider_ref : List ℕ → Db → Option PaymentTransaction
find_by_provider_ref ref db = find (λ p. has_ref ref p.provider_ref) db.payments

-- An undefined value leaves the column as it is.
abbrev pub with_status :
    PaymentStatus → UpdatePaymentStatusDto → PaymentTransaction → PaymentTransaction
with_status status dto p = record p {
  status = status;
  provider_ref = if is_some dto.provider_ref then dto.provider_ref else p.provider_ref;
  provider_data = or_default dto.provider_data p.provider_data;
}

-- The row with the id.
abbrev pub update_row :
    ℕ
    → (PaymentTransaction → PaymentTransaction)
    → List PaymentTransaction
    → List PaymentTransaction
update_row id f [] = []
update_row id f (p ∷ ps) = if p.id == id then f p ∷ ps else p ∷ update_row id f ps

-- `paymentsRepository.updateStatus`
unfoldable pub update_payment : ℕ → PaymentStatus → UpdatePaymentStatusDto → Db → Db
update_payment id status dto db = record db {
  payments = update_row id (with_status status dto) db.payments;
}

-- `paymentsRepository.create`
unfoldable pub create_payment : PaymentTransaction → Db → Db
create_payment p db = record db { payments = db.payments ++ (p ∷ []); next_id = db.next_id + 1 }

-- `paymentsRepository.updateOrderPaymentStatus`
abbrev pub with_payment_status : PaymentStatus → Option Benefits.Order → Option Benefits.Order
with_payment_status status none = none
with_payment_status status (some row) = some (record row { payment_status = status })

unfoldable pub update_order_payment_status : ℕ → PaymentStatus → Db → Db
update_order_payment_status o status db = record db {
  benefits = record db.benefits {
    order = λ o'.
        if o' == o then with_payment_status status (db.benefits.order o) else db.benefits.order o';
  };
}

abbrev pub updated_order : (Order → Order) → Option Order → Option Order
updated_order f none = none
updated_order f (some row) = some (f row)

-- `paymentsRepository.updateOrderState`
unfoldable pub update_order_state : ℕ → (Order → Order) → Db → Db
update_order_state o f db = record db {
  orders = record db.orders {
    order = λ o'. if o' == o then updated_order f (db.orders.order o) else db.orders.order o';
  };
}

abbrev is_refunded_refund : PaymentTransactionType → PaymentStatus → Bool
is_refunded_refund refund Benefits.refunded = true
is_refunded_refund _ _ = false

-- The part that a payment has in the refunds of an order.
abbrev pub refunded_part : ℕ → PaymentTransaction → ℕ
refunded_part o p = if is_id o p.order_id && is_refunded_refund p.kind p.status then p.amount else 0

unfoldable pub sum_successful_refunds : ℕ → Db → ℕ
sum_successful_refunds o db = sum_by (refunded_part o) db.payments
