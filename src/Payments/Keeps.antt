-- ===== src/Payments/Keeps.antt =====
-- Which steps of payments.service.ts keep the ledgers.
use deliveryways.Wallet.Store as Benefits
use deliveryways.Orders.Store as OrderRows
use deliveryways.Prelude.{
  ℕ, ◌≡◌, refl, Bool, true, false, Option, none, some, List, ◌∷◌, arith, if◌then◌else◌, Outcome, ok,
  err, [], inl, inr, Bool-cases,
}
use deliveryways.Prelude.Int.{ℤ, pos, ◌+ℤ◌, ◌≤ℤ◌, int_laws}
use deliveryways.Payments.Handlers.{
  is_refunded, balance_of, put_balance, set_status, notify, stripe_call, call_stripe, is_stripe,
}
use deliveryways.Payments.Books.{Ledgers, refunds_of_update, charges_of_update, Ledgers-same}
use deliveryways.Payments.Store.{
  PaymentTransaction, RestaurantWalletTransaction, Event, UpdatePaymentStatusDto, Db, PaymentError,
  Result, checked, carried, call_benefits, emit, after, update_payment, update_order_payment_status,
  update_order_state,
}
use deliveryways.Wallet.Keeps.{Keeps}
use deliveryways.Wallet.Reconciled.{Books}
use deliveryways.Wallet.Store.{PaymentStatus, Error, Action}

-- Whatever a call returns or throws, it leaves ledgers that agree.
pub record Leaves (x : Result (Unit {0})) : Type 0 where
  pub ledgers : Ledgers x.1

pub Leaves-checked {ℓ} :
    {A : Type ℓ} {db : Db} (o : Outcome PaymentError A) {f : A → Result (Unit {0})}
    → Ledgers db
    → ((a : A) → o ≡ ok a → Leaves (f a))
    → Leaves (checked db o f)
Leaves-checked (ok a) h k = k a refl
Leaves-checked (err e) h k = record { ledgers = h }

pub Leaves-after :
    {x : Result (Unit {0})} {f : Db → Result (Unit {0})}
    → Leaves x
    → ((db : Db) → Ledgers db → Leaves (f db))
    → Leaves (after x f)
Leaves-after {x = (ok u, db)} h k = k db h.ledgers
Leaves-after {x = (err e, db)} h k = record { ledgers = h.ledgers }

pub Leaves-if :
    (b : Bool) {x y : Result (Unit {0})} → Leaves x → Leaves y → Leaves (if b then x else y)
Leaves-if true h k = h
Leaves-if false h k = k

pub Leaves-call_benefits {ℓ} :
    {A : Type ℓ} {m : Action A} {db : Db} → Keeps m → Ledgers db → Leaves (call_benefits m db)
Leaves-call_benefits {A} {m} {db} k h = carry (m db.benefits) (k.apply db.benefits h.customers)
  where
    carry : (x : Outcome Error A × Benefits.Db) → Books x.1 → Leaves (carried db x)
    carry (ok a, w) b = record { ledgers = Ledgers-same h b refl refl refl }
    carry (err e, w) b = record { ledgers = Ledgers-same h b refl refl refl }

pub Ledgers-emit : (es : List Event) {db : Db} → Ledgers db → Ledgers (emit es db)
Ledgers-emit es h = Ledgers-same h h.customers refl refl refl

pub Leaves-notify : (id : ℕ) (db : Db) → Ledgers db → Leaves (notify id db)
Leaves-notify id db h = record { ledgers = Ledgers-emit _ h }

pub Ledgers-update_payment :
    (id : ℕ) (status : PaymentStatus) (dto : UpdatePaymentStatusDto) {db : Db}
    → is_refunded status ≡ false
    → Ledgers db
    → Ledgers (update_payment id status dto db)
unfolding update_payment
Ledgers-update_payment id status dto {db} e h = record {
  customers = h.customers;
  restaurants =
      λ r. record { agrees = (h.restaurants r).agrees; nonneg = (h.restaurants r).nonneg };
  refunds = λ o.
      let was = h.refunds o in
      let now = refunds_of_update o id status dto db.payments e in
      let same_charges = charges_of_update o id status dto db.payments in omega arith;
}

-- The payment status of an order is not in the books.
order-Books :
    (orders : ℕ → Option Benefits.Order) (w : Benefits.Db)
    → Books w
    → Books (record w { order = orders })
order-Books orders w h r c = record {
  wallet = (h r c).wallet;
  points = (h r c).points;
  wallet_nonneg = (h r c).wallet_nonneg;
  points_nonneg = (h r c).points_nonneg;
}

pub Ledgers-update_order_payment_status :
    (o : ℕ) (status : PaymentStatus) {db : Db}
    → Ledgers db
    → Ledgers (update_order_payment_status o status db)
unfolding update_order_payment_status
Ledgers-update_order_payment_status o status {db} h =
    Ledgers-same h (order-Books _ db.benefits h.customers) refl refl refl

pub Ledgers-update_order_state :
    (o : ℕ) (f : OrderRows.Order → OrderRows.Order) {db : Db}
    → Ledgers db
    → Ledgers (update_order_state o f db)
unfolding update_order_state
Ledgers-update_order_state o f h = Ledgers-same h h.customers refl refl refl

pub Ledgers-set_status :
    (id o : ℕ) (status : PaymentStatus) (dto : UpdatePaymentStatusDto) {db : Db}
    → is_refunded status ≡ false
    → Ledgers db
    → Ledgers (set_status id o status dto db)
Ledgers-set_status id o status dto e h =
    Ledgers-update_order_payment_status o status (Ledgers-update_payment id status dto e h)

-- What follows a call of Stripe, which changes no payment.
pub Leaves-stripe :
    (p : PaymentTransaction) (succeeds : List ℕ → Bool) (event : List ℕ → Event) {db : Db}
    {f : Db → Result (Unit {0})}
    → Ledgers db
    → ((db₁ : Db) → db₁.payments ≡ db.payments → Ledgers db₁ → Leaves (f db₁))
    → Leaves (after (call_stripe p succeeds event db) f)
Leaves-stripe p succeeds event {db} {f} h k = elim (Bool-cases (is_stripe p.payment_method)) [
  | inl t ↦ rw t (called p.provider_ref)
  | inr n ↦ rw n (k db refl h)
]
  where
    called : (ref : Option (List ℕ)) → Leaves (after (stripe_call ref succeeds event db) f)
    called none = k db refl h
    called (some ref) = elim (Bool-cases (succeeds ref)) [
      | inl t ↦ rw t (k (emit (event ref ∷ []) db) refl (Ledgers-emit (event ref ∷ []) h))
      | inr n ↦ rw n (record { ledgers = h })
    ]

-- A row and the account that carries its amount.
pub Ledgers-posted :
    (t : RestaurantWalletTransaction) (next : ℤ) (db : Db)
    → next ≡ balance_of t.restaurant_id db +ℤ t.amount
    → pos 0 ≤ℤ next
    → Ledgers db
    → Ledgers (record db {
      balance = (put_balance t.restaurant_id next db).balance;
      wallet_transactions = t ∷ db.wallet_transactions;
    })
Ledgers-posted t next db e p h = record {
  customers = h.customers;
  restaurants = λ r. let own = h.restaurants r in grind int_laws;
  refunds = h.refunds;
}

pub Ledgers-opened : (r : ℕ) (db : Db) → Ledgers db → Ledgers (put_balance r (balance_of r db) db)
Ledgers-opened r db h = record {
  customers = h.customers;
  restaurants = λ r'. let own = h.restaurants r' in ground arith;
  refunds = h.refunds;
}
