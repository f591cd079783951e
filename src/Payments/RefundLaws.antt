-- ===== src/Payments/RefundLaws.antt =====
-- payments.service.ts: what a refund does to the ledgers, and to the payment and its order.
use deliveryways.Wallet.Store as Benefits
use deliveryways.Prelude.{
  ℕ, ◌+◌, ◌≤◌, ◌≡◌, inl, inr, Bool, true, false, some, List, [], ◌∷◌, ◌++◌, arith, ◌==◌, Bool-cases,
  find, sum_by,
}
use deliveryways.Auth.{is_id}
use deliveryways.Payments.Handlers.{is_charge, no_details, refund_row, refund_status, post_refund}
use deliveryways.Payments.Books.{
  largest_charge, Ledgers, charges_of_update, refunds_of_charge_update, charge-largest_charge,
  refunds_of_new, charges_of_new,
}
use deliveryways.Payments.Keeps.{Ledgers-update_order_payment_status, Ledgers-update_order_state}
use deliveryways.Payments.Store.{
  PaymentTransaction, UpdatePaymentStatusDto, Db, find_payment, update_payment, create_payment,
  update_order_payment_status, refunded_part, sum_successful_refunds,
}
use deliveryways.Orders.Deals.{sum}
use deliveryways.Wallet.Store.{paid}

Ledgers-create :
    (row : PaymentTransaction) (db : Db)
    → Ledgers db
    → ((o : ℕ)
        → sum_by (refunded_part o) db.payments + refunded_part o row ≤ largest_charge o db.payments)
    → Ledgers (create_payment row db)
unfolding create_payment
Ledgers-create row db h k = record {
  customers = h.customers;
  restaurants =
      λ r. record { agrees = (h.restaurants r).agrees; nonneg = (h.restaurants r).nonneg };
  refunds = λ o.
      let fits = k o in
      let sum = refunds_of_new o db.payments row in
      let charges = charges_of_new o db.payments row in omega arith;
}

-- To close a charge leaves the refunds as they are.
Ledgers-close :
    (id o who now : ℕ) (db : Db) {p : PaymentTransaction}
    → Ledgers db
    → find_payment id db ≡ some p
    → is_charge p.kind ≡ true
    → Ledgers (refund_status true id o who now db)
unfolding update_payment update_order_payment_status
Ledgers-close id o who now db h e k = Ledgers-update_order_state o _ (
    let paid_db = update_order_payment_status o Benefits.refunded db in
    let before = Ledgers-update_order_payment_status o Benefits.refunded h in
    record {
      customers = before.customers;
      restaurants = λ r. record {
        agrees = (before.restaurants r).agrees;
        nonneg = (before.restaurants r).nonneg;
      };
      refunds = λ o'.
          let was = before.refunds o' in
          let same_sum =
            refunds_of_charge_update o' id Benefits.refunded no_details paid_db.payments e k in
          let same_charges =
            charges_of_update o' id Benefits.refunded no_details paid_db.payments in
          omega arith;
    })

-- A row that is added is found after those that were there.
pub find-appended :
    (id : ℕ) (ps : List PaymentTransaction) (row : PaymentTransaction) {p : PaymentTransaction}
    → find (λ q. q.id == id) ps ≡ some p
    → find (λ q. q.id == id) (ps ++ (row ∷ [])) ≡ some p
find-appended id [] row h = absurd (cc h)
find-appended id (q ∷ ps) row {p} h = elim (Bool-cases (q.id == id)) [
  | inl t ↦ ground arith
  | inr f ↦
      let later : find (λ q. q.id == id) ps ≡ some p = ground arith in
      let rest = find-appended id ps row later in ground arith
]

Ledgers-refund_status :
    (b : Bool) (id o who now : ℕ) (db : Db) {p : PaymentTransaction}
    → Ledgers db
    → find_payment id db ≡ some p
    → is_charge p.kind ≡ true
    → Ledgers (refund_status b id o who now db)
Ledgers-refund_status true id o who now db h e k = Ledgers-close id o who now db h e k
Ledgers-refund_status false id o who now db h e k = Ledgers-update_order_payment_status o paid h

refund_row_fits :
    (o o' n amount : ℕ) (p : PaymentTransaction) (dto : UpdatePaymentStatusDto) (sum : ℕ)
    → p.order_id ≡ some o
    → is_id o' p.order_id ≡ false
    → sum + refunded_part o' (refund_row n p amount dto) ≡ sum
refund_row_fits o o' n amount p dto sum i f = ground arith

pub Ledgers-post_refund :
    (p : PaymentTransaction) (o amount : ℕ) (dto : UpdatePaymentStatusDto) (who now : ℕ) (db : Db)
    → Ledgers db
    → find_payment p.id db ≡ some p
    → is_charge p.kind ≡ true
    → p.order_id ≡ some o
    → sum_successful_refunds o db + amount ≤ p.amount
    → Ledgers (post_refund p o amount dto who now db)
unfolding sum_successful_refunds create_payment
Ledgers-post_refund p o amount dto who now db h e k i within =
    Ledgers-refund_status _ p.id o who now _
      (Ledgers-create (refund_row db.next_id p amount dto) db h λ o'.
        elim (Bool-cases (is_id o' p.order_id)) [
          | inl t ↦
              let same_order : o' ≡ o = ground arith in
              let most = charge-largest_charge o p.id db.payments e k i in
              rw same_order (ground arith)
          | inr f ↦ let was = h.refunds o' in ground arith
        ])
      (find-appended p.id db.payments _ e) k
