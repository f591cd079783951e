-- ===== src/Payments/Books.antt =====
-- What ties the tables of payments.service.ts together: the account of a restaurant to its rows, the
-- refunds of an order to its charges, and the customers' books to their own rows.
use deliveryways.Prelude.{
  ℕ, ◌+◌, ◌≤◌, ◌≡◌, refl, true, false, ◌&&◌, some, List, [], ◌∷◌, ◌++◌, arith, ltb, ◌==◌,
  if◌then◌else◌, find, sum_by, inl, inr, Bool-cases,
}
use deliveryways.Prelude.Int.{ℤ, pos, ◌+ℤ◌, ◌≤ℤ◌}
use deliveryways.Auth.{is_id}
use deliveryways.Payments.Handlers.{is_charge, is_refunded, balance_of}
use deliveryways.Payments.Store.{
  PaymentTransaction, RestaurantWalletTransaction, UpdatePaymentStatusDto, Db, with_status,
  update_row, refunded_part,
}
use deliveryways.Wallet.Reconciled.{Books}
use deliveryways.Wallet.Store.{PaymentStatus}
use deliveryways.Wallet.Once.{is_id_self}

abbrev pub row_sum : ℕ → List RestaurantWalletTransaction → ℤ
row_sum r [] = pos 0
row_sum r (t ∷ ts) = if r == t.restaurant_id then row_sum r ts +ℤ t.amount else row_sum r ts

-- The largest charge of an order.
abbrev pub charged_part : ℕ → PaymentTransaction → ℕ
charged_part o p = if is_id o p.order_id && is_charge p.kind then p.amount else 0

abbrev pub largest_charge : ℕ → List PaymentTransaction → ℕ
largest_charge o [] = 0
largest_charge o (p ∷ ps) =
    let rest = largest_charge o ps in if ltb rest (charged_part o p) then charged_part o p else rest

pub record IsSettled (r : ℕ) (db : Db) : Type 0 where
  pub agrees : balance_of r db ≡ row_sum r db.wallet_transactions
  pub nonneg : pos 0 ≤ℤ balance_of r db

pub record Ledgers (db : Db) : Type 0 where
  pub customers : Books db.benefits
  pub restaurants : (r : ℕ) → IsSettled r db
  pub refunds : (o : ℕ) → sum_by (refunded_part o) db.payments ≤ largest_charge o db.payments

-- A status other than refunded never adds to the refunds.
pub refunds_of_update :
    (o id : ℕ) (status : PaymentStatus) (dto : UpdatePaymentStatusDto)
    (ps : List PaymentTransaction)
    → is_refunded status ≡ false
    → sum_by (refunded_part o) (update_row id (with_status status dto) ps)
      ≤ sum_by (refunded_part o) ps
refunds_of_update o id status dto [] e = omega arith
refunds_of_update o id status dto (p ∷ ps) e =
    let rest = refunds_of_update o id status dto ps e in ground arith

pub charges_of_update :
    (o id : ℕ) (status : PaymentStatus) (dto : UpdatePaymentStatusDto)
    (ps : List PaymentTransaction)
    → largest_charge o (update_row id (with_status status dto) ps) ≡ largest_charge o ps
charges_of_update o id status dto [] = refl
charges_of_update o id status dto (p ∷ ps) =
    let rest = charges_of_update o id status dto ps in ground arith

-- To update a charge leaves the refunds as they are.
pub refunds_of_charge_update :
    (o id : ℕ) (status : PaymentStatus) (dto : UpdatePaymentStatusDto)
    (ps : List PaymentTransaction) {p : PaymentTransaction}
    → find (λ q. q.id == id) ps ≡ some p
    → is_charge p.kind ≡ true
    → sum_by (refunded_part o) (update_row id (with_status status dto) ps)
      ≡ sum_by (refunded_part o) ps
refunds_of_charge_update o id status dto [] e k = absurd (cc e)
refunds_of_charge_update o id status dto (q ∷ ps) {p} e k = elim (Bool-cases (q.id == id)) [
  | inl t ↦ let same_row : q ≡ p = ground arith in ground arith
  | inr f ↦
      let later : find (λ q. q.id == id) ps ≡ some p = ground arith in
      let rest = refunds_of_charge_update o id status dto ps {p = p} later k in ground arith
]

pub charge-largest_charge :
    (o id : ℕ) (ps : List PaymentTransaction) {p : PaymentTransaction}
    → find (λ q. q.id == id) ps ≡ some p
    → is_charge p.kind ≡ true
    → p.order_id ≡ some o
    → p.amount ≤ largest_charge o ps
charge-largest_charge o id [] e k i = absurd (cc e)
charge-largest_charge o id (q ∷ ps) {p} e k i = elim (Bool-cases (q.id == id)) [
  | inl t ↦ let same_row : q ≡ p = ground arith in ground (arith, is_id_self o)
  | inr f ↦
      let later : find (λ q. q.id == id) ps ≡ some p = ground arith in
      let rest : p.amount ≤ largest_charge o ps = charge-largest_charge o id ps later k i in
      ground arith
]

pub refunds_of_new :
    (o : ℕ) (ps : List PaymentTransaction) (p : PaymentTransaction)
    → sum_by (refunded_part o) (ps ++ (p ∷ [])) ≡ sum_by (refunded_part o) ps + refunded_part o p
refunds_of_new o [] p = omega arith
refunds_of_new o (q ∷ ps) p = let rest = refunds_of_new o ps p in omega arith

pub charges_of_new :
    (o : ℕ) (ps : List PaymentTransaction) (p : PaymentTransaction)
    → largest_charge o ps ≤ largest_charge o (ps ++ (p ∷ []))
charges_of_new o [] p = omega arith
charges_of_new o (q ∷ ps) p = let rest = charges_of_new o ps p in ground arith

-- The tables once the customers' books, the accounts and rows, or the payments have changed.
module _ {db db' : Db} (h : Ledgers db) where
  -- A change of what the ledgers do not speak of.
  pub Ledgers-same :
      Books db'.benefits
      → db'.balance ≡ db.balance
      → db'.wallet_transactions ≡ db.wallet_transactions
      → db'.payments ≡ db.payments
      → Ledgers db'
  Ledgers-same customers b t p = record {
    customers = customers;
    restaurants = λ r. record {
      agrees = rw b (rw t (h.restaurants r).agrees);
      nonneg = rw b (h.restaurants r).nonneg;
    };
    refunds = λ o. rw p (h.refunds o);
  }
