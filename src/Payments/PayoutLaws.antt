-- ===== src/Payments/PayoutLaws.antt =====
-- payments.service.ts: the payout requests keep the ledgers, and are paid once.
use deliveryways.Prelude.{
  ℕ, ◌≡◌, refl, inl, inr, Bool, true, false, none, some, arith, Bool-cases, ok,
}
use deliveryways.Prelude.Int.{pos, sub_ℕ, ◌-ℤ◌, ◌≤ℤ◌, ltb_ℤ, int_laws}
use deliveryways.Auth.{AuthUserContext}
use deliveryways.Payments.Handlers.{balance_of}
use deliveryways.Payments.Books.{Ledgers, Ledgers-same}
use deliveryways.Payments.Keeps.{
  Leaves, Leaves-checked, Leaves-if, Ledgers-emit, Ledgers-posted, Ledgers-opened,
}
use deliveryways.Payments.Payouts.{
  checked_request, create_restaurant_payout_request, is_approved, reviewable,
  approve_restaurant_payout_request, reject_restaurant_payout_request, has_debit, settled,
  post_debit, checked_completion, complete_restaurant_payout_request, invoiced,
  mark_restaurant_payout_paid,
}
use deliveryways.Payments.Store.{payout_debit, RestaurantPayoutRequest, Db}

pub Leaves-create_request :
    (user : AuthUserContext) (r amount : ℕ) (db : Db)
    → Ledgers db
    → Leaves (create_restaurant_payout_request user r amount db)
unfolding create_restaurant_payout_request
Leaves-create_request user r amount db h = Leaves-checked (checked_request user r db) h λ u e.
    let opened = Ledgers-opened r db h in
    Leaves-if (ltb_ℤ (balance_of r db) (pos amount)) (record { ledgers = opened })
      (record { ledgers = Ledgers-same opened h.customers refl refl refl })

pub Leaves-approve :
    (user : AuthUserContext) (q : ℕ) (db : Db)
    → Ledgers db
    → Leaves (approve_restaurant_payout_request user q db)
unfolding approve_restaurant_payout_request
Leaves-approve user q db h =
    Leaves-checked (reviewable q db) h
      λ row e. record { ledgers = Ledgers-same h h.customers refl refl refl }

pub Leaves-reject :
    (user : AuthUserContext) (q : ℕ) (db : Db)
    → Ledgers db
    → Leaves (reject_restaurant_payout_request user q db)
unfolding reject_restaurant_payout_request
Leaves-reject user q db h =
    Leaves-checked (reviewable q db) h
      λ row e. record { ledgers = Ledgers-same h h.customers refl refl refl }

-- What lets a call complete a request.
checked_completion-covered :
    (q : ℕ) (db : Db) {row : RestaurantPayoutRequest}
    → checked_completion q db ≡ ok (row, true)
    → pos row.amount ≤ℤ balance_of row.restaurant_id db
unfolding checked_completion
checked_completion-covered q db e = ground arith

Ledgers-debit :
    (who q : ℕ) (row : RestaurantPayoutRequest) (db : Db)
    → pos row.amount ≤ℤ balance_of row.restaurant_id db
    → Ledgers db
    → Ledgers (post_debit who q row db)
Ledgers-debit who q row db covered h =
    let posted =
      Ledgers-posted
        (record {
          restaurant_id = row.restaurant_id;
          payment_transaction_id = none;
          payout_request_id = some q;
          kind = payout_debit;
          amount = sub_ℕ 0 row.amount;
          balance_after = balance_of row.restaurant_id db -ℤ pos row.amount;
        })
        (balance_of row.restaurant_id db -ℤ pos row.amount) db (grind int_laws) (grind int_laws)
        h in
    Ledgers-same posted h.customers refl refl refl

Ledgers-complete :
    (who q : ℕ) (row : RestaurantPayoutRequest) (b : Bool) (db : Db)
    → checked_completion q db ≡ ok (row, b)
    → Ledgers db
    → Ledgers (complete_restaurant_payout_request who q row b db).1
unfolding complete_restaurant_payout_request
Ledgers-complete who q row false db e h = h
Ledgers-complete who q row true db e h = elim (Bool-cases (has_debit q db.wallet_transactions)) [
  | inl t ↦ rw t (Ledgers-same h h.customers refl refl refl)
  | inr f ↦ rw f (Ledgers-debit who q row db (checked_completion-covered q db e) h)
]

Ledgers-invoiced : (q n : ℕ) (x : Bool × Db) → Ledgers x.1 → Ledgers (invoiced q n x)
Ledgers-invoiced q n (true, db) h = Ledgers-emit _ h
Ledgers-invoiced q n (false, db) h = h

pub Leaves-mark_paid_out :
    (user : AuthUserContext) (q : ℕ) (db : Db)
    → Ledgers db
    → Leaves (mark_restaurant_payout_paid user q db)
unfolding mark_restaurant_payout_paid
Leaves-mark_paid_out user q db h = Leaves-checked (checked_completion q db) h λ x e. record {
  ledgers = Ledgers-invoiced q x.0.amount _ (Ledgers-complete user.uid q x.0 x.1 db e h);
}

-- An approved request that the balance covers and no debit settles is paid: the call returns, the
-- balance falls by the amount asked for, and the request is paid by the user.
pub payout_completes :
    (user : AuthUserContext) (q : ℕ) (row : RestaurantPayoutRequest) (db : Db)
    → db.payout_request q ≡ some row
    → is_approved row.status ≡ true
    → pos row.amount ≤ℤ balance_of row.restaurant_id db
    → has_debit q db.wallet_transactions ≡ false
    → let after_call = mark_restaurant_payout_paid user q db in
      (after_call.0 ≡ ok tt)
      × (balance_of row.restaurant_id after_call.1
          ≡ balance_of row.restaurant_id db -ℤ pos row.amount)
      × (after_call.1.payout_request q ≡ some (settled user.uid row))
unfolding mark_restaurant_payout_paid checked_completion complete_restaurant_payout_request
payout_completes user q row db found e covered free = ground arith

-- A payout is paid once: after a call that returns, a further one, by anybody, returns too and
-- changes no table.
pub payout_once :
    (user other : AuthUserContext) (q : ℕ) (db : Db)
    → let first = mark_restaurant_payout_paid user q db in
      first.0 ≡ ok tt → mark_restaurant_payout_paid other q first.1 ≡ (ok tt, first.1)
unfolding mark_restaurant_payout_paid checked_completion complete_restaurant_payout_request
payout_once user other q db e = ground arith
