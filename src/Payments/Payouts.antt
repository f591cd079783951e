-- ===== src/Payments/Payouts.antt =====
-- payments.service.ts: the payout requests of a restaurant. Only a super administrator reaches the
-- review of a request, by the roles of the controller's routes.
use deliveryways.Prelude.{
  ℕ, ◌+◌, Bool, true, false, not, none, some, List, [], ◌∷◌, ◌==◌, if◌then◌else◌, is_some, any,
  Outcome, ok, err, throw_if, or_throw, ◌>>=◌, ◌>>◌,
}
use deliveryways.Prelude.Int.{pos, sub_ℕ, ◌-ℤ◌, ltb_ℤ}
use deliveryways.Auth.{AuthUserContext, is_id}
use deliveryways.Payments.Handlers.{balance_of, put_balance}
use deliveryways.Payments.Access.{assert_admin_payment_access}
use deliveryways.Payments.Store.{
  payout_debit, RestaurantWalletTransaction, RestaurantPayoutRequestStatus, requested, approved,
  rejected, paid_out, RestaurantPayoutRequest, persist_special_payout_invoice, Db, PaymentError,
  restaurant_not_found, provider_configured, exceeds_balance, request_not_found, not_requested,
  not_approved, Result, checked, emit,
}

abbrev restaurant_exists : ℕ → Db → Bool
restaurant_exists r db = is_some (db.orders.restaurant_tenant r)

abbrev pub checked_request : AuthUserContext → ℕ → Db → Outcome PaymentError (Unit {0})
checked_request user r db =
    assert_admin_payment_access user r false db
    >> throw_if (not (restaurant_exists r db)) restaurant_not_found
    >> throw_if (db.has_payout_provider r) provider_configured

abbrev pub put_request : ℕ → RestaurantPayoutRequest → Db → Db
put_request q row db = record db {
  payout_request = λ q'. if q' == q then some row else db.payout_request q';
}

abbrev pub new_request : AuthUserContext → ℕ → ℕ → RestaurantPayoutRequest
new_request user r amount = record {
  restaurant_id = r;
  requested_by = user.uid;
  reviewed_by = none;
  paid_by = none;
  status = requested;
  amount = amount;
}

-- The wallet account is opened before the amount is compared with its balance, and stays.
unfoldable pub create_restaurant_payout_request : AuthUserContext → ℕ → ℕ → Db → Result (Unit {0})
create_restaurant_payout_request user r amount db = checked db (checked_request user r db) λ u.
    let opened = put_balance r (balance_of r db) db in
    if ltb_ℤ (balance_of r db) (pos amount) then (err exceeds_balance, opened) else (
      ok tt,
      put_request db.next_id (new_request user r amount)
          (record opened { next_id = db.next_id + 1 }),
    )

abbrev pub is_requested : RestaurantPayoutRequestStatus → Bool
is_requested requested = true
is_requested _ = false

abbrev pub is_approved : RestaurantPayoutRequestStatus → Bool
is_approved approved = true
is_approved _ = false

abbrev pub is_paid_out : RestaurantPayoutRequestStatus → Bool
is_paid_out paid_out = true
is_paid_out _ = false

-- `update({ where: { id, status: REQUESTED } })`, which throws where no row is of that status.
abbrev pub reviewable : ℕ → Db → Outcome PaymentError RestaurantPayoutRequest
reviewable q db = or_throw (db.payout_request q) request_not_found >>= λ row.
    throw_if (not (is_requested row.status)) not_requested >> ok row

abbrev pub reviewed :
    ℕ → RestaurantPayoutRequestStatus → RestaurantPayoutRequest → RestaurantPayoutRequest
reviewed who status row = record row { status = status; reviewed_by = some who }

unfoldable pub approve_restaurant_payout_request : AuthUserContext → ℕ → Db → Result (Unit {0})
approve_restaurant_payout_request user q db =
    checked db (reviewable q db) λ row. (ok tt, put_request q (reviewed user.uid approved row) db)

unfoldable pub reject_restaurant_payout_request : AuthUserContext → ℕ → Db → Result (Unit {0})
reject_restaurant_payout_request user q db =
    checked db (reviewable q db) λ row. (ok tt, put_request q (reviewed user.uid rejected row) db)

abbrev pub has_debit : ℕ → List RestaurantWalletTransaction → Bool
has_debit q = any (λ t. is_id q t.payout_request_id)

abbrev pub settled : ℕ → RestaurantPayoutRequest → RestaurantPayoutRequest
settled who row = record row { status = paid_out; paid_by = some who }

-- The account, the row of the debit and the request.
abbrev pub post_debit : ℕ → ℕ → RestaurantPayoutRequest → Db → Db
post_debit who q row db =
    let next = balance_of row.restaurant_id db -ℤ pos row.amount in
    let debited = put_balance row.restaurant_id next db in
    put_request q (settled who row) (record debited {
      wallet_transactions =
          record {
            restaurant_id = row.restaurant_id;
            payment_transaction_id = none;
            payout_request_id = some q;
            kind = payout_debit;
            amount = sub_ℕ 0 row.amount;
            balance_after = next;
          }
          ∷ db.wallet_transactions;
    })

-- Whether this call completes the request, or finds that it must throw or that another one did.
unfoldable pub checked_completion : ℕ → Db → Outcome PaymentError (RestaurantPayoutRequest × Bool)
checked_completion q db = or_throw (db.payout_request q) request_not_found >>= λ row.
    if is_paid_out row.status
    then ok (row, false)
    else (throw_if (not (is_approved row.status)) not_approved
        >> throw_if (ltb_ℤ (balance_of row.restaurant_id db) (pos row.amount)) exceeds_balance
        >> ok (row, true))

-- The tables after `completeRestaurantPayoutRequest`, and whether this call completed the request.
unfoldable pub complete_restaurant_payout_request :
    ℕ → ℕ → RestaurantPayoutRequest → Bool → Db → Bool × Db
complete_restaurant_payout_request who q row false db = (false, db)
complete_restaurant_payout_request who q row true db =
    if has_debit q db.wallet_transactions
    then (false, put_request q (settled who row) db)
    else (true, post_debit who q row db)

abbrev pub invoiced : ℕ → ℕ → Bool × Db → Db
invoiced q amount (true, db) = emit (persist_special_payout_invoice q amount ∷ []) db
invoiced q amount (false, db) = db

unfoldable pub mark_restaurant_payout_paid : AuthUserContext → ℕ → Db → Result (Unit {0})
mark_restaurant_payout_paid user q db =
    checked db (checked_completion q db)
      λ x. (ok tt, invoiced q x.0.amount (complete_restaurant_payout_request user.uid q x.0 x.1 db))
