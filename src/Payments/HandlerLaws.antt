-- ===== src/Payments/HandlerLaws.antt =====
-- Any sequence of the calls of payments.service.ts that write, from administrators, customers and
-- Stripe's webhook.
use deliveryways.Wallet.Store as Benefits
use deliveryways.Prelude.{
  ℕ, ◌≡◌, refl, inl, inr, Bool, true, false, ◌||◌, not, List, Bool-cases, is_some, Option,
}
use deliveryways.Prelude.Int.{int_laws}
use deliveryways.Auth.{AuthUserContext}
use deliveryways.Payments.Handlers.{
  is_charge, is_paid, is_refunded, is_stripe, is_collected_elsewhere, has_credit,
  credit_restaurant_wallet_for_payment, checked_mark_paid, mark_paid, checked_fail, fail,
  apply_payment_terminal_status, checked_cancel, cancel, refund_amount, checked_refund,
  refund_payment,
}
use deliveryways.Payments.Books.{Ledgers}
use deliveryways.Payments.Keeps.{
  Leaves, Leaves-checked, Leaves-after, Leaves-call_benefits, Leaves-notify,
  Ledgers-update_order_state, Ledgers-set_status, Ledgers-posted, Ledgers-opened, Leaves-stripe,
}
use deliveryways.Payments.Store.{
  PaymentTransaction, cancel_payment_intent, UpdatePaymentStatusDto, Db, with_status,
  sum_successful_refunds,
}
use deliveryways.Wallet.EarnLaws.{award_points_for_paid_order-Keeps}
use deliveryways.Wallet.ReversalLaws.{restore_order_benefits-Keeps}
use deliveryways.Wallet.OrderBenefits.{for_payment_reversal, for_refund}
use deliveryways.Wallet.Store.{PaymentStatus, paid, failed}
use deliveryways.Payments.RefundLaws.{Ledgers-post_refund}
use deliveryways.Payments.Checks.{checked_refund_lem}

pub Ledgers-credit :
    (p : PaymentTransaction) (db : Db)
    → Ledgers db
    → Ledgers (credit_restaurant_wallet_for_payment p db)
unfolding credit_restaurant_wallet_for_payment
Ledgers-credit p db h =
    elim (Bool-cases (
      not (is_paid p.status)
      || not (is_charge p.kind)
      || not (is_some p.order_id)
      || is_collected_elsewhere p.payment_method)) [
        | inl e ↦ rw e h
        | inr e ↦ elim (Bool-cases (has_credit p.id db.wallet_transactions)) [
          | inl t ↦ rw e (rw t (Ledgers-opened p.restaurant_id db h))
          | inr f ↦
              let own = h.restaurants p.restaurant_id in
              rw e (rw f (Ledgers-posted _ _ db refl (grind (int_laws, own.nonneg)) h))
        ]
      ]

pub Leaves-mark_paid :
    (user : AuthUserContext) (id : ℕ) (dto : UpdatePaymentStatusDto) (now : ℕ) (db : Db)
    → Ledgers db
    → Leaves (mark_paid user id dto now db)
unfolding mark_paid
Leaves-mark_paid user id dto now db h = Leaves-checked (checked_mark_paid user id db) h λ x e.
    Leaves-after
      (Leaves-call_benefits (award_points_for_paid_order-Keeps x.1 false now)
        (Ledgers-credit (with_status paid dto x.0) _ (Ledgers-set_status id x.1 paid dto refl h)))
      (Leaves-notify id)

pub Leaves-fail :
    (user : AuthUserContext) (id : ℕ) (dto : UpdatePaymentStatusDto) (db : Db)
    → Ledgers db
    → Leaves (fail user id dto db)
unfolding fail
Leaves-fail user id dto db h = Leaves-checked (checked_fail user id db) h λ x e.
    Leaves-after
      (Leaves-call_benefits (restore_order_benefits-Keeps x.1 for_payment_reversal)
        (Ledgers-set_status id x.1 failed dto refl h))
      (Leaves-notify id)

pub Leaves-terminal :
    (id o : ℕ) (status : PaymentStatus) (dto : UpdatePaymentStatusDto) (who : ℕ) (b : Bool)
    (now : ℕ) (db : Db)
    → is_refunded status ≡ false
    → Ledgers db
    → Leaves (apply_payment_terminal_status id o status dto who b now db)
unfolding apply_payment_terminal_status
Leaves-terminal id o status dto who true now db e h =
    Leaves-after
      (Leaves-call_benefits (restore_order_benefits-Keeps o for_payment_reversal)
        (Ledgers-update_order_state o _ (Ledgers-set_status id o status dto e h)))
      (Leaves-notify id)
Leaves-terminal id o status dto who false now db e h =
    Leaves-after
      (Leaves-call_benefits (restore_order_benefits-Keeps o for_payment_reversal)
        (Ledgers-set_status id o status dto e h))
      (Leaves-notify id)

pub Leaves-cancel :
    (cancels : List ℕ → Bool) (user : AuthUserContext) (id : ℕ) (dto : UpdatePaymentStatusDto)
    (now : ℕ) (db : Db)
    → Ledgers db
    → Leaves (cancel cancels user id dto now db)
unfolding cancel
Leaves-cancel cancels user id dto now db h = Leaves-checked (checked_cancel user id db) h λ x e.
    Leaves-stripe x.0 cancels cancel_payment_intent h λ db₁ same_rows h₁.
      Leaves-terminal id x.1 Benefits.cancelled dto user.uid (is_stripe x.0.payment_method) now db₁
        refl h₁

pub Leaves-refund_payment :
    (refunds : List ℕ → ℕ → Bool) (user : AuthUserContext) (id : ℕ) (asked : Option ℕ)
    (dto : UpdatePaymentStatusDto) (now : ℕ) (db : Db)
    → Ledgers db
    → Leaves (refund_payment refunds user id asked dto now db)
unfolding refund_payment sum_successful_refunds
Leaves-refund_payment refunds user id asked dto now db h =
    Leaves-checked (checked_refund user id asked db) h λ x e.
      let (cleared, can) = checked_refund_lem user id asked db e in
      Leaves-stripe x.0 _ _ h λ db₁ same_rows h₁.
        Leaves-after
          (Leaves-call_benefits (restore_order_benefits-Keeps x.1 for_refund) (
            Ledgers-post_refund x.0 x.1 (refund_amount asked x.0) dto user.uid now db₁ h₁
              (rw same_rows cleared.found_own) can.charge cleared.of_order
              (rw same_rows can.within)))
          (Leaves-notify db₁.next_id)
