-- ===== src/Payments/WebhookLaws.antt =====
-- payments.service.ts: the status updates and Stripe's reports keep the ledgers.
use deliveryways.Wallet.Store as Benefits
use deliveryways.Prelude.{
  ℕ, ◌≡◌, refl, inl, inr, Bool, true, false, ◌||◌, Option, none, some, List, Bool-cases, is_some,
  ok,
}
use deliveryways.Auth.{AuthUserContext}
use deliveryways.Payments.Webhooks.{
  read_wallet_top_up_context, apply_top_up, is_cancelled, checked_top_up, settled_top_up,
  update_wallet_top_up_status, update_order_payment, checked_update_status, update_status,
  subscription_details, update_tenant_subscription_payment_status, stripe_details,
  fulfill_guest_gift_card_purchase, settle_other, is_payment_pending, placed_order, placed_if,
  settle_order, settle_any, succeeded, handle_stripe_payment_intent_succeeded, is_subscription,
  close_any, report_failed, handle_stripe_payment_intent_failed, subscription_of, card_terms,
}
use deliveryways.Payments.Handlers.{is_paid, is_refunded, order_of, set_status}
use deliveryways.Payments.Books.{Ledgers, Ledgers-same}
use deliveryways.Payments.Keeps.{
  Leaves, Leaves-checked, Leaves-after, Leaves-if, Leaves-call_benefits, Ledgers-emit,
  Leaves-notify, Ledgers-update_payment, Ledgers-update_order_state, Ledgers-set_status,
  Leaves-stripe,
}
use deliveryways.Payments.HandlerLaws.{
  Ledgers-credit, Leaves-mark_paid, Leaves-fail, Leaves-terminal, Leaves-cancel,
}
use deliveryways.Payments.Store.{
  PaymentTarget, tenant_subscription, guest_gift_card_purchase, other_target, ProviderData,
  PaymentTransaction, cancel_payment_intent, UpdatePaymentStatusDto, Db, find_by_provider_ref,
}
use deliveryways.Wallet.AccountLaws.{apply_wallet_top_up-Books}
use deliveryways.Wallet.EarnLaws.{award_points_for_paid_order-Keeps}
use deliveryways.Wallet.Keeps.{create_coupon-Books, Keeps}
use deliveryways.Wallet.Store.{PaymentStatus, pending, paid, failed, Context}
use deliveryways.Wallet.Accounts.{apply_wallet_top_up}

Keeps-top_up : (ctx : Context) (n id : ℕ) → Keeps (apply_wallet_top_up ctx n id)
Keeps-top_up ctx n id = record { apply = apply_wallet_top_up-Books ctx n id }

Leaves-apply_top_up : (p : PaymentTransaction) (db : Db) → Ledgers db → Leaves (apply_top_up p db)
Leaves-apply_top_up p db h =
    Leaves-checked (read_wallet_top_up_context p) h
      λ ctx e. Leaves-call_benefits (Keeps-top_up ctx p.amount p.id) h

Leaves-update_wallet_top_up_status :
    (cancels : List ℕ → Bool) (p : PaymentTransaction) (status : PaymentStatus)
    (dto : UpdatePaymentStatusDto) (db : Db)
    → is_refunded status ≡ false
    → Ledgers db
    → Leaves (update_wallet_top_up_status cancels p status dto db)
unfolding update_wallet_top_up_status
Leaves-update_wallet_top_up_status cancels p status dto db e h =
    Leaves-checked (checked_top_up p status) h λ u passed.
      let go : (db₁ : Db) → Ledgers db₁ → Leaves (settled_top_up p status dto db₁) = λ db₁ h₁.
        let written = Ledgers-update_payment p.id status dto e h₁ in
        Leaves-after
          (Leaves-if (is_paid status) (Leaves-apply_top_up p _ written)
            (record { ledgers = written }))
          (Leaves-notify p.id) in
      elim (Bool-cases (is_cancelled status)) [
        | inl t ↦
            rw t (Leaves-stripe p cancels cancel_payment_intent h λ db₁ same_rows h₁. go db₁ h₁)
        | inr f ↦ rw f (go db h)
      ]

-- An administrator cannot set a payment to refunded by an update of its status.
checked_update_status-not_refunded :
    (user : AuthUserContext) (id : ℕ) (status : PaymentStatus) (db : Db) {p : PaymentTransaction}
    → checked_update_status user id status db ≡ ok p
    → is_refunded status ≡ false
unfolding checked_update_status
checked_update_status-not_refunded user id Benefits.refunded db e = absurd (cc e)
checked_update_status-not_refunded user id Benefits.cancelled db e = refl
checked_update_status-not_refunded user id paid db e = refl
checked_update_status-not_refunded user id failed db e = refl
checked_update_status-not_refunded user id pending db e = refl

pub Leaves-update_status :
    (cancels : List ℕ → Bool) (user : AuthUserContext) (id : ℕ) (status : PaymentStatus)
    (dto : UpdatePaymentStatusDto) (now : ℕ) (db : Db)
    → Ledgers db
    → Leaves (update_status cancels user id status dto now db)
unfolding update_status
Leaves-update_status cancels user id status dto now db h =
    Leaves-checked (checked_update_status user id status db) h λ p e.
      Leaves-if (is_some (order_of p db)) (by_order status) (
        Leaves-update_wallet_top_up_status cancels p status dto db
          (checked_update_status-not_refunded user id status db e) h)
  where
    by_order : (s : PaymentStatus) → Leaves (update_order_payment cancels user id s dto now db)
    by_order paid = Leaves-mark_paid user id dto now db h
    by_order failed = Leaves-fail user id dto db h
    by_order pending = Leaves-cancel cancels user id dto now db h
    by_order Benefits.cancelled = Leaves-cancel cancels user id dto now db h
    by_order Benefits.refunded = Leaves-cancel cancels user id dto now db h

Leaves-subscription :
    (p : PaymentTransaction) (ref : List ℕ) (status : PaymentStatus) (db : Db)
    → is_refunded status ≡ false
    → Ledgers db
    → Leaves (update_tenant_subscription_payment_status p ref status db)
unfolding update_tenant_subscription_payment_status
Leaves-subscription p ref status db e h = Leaves-checked (subscription_of p db) h λ x found.
    let written = Ledgers-update_payment p.id status (subscription_details p ref) e h in
    record { ledgers = Ledgers-same written written.customers refl refl refl }

Leaves-gift_card :
    (p : PaymentTransaction) (ref : List ℕ) (draw : ℕ → List ℕ) (now : ℕ) (db : Db)
    → Ledgers db
    → Leaves (fulfill_guest_gift_card_purchase p ref draw now db)
unfolding fulfill_guest_gift_card_purchase
Leaves-gift_card p ref draw now db h = Leaves-checked (card_terms p draw now db) h λ x found.
    record {
      ledgers = Ledgers-update_payment p.id paid (subscription_details p ref) refl (
          Ledgers-same h (create_coupon-Books p.restaurant_id x.0 _ db.benefits h.customers) refl
            refl refl);
    }

settle_other-Leaves :
    (target : PaymentTarget) (p : PaymentTransaction) (ref : List ℕ) (intent : ProviderData)
    (draw : ℕ → List ℕ) (now : ℕ) (db : Db)
    → Ledgers db
    → Leaves (settle_other target p ref intent draw now db)
settle_other-Leaves tenant_subscription p ref intent draw now db h =
    Leaves-after (Leaves-subscription p ref paid db refl h) (Leaves-notify p.id)
settle_other-Leaves guest_gift_card_purchase p ref intent draw now db h =
    Leaves-after (Leaves-gift_card p ref draw now db h) (Leaves-notify p.id)
settle_other-Leaves other_target p ref intent draw now db h =
    Leaves-checked (read_wallet_top_up_context p) h λ ctx e.
      Leaves-call_benefits (Keeps-top_up ctx p.amount p.id)
        (Ledgers-update_payment p.id paid _ refl h)

Leaves-settle_order :
    (p : PaymentTransaction) (o : ℕ) (ref : List ℕ) (intent : ProviderData) (now : ℕ) (db : Db)
    → Ledgers db
    → Leaves (settle_order p o ref intent now db)
unfolding settle_order
Leaves-settle_order p o ref intent now db h =
    Leaves-after
      (Leaves-call_benefits (award_points_for_paid_order-Keeps o false now) (
        Ledgers-credit (record p { status = paid }) _
          (placed_if-Ledgers (is_payment_pending (db.orders.order o)))))
      λ db₁ h₁. record { ledgers = Ledgers-emit _ h₁ }
  where
    placed_if-Ledgers :
        (b : Bool) → Ledgers (placed_if b o (set_status p.id o paid (stripe_details ref intent) db))
    placed_if-Ledgers true =
        Ledgers-update_order_state o placed_order
          (Ledgers-set_status p.id o paid (stripe_details ref intent) refl h)
    placed_if-Ledgers false = Ledgers-set_status p.id o paid (stripe_details ref intent) refl h

pub Leaves-succeeded :
    (ref : List ℕ) (intent : ProviderData) (draw : ℕ → List ℕ) (now : ℕ) (db : Db)
    → Ledgers db
    → Leaves (handle_stripe_payment_intent_succeeded ref intent draw now db)
unfolding handle_stripe_payment_intent_succeeded
Leaves-succeeded ref intent draw now db h = go (find_by_provider_ref ref db)
  where
    settled :
        (p : PaymentTransaction) (o : Option ℕ) → Leaves (settle_any o p ref intent draw now db)
    settled p none = settle_other-Leaves p.provider_data.target p ref intent draw now db h
    settled p (some o) = Leaves-settle_order p o ref intent now db h

    go : (p : Option PaymentTransaction) → Leaves (succeeded p ref intent draw now db)
    go none = record { ledgers = h }
    go (some p) = Leaves-if (is_paid p.status) (record { ledgers = h }) (settled p p.order_id)

pub Leaves-report_failed :
    (ref : List ℕ) (intent : ProviderData) (status : PaymentStatus) (now : ℕ) (db : Db)
    → is_refunded status ≡ false
    → Ledgers db
    → Leaves (handle_stripe_payment_intent_failed ref intent status now db)
unfolding handle_stripe_payment_intent_failed
Leaves-report_failed ref intent status now db e h = go (find_by_provider_ref ref db)
  where
    closed :
        (p : PaymentTransaction) (o : Option ℕ) → Leaves (close_any o p ref intent status now db)
    closed p none =
        Leaves-if (is_subscription p.provider_data.target) (Leaves-subscription p ref status db e h)
          (record { ledgers = Ledgers-update_payment p.id status _ e h })
    closed p (some o) = Leaves-terminal p.id o status _ 0 true now db e h

    go : (p : Option PaymentTransaction) → Leaves (report_failed p ref intent status now db)
    go none = record { ledgers = h }
    go (some p) =
        Leaves-if (is_paid p.status || is_refunded p.status) (record { ledgers = h })
          (closed p p.order_id)
