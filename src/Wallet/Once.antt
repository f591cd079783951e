-- ===== src/Wallet/Once.antt =====
-- A repeated call of loyalty-wallet.service.ts pays only once.
use deliveryways.Prelude.{ℕ, ◌≡◌, Bool, true, none, some, arith, ok, ap, ◌∙◌}
use deliveryways.Prelude.Int.{ℤ}
use deliveryways.Auth.{is_id}
use deliveryways.Wallet.OrderBenefits.{
  award_points_for_paid_order, ReversalReason, restore_order_benefits,
}
use deliveryways.Wallet.Accounts.{
  apply_wallet_top_up, ensure_wallet_account, ensure_loyalty_account, ensure_loyalty_program,
}
use deliveryways.Wallet.Store.{Db, Context, running, Order}
use deliveryways.Wallet.ReversalLaws.{
  wallet_restored, points_given, points_restored, restore_order_benefits_lem,
}

pub is_id_self : (p : ℕ) → is_id p (some p) ≡ true
is_id_self p = ground arith

-- A payment is credited once. After a top-up, the same call with any amount, in the same context,
-- changes no table and reports the amount that was credited for the payment the first time.
pub top_up_once :
    (ctx : Context) (n m p : ℕ) (db : Db) {balance amount : ℤ}
    → let first = apply_wallet_top_up ctx n p db in
      first.0 ≡ ok (balance, amount)
      → apply_wallet_top_up ctx m p first.1 ≡ (ok (balance, amount), first.1)
unfolding apply_wallet_top_up running ensure_wallet_account
top_up_once ctx n m p db e = ground (arith, is_id_self p)

-- An order is awarded points once: after an award of some points, a second call, paid or not and at
-- any time, awards nothing and changes no table.
pub award_once :
    (o : ℕ) (allow allow' : Bool) (now now' n : ℕ) (db : Db)
    → let first = award_points_for_paid_order o allow now db in
      first.0 ≡ ok (some n) → award_points_for_paid_order o allow' now' first.1 ≡ (ok none, first.1)
unfolding award_points_for_paid_order running ensure_loyalty_account ensure_loyalty_program
award_once o allow allow' now now' n db e = ground arith

-- After the two halves of a reversal neither has anything left to do.
restored_again :
    (o : ℕ) (order : Order) (reason reason' : ReversalReason) (db : Db)
    → let db' = points_restored o order (wallet_restored o order reason db) in
      points_restored o order (wallet_restored o order reason' db') ≡ db'
unfolding points_given
restored_again o order reason reason' db = ground (arith, is_id_self o)

pub points_restored-order :
    (o : ℕ) (order : Order) (db : Db) → (points_restored o order db).order ≡ db.order
unfolding points_given
points_restored-order o order db = ground arith

pub wallet_restored-order :
    (o : ℕ) (order : Order) (reason : ReversalReason) (db : Db)
    → (wallet_restored o order reason db).order ≡ db.order
wallet_restored-order o order reason db = ground arith

-- A reversal gives back once: after one of an order that is there, a second one, for any reason,
-- returns too and changes no table.
pub restore_once :
    (o : ℕ) (order : Order) (reason reason' : ReversalReason) (db : Db)
    → db.order o ≡ some order
    → let first = restore_order_benefits o reason db in
      restore_order_benefits o reason' first.1 ≡ (ok tt, first.1)
restore_once o order reason reason' db found =
    let db₁ = wallet_restored o order reason db in
    let db₂ = points_restored o order db₁ in
    let kept : db₂.order o ≡ some order =
      ap (λ f. f o) (points_restored-order o order db₁ ∙ wallet_restored-order o order reason db)
      ∙ found in
    rw (restore_order_benefits_lem o order reason db found) (
      restore_order_benefits_lem o order reason' db₂ kept
      ∙ ap (λ d. (ok tt, d)) (restored_again o order reason reason' db))
