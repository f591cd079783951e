-- ===== src/Wallet/RoundTrip.antt =====
-- What checkout takes from a customer is what a reversal of the order gives back.
use deliveryways.Prelude.{
  ℕ, ◌≡◌, false, some, ok, refl, ap, ◌∙◌, arith, Outcome, err, Bool, true, if◌then◌else◌,
}
use deliveryways.Prelude.Int.{ℤ, pos, ◌+ℤ◌, ◌-ℤ◌, int_laws}
use deliveryways.Wallet.Reconciled.{wallet_balance, points_balance}
use deliveryways.Wallet.OrderBenefits.{
  apply_order_benefits, has_restored_points, has_restored_wallet, order_context, ReversalReason,
  restore_order_benefits, debit_order, redeem_order,
}
use deliveryways.Wallet.Store.{Order, Db, Context, Error, proceed, running, ◌>>=◌, ◌>>◌}
use deliveryways.Wallet.Observe.{
  debit_order-balance, redeem_order-points, wallet_restored-balance, wallet_restored-points,
  points_restored-points, points_restored-balance, is_own,
}
use deliveryways.Wallet.ReversalLaws.{wallet_restored, restore_order_benefits_lem}
use deliveryways.Wallet.Accounts.{
  ensure_wallet_account, ensure_loyalty_account, ensure_loyalty_program,
}

-- A checkout that returns has done both debits, one after the other.
apply_splits :
    (ctx : Context) (o w p : ℕ) (db : Db)
    → (apply_order_benefits ctx o w p db).0 ≡ ok tt
    → let debited = debit_order ctx o w db in
      (debited.0 ≡ ok tt)
      × ((redeem_order ctx o p debited.1).0 ≡ ok tt)
      × ((apply_order_benefits ctx o w p db).1 ≡ (redeem_order ctx o p debited.1).1)
unfolding apply_order_benefits ◌>>=◌ ◌>>◌
apply_splits ctx o w p db e = go (debit_order ctx o w db) e
  where
    go :
        (m : Outcome Error (Unit {0}) × Db)
        → (proceed (λ (u : Unit {0}). redeem_order ctx o p) m).0 ≡ ok tt
        → (m.0 ≡ ok tt)
          × ((redeem_order ctx o p m.1).0 ≡ ok tt)
          × ((proceed (λ (u : Unit {0}). redeem_order ctx o p) m).1 ≡ (redeem_order ctx o p m.1).1)
    go (ok u, d) h = (refl, h, refl)
    go (err x, d) h = absurd (cc h)

-- The debits write no row that counts as given back.
debit_order-reversals :
    (ctx : Context) (o k w : ℕ) (db : Db)
    → let db' = (debit_order ctx o w db).1 in
      (has_restored_wallet k db'.wallet_transactions ≡ has_restored_wallet k db.wallet_transactions)
      × (db'.loyalty_transactions ≡ db.loyalty_transactions)
unfolding running ensure_wallet_account
debit_order-reversals ctx o k w db = ground arith

redeem_order-reversals :
    (ctx : Context) (o k p : ℕ) (db : Db)
    → let db' = (redeem_order ctx o p db).1 in
      (has_restored_points k db'.loyalty_transactions
        ≡ has_restored_points k db.loyalty_transactions)
      × (db'.wallet_transactions ≡ db.wallet_transactions)
unfolding running ensure_loyalty_account ensure_loyalty_program
redeem_order-reversals ctx o k p db = ground arith

wallet_restored-loyalty :
    (o : ℕ) (order : Order) (reason : ReversalReason) (db : Db)
    → (wallet_restored o order reason db).loyalty_transactions ≡ db.loyalty_transactions
wallet_restored-loyalty o order reason db = ground arith

plus_minus : (a : ℤ) (n : ℕ) → a -ℤ pos n +ℤ pos n ≡ a
plus_minus a n = omega int_laws

-- What was taken from an own balance and then given back.
settle :
    (own : Bool) (n : ℕ) {x y z : ℤ}
    → y ≡ (if own then x -ℤ pos n else x)
    → z ≡ (if own then y +ℤ pos n else y)
    → z ≡ x
settle true n {x} e f = f ∙ ap (λ t. t +ℤ pos n) e ∙ plus_minus x n
settle false n e f = f ∙ e

-- Taking an order's benefits and then reversing the order, for any reason, leaves every customer
-- with the balances from before, in money and in points. The order is one that nothing was given
-- back for yet, what is taken is what its row says, and the checkout returns.
pub restore-apply :
    (r c o : ℕ) (order : Order) (reason : ReversalReason) (db : Db)
    → db.order o ≡ some order
    → has_restored_wallet o db.wallet_transactions ≡ false
    → has_restored_points o db.loyalty_transactions ≡ false
    → let taken =
        apply_order_benefits
          (order_context order)
          o
          order.wallet_applied_amount
          order.loyalty_points_redeemed
          db in
      taken.0 ≡ ok tt
      → let db' = (restore_order_benefits o reason taken.1).1 in
        (wallet_balance r c db' ≡ wallet_balance r c db)
        × (points_balance r c db' ≡ points_balance r c db)
restore-apply r c o order reason db found nw np e =
    let ctx = order_context order in
    let w = order.wallet_applied_amount in
    let p = order.loyalty_points_redeemed in
    let (debited, redeemed, taken) = apply_splits ctx o w p db e in
    let db₁ = (debit_order ctx o w db).1 in
    let db₂ = (redeem_order ctx o p db₁).1 in
    let first = debit_order-balance r c ctx o w db debited in
    let second = redeem_order-points r c ctx o p db₁ redeemed in
    let db₃ = wallet_restored o order reason db₂ in
    let own = is_own r c ctx in
    let nw₂ : has_restored_wallet o db₂.wallet_transactions ≡ false =
      ap (has_restored_wallet o) (redeem_order-reversals ctx o o p db₁).1
      ∙ (debit_order-reversals ctx o o w db).0
      ∙ nw in
    let np₃ : has_restored_points o db₃.loyalty_transactions ≡ false =
      ap (has_restored_points o) (wallet_restored-loyalty o order reason db₂)
      ∙ (redeem_order-reversals ctx o o p db₁).0
      ∙ ap (has_restored_points o) (debit_order-reversals ctx o o w db).1
      ∙ np in
    rw taken (
      rw
        (restore_order_benefits_lem o order reason db₂ (ap (λ f. f o) (second.2 ∙ first.2) ∙ found))
        (
          settle own w first.0 (
              points_restored-balance r c o order db₃
              ∙ wallet_restored-balance r c o order reason db₂ nw₂
              ∙ ap (λ x. if own then x +ℤ pos w else x) second.0),
          settle own p second.1 (
                points_restored-points r c o order db₃ np₃
                ∙ ap (λ x. if own then x +ℤ pos p else x)
                    (wallet_restored-points r c o order reason db₂))
              ∙ first.1,
        ))
