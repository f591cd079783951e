-- ===== src/Wallet/ReversalLaws.antt =====
-- Giving back what an order took keeps the books, and is done once.
use deliveryways.Prelude.{
  ℕ, ◌≡◌, refl, sym, ap, ◌∙◌, subst, some, arith, ok, ◌||◌, ◌==◌, if◌then◌else◌,
}
use deliveryways.Prelude.Int.{pos, ◌+ℤ◌, ◌-ℤ◌}
use deliveryways.Wallet.OrderLaws.{with_program-points}
use deliveryways.Wallet.AccountLaws.{wallet_of_nonneg, loyalty_of_nonneg}
use deliveryways.Wallet.Keeps.{
  Keeps, Keeps-bind, Keeps-then, Keeps-or_fail, Keeps-if, Keeps-transaction, Keeps-pure, Keeps-gets,
}
use deliveryways.Wallet.Reconciled.{
  Books, post_points-Books, wallet_of, ensure_wallet_account_lem, posted_wallet,
  posted_wallet-Books, loyalty_of, with_loyalty, ensure_loyalty_account_lem, with_loyalty-Books,
  loyalty_of-points, with_program, ensure_loyalty_program_lem, with_program-Books,
}
use deliveryways.Wallet.OrderBenefits.{
  order_context, ReversalReason, reversal_kind, give_back_wallet, give_back_points,
  restore_order_benefits, has_restored_points, has_restored_wallet, restore_wallet, restore_points,
}
use deliveryways.Wallet.Accounts.{loyalty_row, wallet_row}
use deliveryways.Wallet.Store.{
  restore, WalletTransaction, LoyaltyAccount, LoyaltyTransaction, Order, Db, put_loyalty_account,
  create_loyalty_transaction, running, gets, or_fail, commit, transaction, proceed, ◌>>=◌, ◌>>◌,
}

abbrev pub reversal_row : ℕ → Order → ReversalReason → Db → WalletTransaction
reversal_row o order reason db =
    let ctx = order_context order in
    let a = wallet_of ctx db in
    let amount = pos order.wallet_applied_amount in
    wallet_row ctx (some o) (reversal_kind reason) amount (a.balance +ℤ amount) a.currency

give_back_wallet_lem :
    (o : ℕ) (order : Order) (reason : ReversalReason) (db : Db)
    → give_back_wallet o order reason db
      ≡ (ok tt, posted_wallet (order_context order) (reversal_row o order reason db) db)
unfolding running
give_back_wallet_lem o order reason db =
    ground (arith, ensure_wallet_account_lem (order_context order) db)

give_back_wallet-Keeps :
    (o : ℕ) (order : Order) (reason : ReversalReason) → Keeps (give_back_wallet o order reason)
give_back_wallet-Keeps o order reason = record {
  apply = λ db h.
      let ctx = order_context order in
      subst (λ m. Books m.1) (sym (give_back_wallet_lem o order reason db))
        (posted_wallet-Books ctx _ db (refl, refl)
          (wallet_of_nonneg ctx db order.wallet_applied_amount h) h);
}

restored_account : Order → Db → LoyaltyAccount
restored_account order db =
    let a = loyalty_of (order_context order) db in
    let points = pos order.loyalty_points_redeemed in
    record a {
      available_points = a.available_points +ℤ points;
      lifetime_redeemed_points = a.lifetime_redeemed_points -ℤ points;
    }

restored_points_row : ℕ → Order → Db → LoyaltyTransaction
restored_points_row o order db =
    let ctx = order_context order in
    let points = pos order.loyalty_points_redeemed in
    loyalty_row ctx (some o) restore points ((loyalty_of ctx db).available_points +ℤ points)

give_back_points_lem :
    (o : ℕ) (order : Order) (db : Db)
    → let ctx = order_context order in
      give_back_points o order db ≡ (
        ok tt,
        create_loyalty_transaction (restored_points_row o order db) (
            put_loyalty_account ctx
              (restored_account order db)
              (with_program ctx.restaurant_id (with_loyalty ctx db))),
      )
unfolding restored_account restored_points_row running
give_back_points_lem o order db =
    let ctx = order_context order in
    ground (
      arith,
      ensure_loyalty_account_lem ctx db,
      ensure_loyalty_program_lem ctx.restaurant_id (with_loyalty ctx db),
    )

give_back_points-Keeps : (o : ℕ) (order : Order) → Keeps (give_back_points o order)
unfolding restored_account restored_points_row
give_back_points-Keeps o order = record {
  apply = λ db h.
      let ctx = order_context order in
      let r = ctx.restaurant_id in
      let points = pos order.loyalty_points_redeemed in
      subst (λ m. Books m.1) (sym (give_back_points_lem o order db))
        (post_points-Books ctx _ _ (with_program r (with_loyalty ctx db)) (refl, refl)
          (ap (λ x. x +ℤ points)
            (loyalty_of-points ctx db
              ∙ sym (with_program-points r ctx.customer_id r (with_loyalty ctx db))))
          (loyalty_of_nonneg ctx db order.loyalty_points_redeemed h)
          (with_program-Books r _ (with_loyalty-Books ctx db h)));
}

-- Giving back what an order took keeps the books.
pub restore_order_benefits-Keeps :
    (o : ℕ) (reason : ReversalReason) → Keeps (restore_order_benefits o reason)
unfolding restore_order_benefits
restore_order_benefits-Keeps o reason = Keeps-transaction (
    Keeps-bind (Keeps-gets _) λ found. Keeps-bind (Keeps-or_fail _ _) λ order.
      Keeps-then
        (Keeps-bind (Keeps-gets _)
          λ restored. Keeps-if _ (Keeps-pure tt) (give_back_wallet-Keeps o order reason))
        (Keeps-bind (Keeps-gets _)
          λ restored. Keeps-if _ (Keeps-pure tt) (give_back_points-Keeps o order)))

-- The tables after the two halves of a reversal.
abbrev pub wallet_restored : ℕ → Order → ReversalReason → Db → Db
wallet_restored o order reason db =
    if order.wallet_applied_amount == 0 || has_restored_wallet o db.wallet_transactions
    then db
    else posted_wallet (order_context order) (reversal_row o order reason db) db

unfoldable pub points_given : ℕ → Order → Db → Db
unfolding restored_account restored_points_row
points_given o order db =
    let ctx = order_context order in
    create_loyalty_transaction (restored_points_row o order db) (
      put_loyalty_account ctx (restored_account order db)
        (with_program ctx.restaurant_id (with_loyalty ctx db)))

abbrev pub points_restored : ℕ → Order → Db → Db
points_restored o order db =
    if order.loyalty_points_redeemed == 0 || has_restored_points o db.loyalty_transactions
    then db
    else points_given o order db

restore_wallet_lem :
    (o : ℕ) (order : Order) (reason : ReversalReason) (db : Db)
    → restore_wallet o order reason db ≡ (ok tt, wallet_restored o order reason db)
unfolding running
restore_wallet_lem o order reason db =
    ground (arith, ensure_wallet_account_lem (order_context order) db)

restore_points_lem :
    (o : ℕ) (order : Order) (db : Db)
    → restore_points o order db ≡ (ok tt, points_restored o order db)
unfolding running points_given
restore_points_lem o order db =
    let ctx = order_context order in
    ground (
      arith,
      ensure_loyalty_account_lem ctx db,
      ensure_loyalty_program_lem ctx.restaurant_id (with_loyalty ctx db),
    )

-- A reversal of an order that is there does both halves.
pub restore_order_benefits_lem :
    (o : ℕ) (order : Order) (reason : ReversalReason) (db : Db)
    → db.order o ≡ some order
    → restore_order_benefits o reason db
      ≡ (ok tt, points_restored o order (wallet_restored o order reason db))
unfolding restore_order_benefits transaction ◌>>=◌ ◌>>◌ gets or_fail
restore_order_benefits_lem o order reason db e = rw e (
    rw (restore_wallet_lem o order reason db, proceed)
      (rw (restore_points_lem o order (wallet_restored o order reason db), commit)))
