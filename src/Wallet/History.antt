-- ===== src/Wallet/History.antt =====
-- Any sequence of the calls of loyalty-wallet.service.ts that write, from any customers and
-- administrators.
use deliveryways.Prelude.{ℕ, Bool, Option, List, [], ◌∷◌}
use deliveryways.Prelude.Int.{ℤ}
use deliveryways.Auth.{AuthUserContext}
use deliveryways.Wallet.GiftCardLaws.{
  redeem_gift_card_to_wallet-Keeps, purchase_gift_card_from_wallet-Keeps,
}
use deliveryways.Wallet.OrderLaws.{apply_order_benefits-Keeps}
use deliveryways.Wallet.AccountLaws.{
  adjust_wallet-Books, adjust_points-Books, apply_wallet_top_up-Books,
}
use deliveryways.Wallet.EarnLaws.{award_points_for_paid_order-Keeps, redeem_points_to_wallet-Keeps}
use deliveryways.Wallet.Keeps.{
  Keeps, Keeps-bind, Keeps-then, Keeps-fail_if, Keeps-or_fail, Keeps-if, Keeps-transaction,
  Keeps-pure, Keeps-gets, Keeps-wallet, Keeps-loyalty, Keeps-program,
}
use deliveryways.Wallet.ReversalLaws.{restore_order_benefits-Keeps}
use deliveryways.Wallet.Reconciled.{Books}
use deliveryways.Wallet.OrderBenefits.{
  calculate_quote_benefits, apply_order_benefits, award_points_for_paid_order, ReversalReason,
  restore_order_benefits, redeem_points_to_wallet,
}
use deliveryways.Wallet.Accounts.{
  resolve_admin_managed_customer, customer_context, signed, adjust_customer_loyalty,
  adjust_customer_wallet, apply_wallet_top_up,
}
use deliveryways.Wallet.GiftCards.{redeem_gift_card_to_wallet, purchase_gift_card_from_wallet}
use deliveryways.Wallet.Store.{Db, Context, transaction}

-- A call with its arguments. Checkout takes an order's benefits in a transaction of its own.
pub data Request : Type 0 where
  adjusts_loyalty : AuthUserContext → ℕ → ℕ → Bool → Request
  adjusts_wallet : AuthUserContext → ℕ → ℕ → Bool → Request
  tops_up : Context → ℕ → ℕ → Request
  redeems_code : Context → ℕ → List ℕ → Request
  buys_card : Context → ℕ → Option ℕ → Option ℕ → ℕ → (ℕ → List ℕ) → Request
  converts_points : Context → ℕ → Request
  quotes : Context → ℤ → ℕ → ℕ → Request
  takes_benefits : Context → ℕ → ℕ → ℕ → Request
  awards : ℕ → Bool → ℕ → Request
  restores_benefits : ℕ → ReversalReason → Request

-- The tables after one call, whether it returns or throws.
perform : Request → Db → Db
perform (adjusts_loyalty u c n b) db = (adjust_customer_loyalty u c n b db).1
perform (adjusts_wallet u c n b) db = (adjust_customer_wallet u c n b db).1
perform (tops_up ctx n p) db = (apply_wallet_top_up ctx n p db).1
perform (redeems_code ctx now code) db = (redeem_gift_card_to_wallet ctx now code db).1
perform (buys_card ctx n b e now draw) db = (purchase_gift_card_from_wallet ctx n b e now draw db).1
perform (converts_points ctx n) db = (redeem_points_to_wallet ctx n db).1
perform (quotes ctx total w p) db = (calculate_quote_benefits ctx total w p db).1
perform (takes_benefits ctx o w p) db = (transaction (apply_order_benefits ctx o w p) db).1
perform (awards o allow now) db = (award_points_for_paid_order o allow now db).1
perform (restores_benefits o reason) db = (restore_order_benefits o reason db).1

pub run : List Request → Db → Db
run [] db = db
run (q ∷ qs) db = run qs (perform q db)

resolve-Keeps : (u : AuthUserContext) (c : ℕ) → Keeps (resolve_admin_managed_customer u c)
unfolding resolve_admin_managed_customer
resolve-Keeps u c = Keeps-then (Keeps-fail_if _ _) (
    Keeps-bind (Keeps-gets _) λ found. Keeps-bind (Keeps-or_fail _ _) λ row.
      Keeps-then (Keeps-fail_if _ _) (
        Keeps-if _ (Keeps-pure row) (
          Keeps-if _
            (Keeps-bind (Keeps-or_fail _ _) λ tid. Keeps-then (Keeps-fail_if _ _) (Keeps-pure row))
            (Keeps-bind (Keeps-or_fail _ _) λ rid.
              Keeps-then (Keeps-fail_if _ _) (Keeps-then (Keeps-fail_if _ _) (Keeps-pure row))))))

adjust_customer_wallet-Keeps :
    (u : AuthUserContext) (c n : ℕ) (b : Bool) → Keeps (adjust_customer_wallet u c n b)
unfolding adjust_customer_wallet
adjust_customer_wallet-Keeps u c n b =
    Keeps-bind (resolve-Keeps u c)
      λ row. record { apply = adjust_wallet-Books (customer_context c row) b n }

adjust_customer_loyalty-Keeps :
    (u : AuthUserContext) (c n : ℕ) (b : Bool) → Keeps (adjust_customer_loyalty u c n b)
unfolding adjust_customer_loyalty
adjust_customer_loyalty-Keeps u c n b =
    Keeps-bind (resolve-Keeps u c)
      λ row. record { apply = adjust_points-Books (customer_context c row) (signed b n) }

quote-Keeps : (ctx : Context) (total : ℤ) (w p : ℕ) → Keeps (calculate_quote_benefits ctx total w p)
unfolding calculate_quote_benefits
quote-Keeps ctx total w p =
    Keeps-bind
      (Keeps-if _ (Keeps-pure _) (
        Keeps-bind (Keeps-program _) λ program. Keeps-bind (Keeps-loyalty _) λ account.
          Keeps-then (Keeps-fail_if _ _)
            (Keeps-then (Keeps-fail_if _ _) (Keeps-then (Keeps-fail_if _ _) (Keeps-pure _)))))
      λ discount.
        Keeps-bind
          (Keeps-if _ (Keeps-pure _)
            (Keeps-bind (Keeps-wallet _) λ account. Keeps-then (Keeps-fail_if _ _) (Keeps-pure _)))
          λ applied. Keeps-pure _

perform-Books : (q : Request) (db : Db) → Books db → Books (perform q db)
unfolding perform
perform-Books (adjusts_loyalty u c n b) = (adjust_customer_loyalty-Keeps u c n b).apply
perform-Books (adjusts_wallet u c n b) = (adjust_customer_wallet-Keeps u c n b).apply
perform-Books (tops_up ctx n p) = apply_wallet_top_up-Books ctx n p
perform-Books (redeems_code ctx now code) = (redeem_gift_card_to_wallet-Keeps ctx now code).apply
perform-Books (buys_card ctx n b e now draw) =
    (purchase_gift_card_from_wallet-Keeps ctx n b e now draw).apply
perform-Books (converts_points ctx n) = (redeem_points_to_wallet-Keeps ctx n).apply
perform-Books (quotes ctx total w p) = (quote-Keeps ctx total w p).apply
perform-Books (takes_benefits ctx o w p) =
    (Keeps-transaction (apply_order_benefits-Keeps ctx o w p)).apply
perform-Books (awards o allow now) = (award_points_for_paid_order-Keeps o allow now).apply
perform-Books (restores_benefits o reason) = (restore_order_benefits-Keeps o reason).apply

-- Whatever calls are made, in whatever order and with whatever failures: if the books of all
-- customers held before, they hold after. That is, each wallet balance is the opening balance plus
-- the sum of the customer's wallet rows, each balance of points likewise, and none is negative.
pub run-Books : (qs : List Request) (db : Db) → Books db → Books (run qs db)
unfolding run
run-Books [] db h = h
run-Books (q ∷ qs) db h = run-Books qs (perform q db) (perform-Books q db h)
