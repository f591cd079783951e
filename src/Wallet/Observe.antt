-- ===== src/Wallet/Observe.antt =====
-- What a posting does to the balances of any customer.
use deliveryways.Prelude.{ℕ, ◌≡◌, Bool, true, ◌&&◌, arith, ◌==◌, if◌then◌else◌, ok, false}
use deliveryways.Prelude.Int.{pos, ◌+ℤ◌, ◌-ℤ◌, ℤ, int_laws}
use deliveryways.Wallet.Reconciled.{
  wallet_balance, points_balance, posted_wallet, loyalty_of, with_loyalty, with_program,
}
use deliveryways.Wallet.OrderBenefits.{
  debit_order, redeem_order, has_restored_points, has_restored_wallet, order_context,
  ReversalReason,
}
use deliveryways.Wallet.Store.{
  WalletTransaction, LoyaltyAccount, LoyaltyTransaction, Db, Context, put_loyalty_account,
  create_loyalty_transaction, Order, running,
}
use deliveryways.Wallet.ReversalLaws.{wallet_restored, points_given, points_restored}
use deliveryways.Wallet.Accounts.{
  ensure_wallet_account, ensure_loyalty_account, ensure_loyalty_program,
}

abbrev pub is_own : ℕ → ℕ → Context → Bool
is_own r c ctx = r == ctx.restaurant_id && c == ctx.customer_id

-- A wallet row moves its own customer's balance by its amount, and no other.
pub posted_wallet-balance :
    (r c : ℕ) (ctx : Context) (t : WalletTransaction) (db : Db)
    → wallet_balance r c (posted_wallet ctx t db)
      ≡ (if is_own r c ctx then wallet_balance r c db +ℤ t.amount else wallet_balance r c db)
posted_wallet-balance r c ctx t db = ground arith

pub posted_wallet-points :
    (r c : ℕ) (ctx : Context) (t : WalletTransaction) (db : Db)
    → points_balance r c (posted_wallet ctx t db) ≡ points_balance r c db
posted_wallet-points r c ctx t db = ground arith

-- An account of points that is written shows as it is.
pub put_loyalty-points :
    (r c k : ℕ) (ctx : Context) (a : LoyaltyAccount) (t : LoyaltyTransaction) (db : Db)
    → points_balance r c (
        create_loyalty_transaction t
          (put_loyalty_account ctx a (with_program k (with_loyalty ctx db))))
      ≡ (if is_own r c ctx then a.available_points else points_balance r c db)
put_loyalty-points r c k ctx a t db = ground arith

pub put_loyalty-balance :
    (r c k : ℕ) (ctx : Context) (a : LoyaltyAccount) (t : LoyaltyTransaction) (db : Db)
    → wallet_balance r c (
        create_loyalty_transaction t
          (put_loyalty_account ctx a (with_program k (with_loyalty ctx db))))
      ≡ wallet_balance r c db
put_loyalty-balance r c k ctx a t db = ground arith

-- What `loyalty_of` reads is the customer's balance.
pub loyalty_of-own :
    (r c : ℕ) (ctx : Context) (db : Db)
    → is_own r c ctx ≡ true
    → (loyalty_of ctx db).available_points ≡ points_balance r c db
loyalty_of-own r c ctx db e = ground arith

minus_nothing : (a : ℤ) (n : ℕ) → n ≡ 0 → a -ℤ pos n ≡ a
minus_nothing a n e = omega int_laws

plus_nothing : (a : ℤ) (n : ℕ) → n ≡ 0 → a +ℤ pos n ≡ a
plus_nothing a n e = omega int_laws

-- A debit for an order that returns has taken the amount.
pub debit_order-balance :
    (r c : ℕ) (ctx : Context) (o n : ℕ) (db : Db)
    → (debit_order ctx o n db).0 ≡ ok tt
    → (wallet_balance r c (debit_order ctx o n db).1
        ≡ (if is_own r c ctx then wallet_balance r c db -ℤ pos n else wallet_balance r c db))
      × (points_balance r c (debit_order ctx o n db).1 ≡ points_balance r c db)
      × ((debit_order ctx o n db).1.order ≡ db.order)
unfolding running ensure_wallet_account
debit_order-balance r c ctx o n db e = ground (arith, minus_nothing (wallet_balance r c db) n)

pub redeem_order-points :
    (r c : ℕ) (ctx : Context) (o n : ℕ) (db : Db)
    → (redeem_order ctx o n db).0 ≡ ok tt
    → (wallet_balance r c (redeem_order ctx o n db).1 ≡ wallet_balance r c db)
      × (points_balance r c (redeem_order ctx o n db).1
          ≡ (if is_own r c ctx then points_balance r c db -ℤ pos n else points_balance r c db))
      × ((redeem_order ctx o n db).1.order ≡ db.order)
unfolding running ensure_loyalty_account ensure_loyalty_program
redeem_order-points r c ctx o n db e = ground (arith, minus_nothing (points_balance r c db) n)

pub wallet_restored-balance :
    (r c o : ℕ) (order : Order) (reason : ReversalReason) (db : Db)
    → has_restored_wallet o db.wallet_transactions ≡ false
    → let ctx = order_context order in
      let amount = pos order.wallet_applied_amount in
      wallet_balance r c (wallet_restored o order reason db)
      ≡ (if is_own r c ctx then wallet_balance r c db +ℤ amount else wallet_balance r c db)
wallet_restored-balance r c o order reason db nw =
    ground (arith, plus_nothing (wallet_balance r c db) order.wallet_applied_amount)

pub wallet_restored-points :
    (r c o : ℕ) (order : Order) (reason : ReversalReason) (db : Db)
    → points_balance r c (wallet_restored o order reason db) ≡ points_balance r c db
wallet_restored-points r c o order reason db = ground arith

pub points_restored-points :
    (r c o : ℕ) (order : Order) (db : Db)
    → has_restored_points o db.loyalty_transactions ≡ false
    → let ctx = order_context order in
      let points = pos order.loyalty_points_redeemed in
      points_balance r c (points_restored o order db)
      ≡ (if is_own r c ctx then points_balance r c db +ℤ points else points_balance r c db)
unfolding points_given
points_restored-points r c o order db np =
    ground (arith, plus_nothing (points_balance r c db) order.loyalty_points_redeemed)

pub points_restored-balance :
    (r c o : ℕ) (order : Order) (db : Db)
    → wallet_balance r c (points_restored o order db) ≡ wallet_balance r c db
unfolding points_given
points_restored-balance r c o order db = ground arith
