-- ===== src/Wallet/Reconciled.antt =====
-- What ties the balances of loyalty-wallet.service.ts to the rows of its two transaction tables.
use deliveryways.Prelude.{
  ℕ, ◌≡◌, ◌&&◌, none, some, List, [], ◌∷◌, ◌==◌, if◌then◌else◌, arith, Outcome, ok, err, ◌∙◌, ap,
}
use deliveryways.Prelude.Int.{ℤ, pos, ◌+ℤ◌, ◌≤ℤ◌, int_laws}
use deliveryways.Wallet.Store.{
  WalletTransaction, LoyaltyTransaction, LoyaltyAccount, LoyaltyProgram, Db, Context, WalletAccount,
  Error, commit, put_wallet_account, create_wallet_transaction, put_loyalty_account,
  create_loyalty_transaction, put_loyalty_program, running,
}
use deliveryways.Wallet.Accounts.{
  fresh_wallet, ensure_wallet_account, fresh_loyalty, ensure_loyalty_account, default_program,
  ensure_loyalty_program,
}

-- What the wallet of a customer holds: an account that is not there yet opens with the balance of
-- the customer's profile.
abbrev pub wallet_balance : ℕ → ℕ → Db → ℤ
wallet_balance r c db = elim (db.wallet_account r c) [
  | some a ↦ a.balance
  | none ↦ (db.legacy_metadata c).balance
]

abbrev pub points_balance : ℕ → ℕ → Db → ℤ
points_balance r c db = elim (db.loyalty_account r c) [
  | some a ↦ a.available_points
  | none ↦ (db.legacy_metadata c).points
]

-- The sums of one customer's rows.
abbrev pub wallet_sum : ℕ → ℕ → List WalletTransaction → ℤ
wallet_sum r c [] = pos 0
wallet_sum r c (t ∷ ts) =
    if r == t.restaurant_id && c == t.customer_id
    then wallet_sum r c ts +ℤ t.amount
    else wallet_sum r c ts

abbrev pub points_sum : ℕ → ℕ → List LoyaltyTransaction → ℤ
points_sum r c [] = pos 0
points_sum r c (t ∷ ts) =
    if r == t.restaurant_id && c == t.customer_id
    then points_sum r c ts +ℤ t.points
    else points_sum r c ts

-- The books of one customer at one restaurant agree, and nothing is overdrawn.
pub record IsReconciled (r c : ℕ) (db : Db) : Type 0 where
  pub wallet :
      wallet_balance r c db
      ≡ (db.legacy_metadata c).balance +ℤ wallet_sum r c db.wallet_transactions
  pub points :
      points_balance r c db
      ≡ (db.legacy_metadata c).points +ℤ points_sum r c db.loyalty_transactions
  pub wallet_nonneg : pos 0 ≤ℤ wallet_balance r c db
  pub points_nonneg : pos 0 ≤ℤ points_balance r c db

-- The books of every customer.
abbrev pub Books : Db → Type 0
Books db = (r c : ℕ) → IsReconciled r c db

-- A wallet row and the account that carries its amount keep the books.
pub post_wallet-Books :
    (ctx : Context) (a : WalletAccount) (t : WalletTransaction) (db : Db)
    → (t.restaurant_id ≡ ctx.restaurant_id) × (t.customer_id ≡ ctx.customer_id)
    → a.balance ≡ wallet_balance ctx.restaurant_id ctx.customer_id db +ℤ t.amount
    → pos 0 ≤ℤ a.balance
    → Books db
    → Books (create_wallet_transaction t (put_wallet_account ctx a db))
post_wallet-Books ctx a t db k e p h r c = let hrc = h r c in grind int_laws

-- The same for a row of points.
pub post_points-Books :
    (ctx : Context) (a : LoyaltyAccount) (t : LoyaltyTransaction) (db : Db)
    → (t.restaurant_id ≡ ctx.restaurant_id) × (t.customer_id ≡ ctx.customer_id)
    → a.available_points ≡ points_balance ctx.restaurant_id ctx.customer_id db +ℤ t.points
    → pos 0 ≤ℤ a.available_points
    → Books db
    → Books (create_loyalty_transaction t (put_loyalty_account ctx a db))
post_points-Books ctx a t db k e p h r c = let hrc = h r c in grind int_laws

-- What `ensureWalletAccount` returns, and the tables that it leaves.
abbrev pub wallet_of : Context → Db → WalletAccount
wallet_of ctx db = elim (db.wallet_account ctx.restaurant_id ctx.customer_id) [
  | some a ↦ a
  | none ↦ fresh_wallet ctx db
]

abbrev pub with_wallet : Context → Db → Db
with_wallet ctx db = elim (db.wallet_account ctx.restaurant_id ctx.customer_id) [
  | some a ↦ db
  | none ↦ put_wallet_account ctx (fresh_wallet ctx db) db
]

pub ensure_wallet_account_lem :
    (ctx : Context) (db : Db)
    → ensure_wallet_account ctx db ≡ (ok (wallet_of ctx db), with_wallet ctx db)
unfolding ensure_wallet_account running
ensure_wallet_account_lem ctx db = ground arith

pub with_wallet-Books : (ctx : Context) (db : Db) → Books db → Books (with_wallet ctx db)
with_wallet-Books ctx db h r c = let hrc = h r c in ground arith

pub wallet_of-balance :
    (ctx : Context) (db : Db)
    → (wallet_of ctx db).balance
      ≡ wallet_balance ctx.restaurant_id ctx.customer_id (with_wallet ctx db)
wallet_of-balance ctx db = ground arith

-- The tables once a row is posted to the customer's own wallet.
abbrev pub posted_wallet : Context → WalletTransaction → Db → Db
posted_wallet ctx t db =
    let a = wallet_of ctx db in
    create_wallet_transaction t
      (put_wallet_account ctx (record a { balance = a.balance +ℤ t.amount }) (with_wallet ctx db))

pub posted_wallet-Books :
    (ctx : Context) (t : WalletTransaction) (db : Db)
    → (t.restaurant_id ≡ ctx.restaurant_id) × (t.customer_id ≡ ctx.customer_id)
    → pos 0 ≤ℤ (wallet_of ctx db).balance +ℤ t.amount
    → Books db
    → Books (posted_wallet ctx t db)
posted_wallet-Books ctx t db k p h =
    post_wallet-Books ctx _ t (with_wallet ctx db) k (rw (wallet_of-balance ctx db)) p
      (with_wallet-Books ctx db h)

-- The same for `ensureLoyaltyAccount` and `ensureLoyaltyProgram`.
abbrev pub loyalty_of : Context → Db → LoyaltyAccount
loyalty_of ctx db = elim (db.loyalty_account ctx.restaurant_id ctx.customer_id) [
  | some a ↦ a
  | none ↦ fresh_loyalty ctx db
]

abbrev pub with_loyalty : Context → Db → Db
with_loyalty ctx db = elim (db.loyalty_account ctx.restaurant_id ctx.customer_id) [
  | some a ↦ db
  | none ↦ put_loyalty_account ctx (fresh_loyalty ctx db) db
]

pub ensure_loyalty_account_lem :
    (ctx : Context) (db : Db)
    → ensure_loyalty_account ctx db ≡ (ok (loyalty_of ctx db), with_loyalty ctx db)
unfolding ensure_loyalty_account running
ensure_loyalty_account_lem ctx db = ground arith

pub with_loyalty-Books : (ctx : Context) (db : Db) → Books db → Books (with_loyalty ctx db)
with_loyalty-Books ctx db h r c = let hrc = h r c in ground arith

pub loyalty_of-points :
    (ctx : Context) (db : Db)
    → (loyalty_of ctx db).available_points
      ≡ points_balance ctx.restaurant_id ctx.customer_id (with_loyalty ctx db)
loyalty_of-points ctx db = ground arith

-- The tables once a row of points is posted; the account's counters are the caller's.
abbrev pub posted_points : Context → LoyaltyAccount → LoyaltyTransaction → Db → Db
posted_points ctx a t db =
    create_loyalty_transaction t (put_loyalty_account ctx a (with_loyalty ctx db))

pub posted_points-Books :
    (ctx : Context) (a : LoyaltyAccount) (t : LoyaltyTransaction) (db : Db)
    → (t.restaurant_id ≡ ctx.restaurant_id) × (t.customer_id ≡ ctx.customer_id)
    → a.available_points ≡ (loyalty_of ctx db).available_points +ℤ t.points
    → pos 0 ≤ℤ a.available_points
    → Books db
    → Books (posted_points ctx a t db)
posted_points-Books ctx a t db k e p h =
    post_points-Books ctx a t (with_loyalty ctx db) k
      (e ∙ ap (λ x. x +ℤ t.points) (loyalty_of-points ctx db)) p (with_loyalty-Books ctx db h)

abbrev pub program_of : ℕ → Db → LoyaltyProgram
program_of r db = elim (db.loyalty_program r) [ some p ↦ p | none ↦ default_program ]

abbrev pub with_program : ℕ → Db → Db
with_program r db = elim (db.loyalty_program r) [
  | some p ↦ db
  | none ↦ put_loyalty_program r default_program db
]

pub ensure_loyalty_program_lem :
    (r : ℕ) (db : Db) → ensure_loyalty_program r db ≡ (ok (program_of r db), with_program r db)
unfolding ensure_loyalty_program running
ensure_loyalty_program_lem r db = ground arith

pub with_program-Books : (r : ℕ) (db : Db) → Books db → Books (with_program r db)
with_program-Books k db h r c = let hrc = h r c in ground arith

-- A failed transaction keeps the books, since it writes nothing.
pub commit-Books {ℓ} :
    {A : Type ℓ} (db : Db) (m : Outcome Error A × Db) → Books db → Books m.1 → Books (commit db m).1
commit-Books db (ok a, db') h k = k
commit-Books db (err e, db') h k = h
