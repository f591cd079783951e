-- ===== src/Wallet/Keeps.antt =====
-- Which actions on the tables keep the books, by the way they are put together.
use deliveryways.Prelude.{
  Bool, true, false, Option, none, some, if◌then◌else◌, Outcome, ok, err, ℕ, List, arith,
}
use deliveryways.Wallet.Store.{
  ◌>>=◌, Db, Error, Action, or_fail, commit, transaction, fail_if, proceed, Coupon, Order, Context,
  pure, gets, put_order, running, ◌>>◌,
}
use deliveryways.Wallet.Reconciled.{
  Books, ensure_wallet_account_lem, with_wallet-Books, ensure_loyalty_account_lem,
  with_loyalty-Books, ensure_loyalty_program_lem, with_program-Books,
}
use deliveryways.Wallet.Accounts.{
  ensure_wallet_account, ensure_loyalty_account, ensure_loyalty_program,
}
use deliveryways.Wallet.GiftCards.{put_coupon, create_usage, create_coupon}

-- Whatever the call returns or throws, the books that held before it hold after it.
pub record Keeps {ℓ} {A : Type ℓ} (m : Action A) : Type 0 where
  pub apply : (db : Db) → Books db → Books (m db).1

pub Keeps-bind {ℓ κ} :
    {A : Type ℓ} {B : Type κ} {m : Action A} {f : A → Action B}
    → Keeps m
    → ((a : A) → Keeps (f a))
    → Keeps (m >>= f)
unfolding running
Keeps-bind {A} {B} {m} {f} hm hf = record { apply = λ db h. after (m db) (hm.apply db h) }
  where
    after : (x : Outcome Error A × Db) → Books x.1 → Books (proceed f x).1
    after (ok a, db') k = (hf a).apply db' k
    after (err e, db') k = k

pub Keeps-then {ℓ κ} :
    {A : Type ℓ} {B : Type κ} {m : Action A} {n : Action B} → Keeps m → Keeps n → Keeps (m >> n)
unfolding ◌>>◌
Keeps-then hm hn = Keeps-bind hm (λ a. hn)

pub Keeps-fail_if : (b : Bool) (e : Error) → Keeps (fail_if b e)
unfolding running
Keeps-fail_if true e = record { apply = λ db h. h }
Keeps-fail_if false e = record { apply = λ db h. h }

pub Keeps-or_fail {ℓ} : {A : Type ℓ} (o : Option A) (e : Error) → Keeps (or_fail o e)
unfolding running
Keeps-or_fail none e = record { apply = λ db h. h }
Keeps-or_fail (some a) e = record { apply = λ db h. h }

pub Keeps-if {ℓ} :
    {A : Type ℓ} (b : Bool) {m n : Action A} → Keeps m → Keeps n → Keeps (if b then m else n)
Keeps-if true hm hn = hm
Keeps-if false hm hn = hn

-- A failed transaction writes nothing.
pub Keeps-transaction {ℓ} : {A : Type ℓ} {m : Action A} → Keeps m → Keeps (transaction m)
unfolding running
Keeps-transaction {A} {m} hm = record { apply = λ db h. after db h (m db) (hm.apply db h) }
  where
    after : (db : Db) → Books db → (x : Outcome Error A × Db) → Books x.1 → Books (commit db x).1
    after db h (ok a, db') k = k
    after db h (err e, db') k = h

pub Keeps-pure {ℓ} : {A : Type ℓ} (a : A) → Keeps (pure a)
unfolding running
Keeps-pure a = record { apply = λ db h. h }

pub Keeps-gets {ℓ} : {A : Type ℓ} (f : Db → A) → Keeps (gets f)
unfolding running
Keeps-gets f = record { apply = λ db h. h }

pub Keeps-wallet : (ctx : Context) → Keeps (ensure_wallet_account ctx)
Keeps-wallet ctx = record {
  apply = λ db h. rw (ensure_wallet_account_lem ctx db) (with_wallet-Books ctx db h);
}

pub Keeps-loyalty : (ctx : Context) → Keeps (ensure_loyalty_account ctx)
Keeps-loyalty ctx = record {
  apply = λ db h. rw (ensure_loyalty_account_lem ctx db) (with_loyalty-Books ctx db h);
}

pub Keeps-program : (r : ℕ) → Keeps (ensure_loyalty_program r)
Keeps-program r = record {
  apply = λ db h. rw (ensure_loyalty_program_lem r db) (with_program-Books r db h);
}

-- The tables that the books do not speak of may change.
pub put_order-Books : (o : ℕ) (row : Order) (db : Db) → Books db → Books (put_order o row db)
put_order-Books o row db h r c = let own = h r c in ground arith

pub put_coupon-Books :
    (r : ℕ) (code : List ℕ) (row : Coupon) (db : Db) → Books db → Books (put_coupon r code row db)
put_coupon-Books k code row db h r c = let own = h r c in ground arith

pub create_coupon-Books :
    (r : ℕ) (code : List ℕ) (row : Coupon) (db : Db)
    → Books db
    → Books (create_coupon r code row db)
create_coupon-Books k code row db h r c = let own = h r c in ground arith

pub create_usage-Books : (card who : ℕ) (db : Db) → Books db → Books (create_usage card who db)
create_usage-Books card who db h r c = let own = h r c in ground arith

pub ruleset keeping = (
  Keeps-bind, Keeps-fail_if, Keeps-or_fail, Keeps-if, Keeps-transaction, Keeps-pure, Keeps-gets,
  Keeps-wallet, Keeps-loyalty, Keeps-program,
)
