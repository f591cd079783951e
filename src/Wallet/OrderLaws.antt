-- ===== src/Wallet/OrderLaws.antt =====
-- Taking, giving back and earning at an order, and the conversion of points, keep the books.
use deliveryways.Prelude.{
  ℕ, ◌≡◌, refl, sym, subst, inl, inr, some, arith, ◌==◌, if◌then◌else◌, Bool-cases, ok, err, ap,
  ◌∙◌,
}
use deliveryways.Prelude.Int.{ℤ, pos, sub_ℕ, ◌+ℤ◌, ◌-ℤ◌, ltb_ℤ}
use deliveryways.Wallet.AccountLaws.{ltb_ℤ-false}
use deliveryways.Wallet.Keeps.{Keeps, Keeps-then}
use deliveryways.Wallet.Reconciled.{
  Books, wallet_of, with_wallet, ensure_wallet_account_lem, with_wallet-Books, posted_wallet,
  posted_wallet-Books, points_balance, post_points-Books, loyalty_of, with_loyalty,
  ensure_loyalty_account_lem, with_loyalty-Books, with_program, ensure_loyalty_program_lem,
  with_program-Books, loyalty_of-points,
}
use deliveryways.Wallet.OrderBenefits.{debit_order, redeem_order, apply_order_benefits}
use deliveryways.Wallet.Accounts.{wallet_row, loyalty_row}
use deliveryways.Wallet.Store.{
  debit, Db, Context, insufficient_balance, redeem, insufficient_points, put_loyalty_account,
  create_loyalty_transaction, running,
}

pub minus_plus : (a : ℤ) (n : ℕ) → a -ℤ pos n ≡ a +ℤ sub_ℕ 0 n
unfolding ◌+ℤ◌ ◌-ℤ◌
minus_plus a n = ground arith

-- Debiting an order refuses an overdraft and posts one row for any other amount but 0.
pub debit_order_lem :
    (ctx : Context) (o n : ℕ) (db : Db)
    → let a = wallet_of ctx db in
      let next = a.balance -ℤ pos n in
      let row = wallet_row ctx (some o) debit (sub_ℕ 0 n) next a.currency in
      debit_order ctx o n db ≡ (
        if n == 0
        then (ok tt, db)
        else (if ltb_ℤ next (pos 0)
            then (err insufficient_balance, with_wallet ctx db)
            else (ok tt, posted_wallet ctx row db)))
unfolding running
debit_order_lem ctx o n db =
    ground (arith, ensure_wallet_account_lem ctx db, minus_plus (wallet_of ctx db).balance n)

debit_order-Books :
    (ctx : Context) (o n : ℕ) (db : Db) → Books db → Books (debit_order ctx o n db).1
debit_order-Books ctx o n db h =
    let next = (wallet_of ctx db).balance -ℤ pos n in
    subst (λ m. Books m.1) (sym (debit_order_lem ctx o n db))
      (elim (Bool-cases (n == 0)) [
        | inl z ↦ rw z h
        | inr z ↦ elim (Bool-cases (ltb_ℤ next (pos 0))) [
          | inl e ↦ rw (z, e) (with_wallet-Books ctx db h)
          | inr e ↦
              rw (z, e)
                (posted_wallet-Books ctx _ db (refl, refl)
                  (rw (← minus_plus (wallet_of ctx db).balance n) (ltb_ℤ-false next (pos 0) e)) h)
        ]
      ])

-- Redeeming points at an order, in the same form. The program is made before the check.
pub redeem_order_lem :
    (ctx : Context) (o n : ℕ) (db : Db)
    → let a = loyalty_of ctx db in
      let next = a.available_points -ℤ pos n in
      let a' = record a {
        available_points = next;
        lifetime_redeemed_points = a.lifetime_redeemed_points +ℤ pos n;
      } in
      let row = loyalty_row ctx (some o) redeem (sub_ℕ 0 n) next in
      redeem_order ctx o n db ≡ (
        if n == 0
        then (ok tt, db)
        else (if ltb_ℤ next (pos 0)
            then (err insufficient_points, with_program ctx.restaurant_id (with_loyalty ctx db))
            else (
              ok tt,
              create_loyalty_transaction row (
                  put_loyalty_account ctx a'
                    (with_program ctx.restaurant_id (with_loyalty ctx db))),
            )))
unfolding running
redeem_order_lem ctx o n db = ground (
  arith,
  ensure_loyalty_account_lem ctx db,
  ensure_loyalty_program_lem ctx.restaurant_id (with_loyalty ctx db),
)

pub with_program-points :
    (r c k : ℕ) (db : Db) → points_balance r c (with_program k db) ≡ points_balance r c db
with_program-points r c k db = ground arith

own_points :
    (ctx : Context) (n : ℕ) (db : Db)
    → (loyalty_of ctx db).available_points -ℤ pos n
      ≡ points_balance ctx.restaurant_id ctx.customer_id
          (with_program ctx.restaurant_id (with_loyalty ctx db))
        +ℤ sub_ℕ 0 n
own_points ctx n db =
    let r = ctx.restaurant_id in
    minus_plus _ n
    ∙ ap (λ x. x +ℤ sub_ℕ 0 n)
        (loyalty_of-points ctx db
          ∙ sym (with_program-points r ctx.customer_id r (with_loyalty ctx db)))

redeem_order-Books :
    (ctx : Context) (o n : ℕ) (db : Db) → Books db → Books (redeem_order ctx o n db).1
redeem_order-Books ctx o n db h =
    let next = (loyalty_of ctx db).available_points -ℤ pos n in
    let db₁ = with_program ctx.restaurant_id (with_loyalty ctx db) in
    let h₁ : Books db₁ = with_program-Books ctx.restaurant_id _ (with_loyalty-Books ctx db h) in
    subst (λ m. Books m.1) (sym (redeem_order_lem ctx o n db))
      (elim (Bool-cases (n == 0)) [
        | inl z ↦ rw z h
        | inr z ↦ elim (Bool-cases (ltb_ℤ next (pos 0))) [
          | inl e ↦ rw (z, e) h₁
          | inr e ↦
              rw (z, e)
                (post_points-Books ctx _ _ db₁ (refl, refl) (own_points ctx n db)
                  (ltb_ℤ-false next (pos 0) e) h₁)
        ]
      ])

-- Taking what an order uses keeps the books.
pub apply_order_benefits-Keeps :
    (ctx : Context) (o w p : ℕ) → Keeps (apply_order_benefits ctx o w p)
unfolding apply_order_benefits
apply_order_benefits-Keeps ctx o w p =
    Keeps-then (record { apply = debit_order-Books ctx o w })
      (record { apply = redeem_order-Books ctx o p })
