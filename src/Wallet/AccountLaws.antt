-- ===== src/Wallet/AccountLaws.antt =====
-- The administrator's adjustments and the wallet top-up keep the books.
use deliveryways.Prelude.{
  ℕ, ◌≡◌, Bool, false, some, none, arith, ok, err, refl, sym, subst, if◌then◌else◌, inl, inr,
  Bool-cases, Option-cases, or_default,
}
use deliveryways.Prelude.Int.{ℤ, pos, ◌+ℤ◌, ◌≤ℤ◌, ltb_ℤ, int_laws}
use deliveryways.Wallet.Store.{
  Db, Context, credit, adjustment, insufficient_balance, insufficient_points, points_adjustment,
  running,
}
use deliveryways.Wallet.Accounts.{
  signed, adjust_points, adjust_wallet, apply_wallet_top_up, wallet_row, find_top_up, loyalty_row,
}
use deliveryways.Wallet.Reconciled.{
  Books, wallet_of, with_wallet, ensure_wallet_account_lem, loyalty_of, ensure_loyalty_account_lem,
  with_program, ensure_loyalty_program_lem, with_program-Books, posted_wallet, posted_wallet-Books,
  posted_points-Books, posted_points, with_wallet-Books, wallet_of-balance, loyalty_of-points,
}

pub ltb_ℤ-false : (a b : ℤ) → ltb_ℤ a b ≡ false → b ≤ℤ a
ltb_ℤ-false a b h = ground arith

-- A credit of zero or more overdraws nothing.
pub wallet_of_nonneg :
    (ctx : Context) (db : Db) (n : ℕ) → Books db → pos 0 ≤ℤ (wallet_of ctx db).balance +ℤ pos n
wallet_of_nonneg ctx db n h =
    let own = h ctx.restaurant_id ctx.customer_id in grind (int_laws, wallet_of-balance ctx db)

pub loyalty_of_nonneg :
    (ctx : Context) (db : Db) (n : ℕ)
    → Books db
    → pos 0 ≤ℤ (loyalty_of ctx db).available_points +ℤ pos n
loyalty_of_nonneg ctx db n h =
    let own = h ctx.restaurant_id ctx.customer_id in grind (int_laws, loyalty_of-points ctx db)

-- An adjustment that would overdraw is refused; any other posts one row.
pub adjust_wallet_lem :
    (ctx : Context) (b : Bool) (n : ℕ) (db : Db)
    → let a = wallet_of ctx db in
      let next = a.balance +ℤ signed b n in
      let kind = if b then credit else adjustment in
      adjust_wallet ctx b n db ≡ (
        if ltb_ℤ next (pos 0) then (err insufficient_balance, db) else (
          ok next,
          posted_wallet ctx (wallet_row ctx none kind (signed b n) next a.currency) db,
        ))
unfolding adjust_wallet running
adjust_wallet_lem ctx b n db = ground (arith, ensure_wallet_account_lem ctx db)

pub adjust_wallet-Books :
    (ctx : Context) (b : Bool) (n : ℕ) (db : Db) → Books db → Books (adjust_wallet ctx b n db).1
adjust_wallet-Books ctx b n db h =
    let next = (wallet_of ctx db).balance +ℤ signed b n in
    subst (λ m. Books m.1) (sym (adjust_wallet_lem ctx b n db))
      (elim (Bool-cases (ltb_ℤ next (pos 0))) [
        | inl e ↦ rw e h
        | inr e ↦ rw e (posted_wallet-Books ctx _ db (refl, refl) (ltb_ℤ-false next (pos 0) e) h)
      ])

-- An adjustment of points does the same.
pub adjust_points_lem :
    (ctx : Context) (x : ℤ) (db : Db)
    → let db₁ = with_program ctx.restaurant_id db in
      let a = loyalty_of ctx db₁ in
      let next = a.available_points +ℤ x in
      let a' = record a {
        available_points = next;
        manual_adjusted_points = a.manual_adjusted_points +ℤ x;
      } in
      adjust_points ctx x db ≡ (
        if ltb_ℤ next (pos 0)
        then (err insufficient_points, db)
        else (ok next, posted_points ctx a' (loyalty_row ctx none points_adjustment x next) db₁))
unfolding adjust_points running
adjust_points_lem ctx x db = ground (
  arith,
  ensure_loyalty_program_lem ctx.restaurant_id db,
  ensure_loyalty_account_lem ctx (with_program ctx.restaurant_id db),
)

pub adjust_points-Books :
    (ctx : Context) (x : ℤ) (db : Db) → Books db → Books (adjust_points ctx x db).1
adjust_points-Books ctx x db h =
    let db₁ = with_program ctx.restaurant_id db in
    let next = (loyalty_of ctx db₁).available_points +ℤ x in
    subst (λ m. Books m.1) (sym (adjust_points_lem ctx x db))
      (elim (Bool-cases (ltb_ℤ next (pos 0))) [
        | inl e ↦ rw e h
        | inr e ↦ rw e (
            posted_points-Books ctx _ _ db₁ (refl, refl) refl (ltb_ℤ-false next (pos 0) e)
              (with_program-Books ctx.restaurant_id db h))
      ])

-- A top-up posts its amount once for each payment.
pub apply_wallet_top_up_lem :
    (ctx : Context) (n p : ℕ) (db : Db)
    → let a = wallet_of ctx db in
      let next = a.balance +ℤ pos n in
      let row =
        wallet_row ctx none credit (pos n) next (or_default (db.payment_currency p) a.currency) in
      apply_wallet_top_up ctx n p db ≡ elim (find_top_up p db) [
        | some t ↦ (ok (a.balance, t.amount), with_wallet ctx db)
        | none ↦ (
          ok (next, pos n),
          posted_wallet ctx (record row { payment_transaction_id = some p }) db,
        )
      ]
unfolding apply_wallet_top_up running
apply_wallet_top_up_lem ctx n p db = elim (Option-cases (find_top_up p db)) [
  | inl e ↦ rw e (ground (arith, ensure_wallet_account_lem ctx db))
  | inr (t, e) ↦ rw e (ground (arith, ensure_wallet_account_lem ctx db))
]

pub apply_wallet_top_up-Books :
    (ctx : Context) (n p : ℕ) (db : Db) → Books db → Books (apply_wallet_top_up ctx n p db).1
apply_wallet_top_up-Books ctx n p db h =
    subst (λ m. Books m.1) (sym (apply_wallet_top_up_lem ctx n p db))
      (elim (Option-cases (find_top_up p db)) [
        | inl e ↦ rw e (posted_wallet-Books ctx _ db (refl, refl) (wallet_of_nonneg ctx db n h) h)
        | inr (t, e) ↦ rw e (with_wallet-Books ctx db h)
      ])
