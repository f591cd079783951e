-- ===== src/Wallet/EarnLaws.antt =====
-- Earning points for an order, and turning points into money, keep the books.
use deliveryways.Prelude.{
  ℕ, ◌*◌, ◌≡◌, refl, sym, subst, Bool, none, some, arith, if◌then◌else◌, ok, err, inl, inr,
  Bool-cases, false,
}
use deliveryways.Prelude.Int.{pos, sub_ℕ, ◌+ℤ◌, ◌-ℤ◌, ltb_ℤ, ℤ, ◌≤ℤ◌, int_laws}
use deliveryways.Wallet.AccountLaws.{loyalty_of_nonneg, wallet_of_nonneg}
use deliveryways.Wallet.Keeps.{
  Keeps, Keeps-bind, Keeps-program, keeping, put_order-Books, Keeps-then, Keeps-fail_if,
}
use deliveryways.Wallet.Reconciled.{
  Books, wallet_of, ensure_wallet_account_lem, posted_wallet, loyalty_of, with_loyalty,
  ensure_loyalty_account_lem, posted_points, posted_points-Books, posted_wallet-Books,
}
use deliveryways.Wallet.OrderBenefits.{
  order_context, points_for, expiry, award, award_points_for_paid_order, convert_points,
  redeem_points_to_wallet,
}
use deliveryways.Wallet.Accounts.{loyalty_row, wallet_row}
use deliveryways.Wallet.Store.{
  loyalty_redemption, earn, redeem, LoyaltyAccount, LoyaltyTransaction, LoyaltyProgram, Order, Db,
  Context, insufficient_points, transaction, put_order, running,
}
use deliveryways.Wallet.OrderLaws.{minus_plus}

earned_account : Order → LoyaltyProgram → Db → LoyaltyAccount
earned_account order program db =
    let a = loyalty_of (order_context order) db in
    let points = pos (points_for order program) in
    record a {
      available_points = a.available_points +ℤ points;
      lifetime_earned_points = a.lifetime_earned_points +ℤ points;
    }

earn_row : ℕ → Order → LoyaltyProgram → ℕ → Db → LoyaltyTransaction
earn_row o order program now db =
    let ctx = order_context order in
    let points = pos (points_for order program) in
    let row =
      loyalty_row ctx (some o) earn points ((loyalty_of ctx db).available_points +ℤ points) in
    record row { expires_at = expiry program now }

award_lem :
    (o : ℕ) (order : Order) (program : LoyaltyProgram) (now : ℕ) (db : Db)
    → let points = points_for order program in
      award o order program now db ≡ (
        ok (some points),
        put_order o
            (record order { loyalty_points_awarded = points })
            (posted_points
              (order_context order)
              (earned_account order program db)
              (earn_row o order program now db)
              db),
      )
unfolding earned_account earn_row running
award_lem o order program now db =
    ground (arith, ensure_loyalty_account_lem (order_context order) db)

award-Keeps :
    (o : ℕ) (order : Order) (program : LoyaltyProgram) (now : ℕ) → Keeps (award o order program now)
unfolding earned_account earn_row
award-Keeps o order program now = record {
  apply = λ db h.
      let ctx = order_context order in
      subst (λ m. Books m.1) (sym (award_lem o order program now db))
        (put_order-Books o _ _ (
          posted_points-Books ctx _ _ db (refl, refl) refl
            (loyalty_of_nonneg ctx db (points_for order program) h) h));
}

-- An award keeps the books.
pub award_points_for_paid_order-Keeps :
    (o : ℕ) (allow : Bool) (now : ℕ) → Keeps (award_points_for_paid_order o allow now)
unfolding award_points_for_paid_order
award_points_for_paid_order-Keeps o allow now = search (keeping, award-Keeps) depth 12

-- The points of a conversion go first.
abbrev pub points_taken : Context → ℕ → Db → Db
points_taken ctx points db =
    let loyalty = loyalty_of ctx db in
    let next_points = loyalty.available_points -ℤ pos points in
    let a = record loyalty {
      available_points = next_points;
      lifetime_redeemed_points = loyalty.lifetime_redeemed_points +ℤ pos points;
    } in
    posted_points ctx a (loyalty_row ctx none redeem (sub_ℕ 0 points) next_points) db

-- Their value in cents comes to the wallet.
abbrev pub value_given : Context → ℕ → Db → Db
value_given ctx amount db =
    let wallet = wallet_of ctx db in
    posted_wallet ctx
      (wallet_row ctx none loyalty_redemption (pos amount) (wallet.balance +ℤ pos amount)
        wallet.currency)
      db

-- A conversion of more points than there are is refused; any other does both postings.
pub convert_points_lem :
    (ctx : Context) (program : LoyaltyProgram) (n : ℕ) (db : Db)
    → let points = (loyalty_of ctx db).available_points in
      let amount = n * program.redemption_value_per_point in
      transaction (convert_points ctx program n) db ≡ (
        if ltb_ℤ points (pos n) then (err insufficient_points, db) else (
          ok (points -ℤ pos n, (wallet_of ctx db).balance +ℤ pos amount),
          value_given ctx amount (points_taken ctx n db),
        ))
unfolding running
convert_points_lem ctx program n db =
    ground (
      arith,
      ensure_loyalty_account_lem ctx db,
      ensure_wallet_account_lem ctx (with_loyalty ctx db),
    )

not_short : (a : ℤ) (n : ℕ) → ltb_ℤ a (pos n) ≡ false → pos 0 ≤ℤ a -ℤ pos n
not_short a n e = grind int_laws

points_taken-Books :
    (ctx : Context) (n : ℕ) (db : Db)
    → pos 0 ≤ℤ (loyalty_of ctx db).available_points -ℤ pos n
    → Books db
    → Books (points_taken ctx n db)
points_taken-Books ctx n db p h = posted_points-Books ctx _ _ db (refl, refl) (minus_plus _ n) p h

value_given-Books :
    (ctx : Context) (amount : ℕ) (db : Db) → Books db → Books (value_given ctx amount db)
value_given-Books ctx amount db h =
    posted_wallet-Books ctx _ db (refl, refl) (wallet_of_nonneg ctx db amount h) h

convert_points-Keeps :
    (ctx : Context) (program : LoyaltyProgram) (n : ℕ)
    → Keeps (transaction (convert_points ctx program n))
convert_points-Keeps ctx program n = record {
  apply = λ db h.
      let points = (loyalty_of ctx db).available_points in
      subst (λ m. Books m.1) (sym (convert_points_lem ctx program n db))
        (elim (Bool-cases (ltb_ℤ points (pos n))) [
          | inl e ↦ rw e h
          | inr e ↦
              rw e
                (value_given-Books ctx _ _ (points_taken-Books ctx n db (not_short points n e) h))
        ]);
}

-- A conversion keeps the books.
pub redeem_points_to_wallet-Keeps : (ctx : Context) (n : ℕ) → Keeps (redeem_points_to_wallet ctx n)
unfolding redeem_points_to_wallet
redeem_points_to_wallet-Keeps ctx n = Keeps-bind (Keeps-program _) λ program.
    Keeps-then (Keeps-fail_if _ _) (
      Keeps-then (Keeps-fail_if _ _)
        (Keeps-then (Keeps-fail_if _ _) (convert_points-Keeps ctx program n)))
