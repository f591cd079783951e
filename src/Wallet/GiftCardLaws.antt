-- ===== src/Wallet/GiftCardLaws.antt =====
-- Buying and redeeming a gift card keep the books.
use deliveryways.Prelude.{
  ℕ, ◌+◌, ◌≡◌, ◌≢◌, true, false, none, some, List, arith, if◌then◌else◌, ok, err, zero, suc, refl,
  sym, ap, ◌∙◌, subst, inl, inr, Option, leb, Bool-cases, or_default, Outcome,
}
use deliveryways.Prelude.Int.{pos, ◌+ℤ◌, sub_ℕ, ◌-ℤ◌, ltb_ℤ}
use deliveryways.Wallet.Reconciled.{
  wallet_of, with_wallet, ensure_wallet_account_lem, posted_wallet, Books, with_wallet-Books,
  posted_wallet-Books,
}
use deliveryways.Wallet.Accounts.{wallet_row}
use deliveryways.Wallet.GiftCards.{
  put_coupon, find_gift_card, is_redeemable, other_branch, at_limit, customer_usage, find_purchase,
  is_buyer, create_usage, card_check, redeem_code, redeem_gift_card_to_wallet,
  generate_unique_gift_card_code, add_days, bought_card, create_coupon, buy_card,
  purchase_gift_card_from_wallet,
}
use deliveryways.Wallet.Store.{
  credit, WalletTransaction, Coupon, Db, Context, buyer_redeems, running, debit, Error,
  insufficient_balance, bad_expiry, transaction, ◌>>=◌,
}
use deliveryways.Wallet.OrderLaws.{minus_plus}
use deliveryways.Wallet.AccountLaws.{wallet_of_nonneg, ltb_ℤ-false}
use deliveryways.Wallet.Keeps.{
  Keeps, Keeps-then, Keeps-fail_if, Keeps-transaction, put_coupon-Books, create_usage-Books,
  create_coupon-Books,
}

-- What a card has passed when `cardCheck` returns it, at a time, for a customer and a code.
pub record IsAccepted (ctx : Context) (now : ℕ) (code : List ℕ) (db : Db) (card : Coupon)
    : Type 0 where
  pub found : find_gift_card ctx.restaurant_id code db ≡ some card
  pub in_force : is_redeemable card now ≡ true
  pub branch_fits : other_branch card.branch_id ctx.branch_id ≡ false
  pub has_uses : at_limit card.max_uses card.used_count ≡ false
  pub own_uses :
      at_limit card.max_uses_per_customer (customer_usage card.id ctx.customer_id db.coupon_usages)
      ≡ false
  pub worth : card.discount_value ≢ 0

-- The check reads the tables only, and returns just the cards that pass.
pub card_check-IsAccepted :
    (ctx : Context) (now : ℕ) (code : List ℕ) (db : Db) {card : Coupon}
    → (card_check ctx now code db).0 ≡ ok card
    → IsAccepted ctx now code db card
unfolding card_check running
card_check-IsAccepted ctx now code db e = ground arith

pub card_check_reads :
    (ctx : Context) (now : ℕ) (code : List ℕ) (db : Db) → (card_check ctx now code db).1 ≡ db
unfolding card_check running
card_check_reads ctx now code db = ground arith

-- The tables once a card is used.
abbrev pub card_used : Context → List ℕ → Coupon → Db → Db
card_used ctx code card db =
    put_coupon ctx.restaurant_id code (record card { used_count = card.used_count + 1 })
      (create_usage card.id ctx.customer_id db)

abbrev pub card_row : Context → Coupon → Db → WalletTransaction
card_row ctx card db =
    let a = wallet_of ctx db in
    let amount = pos card.discount_value in
    wallet_row ctx none credit amount (a.balance +ℤ amount) a.currency

-- What redeeming a code does once the card has passed.
pub redeem_code_lem :
    (ctx : Context) (now : ℕ) (code : List ℕ) (card : Coupon) (db : Db)
    → card_check ctx now code db ≡ (ok card, db)
    → at_limit card.max_uses card.used_count ≡ false
    → redeem_code ctx now code db ≡ (
        if is_buyer ctx.customer_id (find_purchase ctx.restaurant_id code db)
        then (err buyer_redeems, with_wallet ctx db)
        else (
          ok ((wallet_of ctx db).balance +ℤ pos card.discount_value, card.discount_value),
          posted_wallet ctx (card_row ctx card db) (card_used ctx code card db),
        ))
unfolding redeem_code running
redeem_code_lem ctx now code card db e f =
    rw (e, redeem_code) (ground (arith, ensure_wallet_account_lem ctx db))

card_used-Books :
    (ctx : Context) (code : List ℕ) (card : Coupon) (db : Db)
    → Books db
    → Books (card_used ctx code card db)
card_used-Books ctx code card db h =
    put_coupon-Books ctx.restaurant_id code _ _ (create_usage-Books card.id ctx.customer_id db h)

accepted-Books :
    (ctx : Context) (now : ℕ) (code : List ℕ) (card : Coupon) (db : Db)
    → card_check ctx now code db ≡ (ok card, db)
    → Books db
    → Books (redeem_code ctx now code db).1
accepted-Books ctx now code card db e h =
    let fine = (card_check-IsAccepted ctx now code db (ap (λ m. m.0) e)).has_uses in
    let used = card_used ctx code card db in
    let h₁ : Books used = card_used-Books ctx code card db h in
    subst (λ m. Books m.1) (sym (redeem_code_lem ctx now code card db e fine))
      (elim (Bool-cases (is_buyer ctx.customer_id (find_purchase ctx.restaurant_id code db))) [
        | inl b ↦ rw b (with_wallet-Books ctx db h)
        | inr b ↦ rw b (
            posted_wallet-Books ctx (card_row ctx card db) used (refl, refl)
              (wallet_of_nonneg ctx used card.discount_value h₁) h₁)
      ])

refused-Books :
    (ctx : Context) (now : ℕ) (code : List ℕ) (x : Error) (db : Db)
    → card_check ctx now code db ≡ (err x, db)
    → Books db
    → Books (redeem_code ctx now code db).1
unfolding redeem_code ◌>>=◌
refused-Books ctx now code x db e h = rw (e, redeem_code) h

redeem_code-Keeps : (ctx : Context) (now : ℕ) (code : List ℕ) → Keeps (redeem_code ctx now code)
redeem_code-Keeps ctx now code = record {
  apply = λ db h. go db h (card_check ctx now code db) refl;
}
  where
    go :
        (db : Db)
        → Books db
        → (m : Outcome Error Coupon × Db) → card_check ctx now code db ≡ m
        → Books (redeem_code ctx now code db).1
    go db h (ok card, db') e =
        accepted-Books ctx now code card db
          (e ∙ ap (λ d. (ok card, d)) (sym (ap (λ m. m.1) e) ∙ card_check_reads ctx now code db)) h
    go db h (err x, db') e =
        let same : db' ≡ db = sym (ap (λ m. m.1) e) ∙ card_check_reads ctx now code db in
        refused-Books ctx now code x db (e ∙ ap (λ d. (err x, d)) same) h

-- Redeeming a gift card keeps the books.
pub redeem_gift_card_to_wallet-Keeps :
    (ctx : Context) (now : ℕ) (code : List ℕ) → Keeps (redeem_gift_card_to_wallet ctx now code)
unfolding redeem_gift_card_to_wallet
redeem_gift_card_to_wallet-Keeps ctx now code =
    Keeps-then (Keeps-fail_if _ _) (Keeps-transaction (redeem_code-Keeps ctx now _))

-- Finding a free code reads the tables only.
generate_reads :
    (attempts r : ℕ) (draw : ℕ → List ℕ) (db : Db)
    → (generate_unique_gift_card_code attempts r draw db).1 ≡ db
unfolding generate_unique_gift_card_code
generate_reads zero r draw db = refl
generate_reads (suc attempts) r draw db = ground (arith, generate_reads attempts r draw db)

-- The tables once a card is bought.
abbrev pub card_bought : Context → ℕ → Option ℕ → ℕ → ℕ → List ℕ → Db → Db
card_bought ctx amount branch now expires code db =
    let a = wallet_of ctx db in
    let card = bought_card db.next_id amount branch now expires in
    let row = wallet_row ctx none debit (sub_ℕ 0 amount) (a.balance -ℤ pos amount) a.currency in
    posted_wallet ctx (record row { gift_card_code = some code })
      (create_coupon ctx.restaurant_id code card db)

-- What a purchase does once a free code is found.
pub buy_card_lem :
    (ctx : Context) (amount : ℕ) (branch expires : Option ℕ) (now : ℕ) (draw : ℕ → List ℕ)
    (code : List ℕ) (db : Db)
    → generate_unique_gift_card_code 5 ctx.restaurant_id draw (with_wallet ctx db)
      ≡ (ok code, with_wallet ctx db)
    → let next = (wallet_of ctx db).balance -ℤ pos amount in
      let until = or_default expires (add_days now 365) in
      transaction (buy_card ctx amount branch expires now draw) db ≡ (
        if ltb_ℤ next (pos 0)
        then (err insufficient_balance, db)
        else (if leb until now
            then (err bad_expiry, db)
            else (ok (code, next), card_bought ctx amount branch now until code db)))
unfolding running
buy_card_lem ctx amount branch expires now draw code db e =
    ground
      (arith, ensure_wallet_account_lem ctx db, minus_plus (wallet_of ctx db).balance amount, e)

no_code_found :
    (ctx : Context) (amount : ℕ) (branch expires : Option ℕ) (now : ℕ) (draw : ℕ → List ℕ)
    (x : Error) (db : Db)
    → generate_unique_gift_card_code 5 ctx.restaurant_id draw (with_wallet ctx db)
      ≡ (err x, with_wallet ctx db)
    → (transaction (buy_card ctx amount branch expires now draw) db).1 ≡ db
unfolding running
no_code_found ctx amount branch expires now draw x db e =
    ground (arith, ensure_wallet_account_lem ctx db, e)

card_bought-Books :
    (ctx : Context) (amount : ℕ) (branch : Option ℕ) (now expires : ℕ) (code : List ℕ) (db : Db)
    → ltb_ℤ ((wallet_of ctx db).balance -ℤ pos amount) (pos 0) ≡ false
    → Books db
    → Books (card_bought ctx amount branch now expires code db)
card_bought-Books ctx amount branch now expires code db p h =
    let a = wallet_of ctx db in
    let card = bought_card db.next_id amount branch now expires in
    posted_wallet-Books ctx _ (create_coupon ctx.restaurant_id code card db) (refl, refl)
      (rw (← minus_plus a.balance amount) (ltb_ℤ-false (a.balance -ℤ pos amount) (pos 0) p))
      (create_coupon-Books ctx.restaurant_id code card db h)

bought-Books :
    (ctx : Context) (amount : ℕ) (branch expires : Option ℕ) (now : ℕ) (draw : ℕ → List ℕ)
    (code : List ℕ) (db : Db)
    → generate_unique_gift_card_code 5 ctx.restaurant_id draw (with_wallet ctx db)
      ≡ (ok code, with_wallet ctx db)
    → Books db
    → Books (transaction (buy_card ctx amount branch expires now draw) db).1
bought-Books ctx amount branch expires now draw code db e h =
    let next = (wallet_of ctx db).balance -ℤ pos amount in
    let until = or_default expires (add_days now 365) in
    subst (λ m. Books m.1) (sym (buy_card_lem ctx amount branch expires now draw code db e))
      (elim (Bool-cases (ltb_ℤ next (pos 0))) [
        | inl short ↦ rw short h
        | inr covered ↦ elim (Bool-cases (leb until now)) [
          | inl past ↦ rw (covered, past) h
          | inr future ↦
              rw (covered, future) (card_bought-Books ctx amount branch now until code db covered h)
        ]
      ])

buy_card-Keeps :
    (ctx : Context) (amount : ℕ) (branch expires : Option ℕ) (now : ℕ) (draw : ℕ → List ℕ)
    → Keeps (transaction (buy_card ctx amount branch expires now draw))
buy_card-Keeps ctx amount branch expires now draw = record {
  apply = λ db h.
      go db h (generate_unique_gift_card_code 5 ctx.restaurant_id draw (with_wallet ctx db)) refl;
}
  where
    go :
        (db : Db)
        → Books db
        → (m : Outcome Error (List ℕ) × Db)
        → generate_unique_gift_card_code 5 ctx.restaurant_id draw (with_wallet ctx db) ≡ m
        → Books (transaction (buy_card ctx amount branch expires now draw) db).1
    go db h (ok code, db') e =
        let same : db' ≡ with_wallet ctx db = sym (ap (λ m. m.1) e) ∙ generate_reads 5 _ draw _ in
        bought-Books ctx amount branch expires now draw code db (e ∙ ap (λ d. (ok code, d)) same) h
    go db h (err x, db') e =
        let same : db' ≡ with_wallet ctx db = sym (ap (λ m. m.1) e) ∙ generate_reads 5 _ draw _ in
        subst Books
          (sym
            (no_code_found ctx amount branch expires now draw x db (e ∙ ap (λ d. (err x, d)) same)))
          h

-- Buying a gift card keeps the books.
pub purchase_gift_card_from_wallet-Keeps :
    (ctx : Context) (amount : ℕ) (branch expires : Option ℕ) (now : ℕ) (draw : ℕ → List ℕ)
    → Keeps (purchase_gift_card_from_wallet ctx amount branch expires now draw)
unfolding purchase_gift_card_from_wallet
purchase_gift_card_from_wallet-Keeps ctx amount branch expires now draw =
    Keeps-then (Keeps-fail_if _ _) (buy_card-Keeps ctx amount branch expires now draw)
