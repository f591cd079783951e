-- ===== src/Wallet/GiftCardUse.antt =====
-- When a gift card may be redeemed, and how often.
use deliveryways.Prelude.{
  ℕ, ◌≡◌, false, List, ok, refl, sym, ap, ◌∙◌, Outcome, err, Bool, true, arith, is_empty, ◌+◌,
  subst, ◌≢◌, some, text_eq_refl, Option,
}
use deliveryways.Prelude.Int.{ℤ, pos, ◌+ℤ◌}
use deliveryways.Wallet.GiftCardLaws.{
  IsAccepted, card_used, card_row, card_check-IsAccepted, card_check_reads, redeem_code_lem,
}
use deliveryways.Wallet.Reconciled.{wallet_of, posted_wallet}
use deliveryways.Wallet.GiftCards.{
  normalize_gift_card_code, find_purchase, is_buyer, redeem_gift_card_to_wallet, card_check,
  redeem_code, at_limit, find_gift_card,
}
use deliveryways.Wallet.Store.{
  Coupon, Db, Context, Error, transaction, fail_if, ◌>>◌, ◌>>=◌, code_required, commit, Action,
  WalletTransaction,
}

-- A transaction that returns has committed.
commit_ok :
    (db : Db) (m : Outcome Error (ℤ × ℕ) × Db) {out : ℤ × ℕ}
    → (commit db m).0 ≡ ok out
    → (m.0 ≡ ok out) × ((commit db m).1 ≡ m.1)
commit_ok db (ok u, d) h = (h, refl)
commit_ok db (err x, d) h = absurd (cc h)

-- A redemption that returns is its transaction's.
redeem_splits :
    (ctx : Context) (now : ℕ) (code : List ℕ) (db : Db) {out : ℤ × ℕ}
    → let k = normalize_gift_card_code code in
      (redeem_gift_card_to_wallet ctx now code db).0 ≡ ok out
      → ((redeem_code ctx now k db).0 ≡ ok out)
        × ((redeem_gift_card_to_wallet ctx now code db).1 ≡ (redeem_code ctx now k db).1)
unfolding redeem_gift_card_to_wallet transaction fail_if ◌>>◌ ◌>>=◌
redeem_splits ctx now code db {out} e =
    go (is_empty (normalize_gift_card_code code))
      (redeem_code ctx now (normalize_gift_card_code code)) e
  where
    go :
        (b : Bool) (act : Action (ℤ × ℕ))
        → let r = (fail_if b code_required >> transaction act) db in
          r.0 ≡ ok out → ((act db).0 ≡ ok out) × (r.1 ≡ (act db).1)
    go true act h = absurd (cc h)
    go false act h = commit_ok db (act db) h

refused :
    (ctx : Context) (now : ℕ) (k : List ℕ) (db : Db) (x : Error)
    → card_check ctx now k db ≡ (err x, db)
    → (redeem_code ctx now k db).0 ≡ err x
unfolding redeem_code ◌>>=◌
refused ctx now k db x e = rw (e, redeem_code) refl

-- In a transaction that returns, the card was accepted.
redeem_code-IsAccepted :
    (ctx : Context) (now : ℕ) (k : List ℕ) (db : Db) {out : ℤ × ℕ}
    → (redeem_code ctx now k db).0 ≡ ok out
    → (card : Coupon) × (card_check ctx now k db ≡ (ok card, db))
redeem_code-IsAccepted ctx now k db {out} e = go (card_check ctx now k db) refl
  where
    go :
        (m : Outcome Error Coupon × Db)
        → card_check ctx now k db ≡ m
        → (card : Coupon) × (card_check ctx now k db ≡ (ok card, db))
    go (ok card, d) h =
        (card, h ∙ ap (λ x. (ok card, x)) (sym (ap (λ m. m.1) h) ∙ card_check_reads ctx now k db))
    go (err x, d) h =
        let same : d ≡ db = sym (ap (λ m. m.1) h) ∙ card_check_reads ctx now k db in
        let thrown = refused ctx now k db x (h ∙ ap (λ y. (err x, y)) same) in
        absurd (cc (sym thrown ∙ e))

-- What an accepted card's redemption returned, and that the customer is not the buyer.
accepted_effect :
    (ctx : Context) (now : ℕ) (k : List ℕ) (card : Coupon) (db : Db) {balance : ℤ} {amount : ℕ}
    → card_check ctx now k db ≡ (ok card, db)
    → at_limit card.max_uses card.used_count ≡ false
    → (redeem_code ctx now k db).0 ≡ ok (balance, amount)
    → (is_buyer ctx.customer_id (find_purchase ctx.restaurant_id k db) ≡ false)
      × (amount ≡ card.discount_value)
      × (balance ≡ (wallet_of ctx db).balance +ℤ pos amount)
      × ((redeem_code ctx now k db).1
          ≡ posted_wallet ctx (card_row ctx card db) (card_used ctx k card db))
accepted_effect ctx now k card db e f r = ground (arith, redeem_code_lem ctx now k card db e f)

-- A redemption that returns found a card that is in force at the time, fits the branch, has uses
-- left for everyone and for the customer, is worth something and was not bought by the customer. It
-- credits the card's value, counts the use and writes one wallet row; it does nothing else.
pub redeem_effect :
    (ctx : Context) (now : ℕ) (code : List ℕ) (db : Db) {balance : ℤ} {amount : ℕ}
    → let k = normalize_gift_card_code code in
      let called = redeem_gift_card_to_wallet ctx now code db in
      called.0 ≡ ok (balance, amount)
      → (card : Coupon) × IsAccepted ctx now k db card
        × (is_buyer ctx.customer_id (find_purchase ctx.restaurant_id k db) ≡ false)
        × (amount ≡ card.discount_value)
        × (balance ≡ (wallet_of ctx db).balance +ℤ pos amount)
        × (called.1 ≡ posted_wallet ctx (card_row ctx card db) (card_used ctx k card db))
redeem_effect ctx now code db e =
    let k = normalize_gift_card_code code in
    let (inner, after) = redeem_splits ctx now code db e in
    let (card, checked) = redeem_code-IsAccepted ctx now k db inner in
    let accepted : IsAccepted ctx now k db card =
      card_check-IsAccepted ctx now k db (ap (λ m. m.0) checked) in
    let (bought, worth, added, tables) =
      accepted_effect ctx now k card db checked accepted.has_uses inner in
    (card, accepted, bought, worth, added, after ∙ tables)

-- The card that the code finds once it is used.
find_used :
    (ctx : Context) (k : List ℕ) (card : Coupon) (t : WalletTransaction) (db : Db)
    → find_gift_card ctx.restaurant_id k db ≡ some card
    → find_gift_card ctx.restaurant_id k (posted_wallet ctx t (card_used ctx k card db))
      ≡ some (record card { used_count = card.used_count + 1 })
find_used ctx k card t db found = ground (arith, text_eq_refl k)

used_up :
    (card next : Coupon)
    → card.max_uses ≡ some (card.used_count + 1)
    → ◌≡◌ {A = Option Coupon} (some next) (some (record card { used_count = card.used_count + 1 }))
    → at_limit next.max_uses next.used_count ≡ true
used_up card next last e =
    let same : next ≡ record card { used_count = card.used_count + 1 } = cc e in
    rw (same, last) (ground arith)

-- A card whose last use is redeemed is used up: no customer of the restaurant redeems it again, at
-- no time.
pub redeem_last_use :
    (ctx ctx' : Context) (now now' : ℕ) (code : List ℕ) (card : Coupon) (db : Db) {balance : ℤ}
    {amount : ℕ} {out : ℤ × ℕ}
    → ctx'.restaurant_id ≡ ctx.restaurant_id
    → find_gift_card ctx.restaurant_id (normalize_gift_card_code code) db ≡ some card
    → card.max_uses ≡ some (card.used_count + 1)
    → (redeem_gift_card_to_wallet ctx now code db).0 ≡ ok (balance, amount)
    → (redeem_gift_card_to_wallet ctx' now' code (redeem_gift_card_to_wallet ctx now code db).1).0
      ≢ ok out
redeem_last_use ctx ctx' now now' code card db {out = out} same found last e again =
    let k = normalize_gift_card_code code in
    let (card₁, acc₁, nb₁, w₁, b₁, tables) = redeem_effect ctx now code db e in
    let (card₂, acc₂, nb₂, w₂, b₂, t₂) =
      redeem_effect ctx' now' code (redeem_gift_card_to_wallet ctx now code db).1 again in
    let is_card : card₁ ≡ card = cc (sym acc₁.found ∙ found) in
    let after = (redeem_gift_card_to_wallet ctx now code db).1 in
    let there : find_gift_card ctx.restaurant_id k after ≡ some card₂ =
      subst (λ r. find_gift_card r k after ≡ some card₂) same acc₂.found in
    let written = subst (λ d. find_gift_card ctx.restaurant_id k d ≡ some card₂) tables there in
    let used = find_used ctx k card₁ (card_row ctx card₁ db) db acc₁.found in
    let full =
      used_up card₁ card₂ (subst (λ c. c.max_uses ≡ some (c.used_count + 1)) (sym is_card) last)
        (sym written ∙ used) in
    absurd (cc (sym full ∙ acc₂.has_uses))
