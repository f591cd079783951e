-- ===== src/Wallet/GiftCards.antt =====
-- loyalty-wallet.service.ts: gift cards bought from a wallet and redeemed to one. A code is the
-- list of its characters' codes. The random bytes
-- of a new code are an argument, one draw for each attempt.
use deliveryways.Prelude.{
  ℕ, List, Option, Bool, map, some, or_default, sum_by, true, false, find, suc, ltb, not, leb, zero,
  ◌+◌, ◌*◌, ◌&&◌, none, [], ◌∷◌, ◌++◌, ◌==◌, if◌then◌else◌, is_some, ok, err, upper, trim, text_eq,
  is_empty,
}
use deliveryways.Prelude.Int.{ℤ, pos, sub_ℕ, ◌+ℤ◌, ◌-ℤ◌, ltb_ℤ}
use deliveryways.Wallet.Store.{
  CouponCampaignKind, CouponStatus, Coupon, WalletTransactionType, Context, Db, WalletTransaction,
  Action, gift_card, throw, no_code, active, ◌>>=◌, ◌>>◌, credit, debit, suspended,
  insufficient_balance, code_required, not_found, not_active, wrong_branch, usage_limit,
  customer_limit, bad_amount, buyer_redeems, bad_expiry, pure, gets, or_fail, transaction, fail_if,
  modify, put_wallet_account, create_wallet_transaction,
}
use deliveryways.Auth.{is_id}
use deliveryways.Wallet.Accounts.{ensure_wallet_account, wallet_row}

-- `code.trim().toUpperCase()`
abbrev trim_upper : List ℕ → List ℕ
trim_upper code = map upper (trim code)

-- The five characters of `DWGC:`.
abbrev pub qr_prefix : List ℕ
qr_prefix = b'D' ∷ b'W' ∷ b'G' ∷ b'C' ∷ 58 ∷ []

-- What follows a prefix, if the text starts with it.
abbrev pub after_prefix : List ℕ → List ℕ → Option (List ℕ)
after_prefix [] cs = some cs
after_prefix (p ∷ ps) [] = none
after_prefix (p ∷ ps) (c ∷ cs) = if p == c then after_prefix ps cs else none

unfoldable pub normalize_gift_card_code : List ℕ → List ℕ
normalize_gift_card_code code =
    or_default (after_prefix qr_prefix (trim_upper code)) (trim_upper code)

unfoldable pub build_gift_card_qr_payload : List ℕ → List ℕ
build_gift_card_qr_payload code = qr_prefix ++ code

abbrev pub put_coupon : ℕ → List ℕ → Coupon → Db → Db
put_coupon r code row db = record db {
  coupon = λ r' code'. if r' == r && text_eq code' code then some row else db.coupon r' code';
}

abbrev is_gift_card : CouponCampaignKind → Bool
is_gift_card gift_card = true
is_gift_card _ = false

abbrev pub is_active_status : CouponStatus → Bool
is_active_status active = true
is_active_status suspended = false

-- `tx.coupon.findFirst` with the gift card's filter
abbrev pub find_gift_card : ℕ → List ℕ → Db → Option Coupon
find_gift_card r code db = elim (db.coupon r code) [
  | none ↦ none
  | some row ↦ if is_gift_card row.kind && not row.is_deleted then some row else none
]

abbrev not_started : Option ℕ → ℕ → Bool
not_started none now = false
not_started (some t) now = ltb now t

abbrev has_expired : Option ℕ → ℕ → Bool
has_expired none now = false
has_expired (some t) now = ltb t now

abbrev pub is_redeemable : Coupon → ℕ → Bool
is_redeemable card now =
    card.is_active
    && is_active_status card.status
    && not (not_started card.starts_at now)
    && not (has_expired card.expires_at now)

-- The card is bound to a branch that is not the customer's.
abbrev pub other_branch : Option ℕ → Option ℕ → Bool
other_branch none own = false
other_branch (some b) own = not (is_id b own)

-- `limit !== null && used >= limit`
abbrev pub at_limit : Option ℕ → ℕ → Bool
at_limit none used = false
at_limit (some limit) used = leb limit used

-- `couponUsage.count` for one coupon and one customer
abbrev pub customer_usage : ℕ → ℕ → List (ℕ × ℕ) → ℕ
customer_usage card who = sum_by (λ u. if u.0 == card && u.1 == who then 1 else 0)

abbrev is_debit : WalletTransactionType → Bool
is_debit debit = true
is_debit _ = false

abbrev has_code : List ℕ → Option (List ℕ) → Bool
has_code code none = false
has_code code (some c) = text_eq c code

-- The row of the wallet that paid for the card.
abbrev pub find_purchase : ℕ → List ℕ → Db → Option WalletTransaction
find_purchase r code db =
    find (λ t. t.restaurant_id == r && is_debit t.kind && has_code code t.gift_card_code)
      db.wallet_transactions

abbrev pub is_buyer : ℕ → Option WalletTransaction → Bool
is_buyer who none = false
is_buyer who (some t) = t.customer_id == who

-- `updateMany` with `usedCount: { lt: maxUses }`, or a plain increment where there is no limit.
abbrev pub count_use : ℕ → List ℕ → Coupon → Action (Unit {0})
count_use r code card =
    if at_limit card.max_uses card.used_count
    then throw usage_limit
    else modify (put_coupon r code (record card { used_count = card.used_count + 1 }))

abbrev pub create_usage : ℕ → ℕ → Db → Db
create_usage card who db = record db { coupon_usages = (card, who) ∷ db.coupon_usages }

-- What refuses a card before anything is written.
unfoldable pub card_check : Context → ℕ → List ℕ → Action Coupon
card_check ctx now code = do
  found ← gets (find_gift_card ctx.restaurant_id code)
  card ← or_fail found not_found
  fail_if (not (is_redeemable card now)) not_active
  fail_if (other_branch card.branch_id ctx.branch_id) wrong_branch
  fail_if (at_limit card.max_uses card.used_count) usage_limit
  used ← gets (λ db. customer_usage card.id ctx.customer_id db.coupon_usages)
  fail_if (at_limit card.max_uses_per_customer used) customer_limit
  fail_if (card.discount_value == 0) bad_amount
  pure card

-- The transaction of `redeemGiftCardToWallet`. It returns the balance and the amount credited.
unfoldable pub redeem_code : Context → ℕ → List ℕ → Action (ℤ × ℕ)
redeem_code ctx now code = do
  card ← card_check ctx now code
  account ← ensure_wallet_account ctx
  let next_balance = account.balance +ℤ pos card.discount_value
  purchase ← gets (find_purchase ctx.restaurant_id code)
  fail_if (is_buyer ctx.customer_id purchase) buyer_redeems
  modify (create_usage card.id ctx.customer_id)
  count_use ctx.restaurant_id code card
  modify (put_wallet_account ctx (record account { balance = next_balance }))
  modify (
      create_wallet_transaction
        (wallet_row ctx none credit (pos card.discount_value) next_balance account.currency))
  pure (next_balance, card.discount_value)

unfoldable pub redeem_gift_card_to_wallet : Context → ℕ → List ℕ → Action (ℤ × ℕ)
redeem_gift_card_to_wallet ctx now code = do
  let normalized = normalize_gift_card_code code
  fail_if (is_empty normalized) code_required
  transaction (redeem_code ctx now normalized)

-- `GIFT-` and the random part.
abbrev pub new_code : List ℕ → List ℕ
new_code draw = b'G' ∷ b'I' ∷ b'F' ∷ b'T' ∷ 45 ∷ draw

-- The first attempt whose code is not taken.
unfoldable pub generate_unique_gift_card_code : ℕ → ℕ → (ℕ → List ℕ) → Action (List ℕ)
generate_unique_gift_card_code zero r draw db = (err no_code, db)
generate_unique_gift_card_code (suc attempts) r draw db =
    let rest = generate_unique_gift_card_code attempts r draw db in
    if is_some (db.coupon r (new_code (draw attempts)))
    then rest
    else (ok (new_code (draw attempts)), db)

abbrev day_ms : ℕ
day_ms = 86400000

abbrev pub add_days : ℕ → ℕ → ℕ
add_days date days = date + days * day_ms

-- The row of a card that is bought.
abbrev pub bought_card : ℕ → ℕ → Option ℕ → ℕ → ℕ → Coupon
bought_card id amount branch now expires = record {
  id = id;
  kind = gift_card;
  branch_id = branch;
  is_active = true;
  status = active;
  is_deleted = false;
  discount_value = amount;
  max_uses = some 1;
  max_uses_per_customer = some 1;
  used_count = 0;
  starts_at = some now;
  expires_at = some expires;
}

abbrev pub create_coupon : ℕ → List ℕ → Coupon → Db → Db
create_coupon r code row db = put_coupon r code row (record db { next_id = suc db.next_id })

-- The transaction of `purchaseGiftCardFromWallet`. It returns the code and the balance.
abbrev pub buy_card : Context → ℕ → Option ℕ → Option ℕ → ℕ → (ℕ → List ℕ) → Action (List ℕ × ℤ)
buy_card ctx amount branch expires now draw = do
  account ← ensure_wallet_account ctx
  let next_balance = account.balance -ℤ pos amount
  fail_if (ltb_ℤ next_balance (pos 0)) insufficient_balance
  code ← generate_unique_gift_card_code 5 ctx.restaurant_id draw
  let expires_at = or_default expires (add_days now 365)
  fail_if (leb expires_at now) bad_expiry
  id ← gets (λ db. db.next_id)
  modify (create_coupon ctx.restaurant_id code (bought_card id amount branch now expires_at))
  modify (put_wallet_account ctx (record account { balance = next_balance }))
  let row = wallet_row ctx none debit (sub_ℕ 0 amount) next_balance account.currency
  modify (create_wallet_transaction (record row { gift_card_code = some code }))
  pure (code, next_balance)

unfoldable pub purchase_gift_card_from_wallet :
    Context → ℕ → Option ℕ → Option ℕ → ℕ → (ℕ → List ℕ) → Action (List ℕ × ℤ)
purchase_gift_card_from_wallet ctx amount branch expires now draw = do
  fail_if (amount == 0) bad_amount
  transaction (buy_card ctx amount branch expires now draw)
