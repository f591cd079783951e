-- ===== src/Wallet/OrderBenefits.antt =====
-- loyalty-wallet.service.ts: what an order may take from the wallet and the points, takes at
-- checkout, earns once it is paid, and gets back when it is reversed.
use deliveryways.Prelude.{
  ℕ, ◌+◌, ◌*◌, ◌/◌, Bool, true, false, ◌&&◌, ◌||◌, not, Option, none, some, List, ltb, ◌==◌,
  if◌then◌else◌, any,
}
use deliveryways.Prelude.Int.{ℤ, pos, sub_ℕ, ◌+ℤ◌, ◌-ℤ◌, ltb_ℤ, fine, rounded}
use deliveryways.Auth.{is_id}
use deliveryways.Wallet.Store.{
  ◌>>=◌, ◌>>◌, WalletTransactionType, debit, refund, payment_reversal, loyalty_redemption,
  LoyaltyTransactionType, earn, redeem, restore, WalletTransaction, LoyaltyTransaction,
  LoyaltyProgram, PaymentStatus, paid, Order, Db, Context, insufficient_points,
  insufficient_balance, not_found, program_inactive, conversion_disabled, discount_disabled,
  below_minimum, Action, pure, gets, or_fail, transaction, fail_if, modify, put_wallet_account,
  put_loyalty_account, create_wallet_transaction, create_loyalty_transaction, put_order,
}
use deliveryways.Wallet.Accounts.{
  ensure_wallet_account, ensure_loyalty_account, ensure_loyalty_program, loyalty_row, wallet_row,
}
use deliveryways.Wallet.GiftCards.{add_days}

pub record QuoteBenefits : Type 0 where
  pub wallet_applied_amount : ℤ
  pub loyalty_discount_amount : ℤ
  pub loyalty_points_redeemed : ℕ
  pub total_amount : ℤ

-- The points part of `calculateQuoteBenefits`: the discount for the points asked for. No points
-- asked for is 0.
abbrev pub loyalty_part : Context → ℤ → ℕ → Action ℤ
loyalty_part ctx running points = if points == 0 then pure (pos 0) else (do
  program ← ensure_loyalty_program ctx.restaurant_id
  account ← ensure_loyalty_account ctx
  fail_if (not (program.is_active && program.allow_order_discount)) discount_disabled
  fail_if (ltb points program.minimum_redeem_points) below_minimum
  fail_if (ltb_ℤ account.available_points (pos points)) insufficient_points
  let discount = pos (points * program.redemption_value_per_point)
  pure (if ltb_ℤ running discount then running else discount))

-- The wallet part, on what the points have left. The request may be finer than a cent, so it and the
-- part are in ten-thousandths of a cent.
abbrev pub wallet_part : Context → ℤ → ℕ → Action ℤ
wallet_part ctx running requested = if requested == 0 then pure (pos 0) else (do
  account ← ensure_wallet_account ctx
  fail_if (ltb_ℤ (fine account.balance) (pos requested)) insufficient_balance
  pure (if ltb_ℤ (fine running) (pos requested) then fine running else pos requested))

unfoldable pub calculate_quote_benefits : Context → ℤ → ℕ → ℕ → Action QuoteBenefits
calculate_quote_benefits ctx total requested_wallet requested_points = do
  discount ← loyalty_part ctx total requested_points
  applied ← wallet_part ctx (total -ℤ discount) requested_wallet
  let running = fine (total -ℤ discount) -ℤ applied
  pure (record {
    wallet_applied_amount = rounded applied;
    loyalty_discount_amount = discount;
    loyalty_points_redeemed = requested_points;
    total_amount = rounded (if ltb_ℤ running (pos 0) then pos 0 else running);
  })

-- The wallet part of `applyOrderBenefits`.
abbrev pub debit_order : Context → ℕ → ℕ → Action (Unit {0})
debit_order ctx order_id amount = if amount == 0 then pure tt else (do
  account ← ensure_wallet_account ctx
  let next_balance = account.balance -ℤ pos amount
  fail_if (ltb_ℤ next_balance (pos 0)) insufficient_balance
  modify (put_wallet_account ctx (record account { balance = next_balance }))
  modify (
      create_wallet_transaction
        (wallet_row ctx (some order_id) debit (sub_ℕ 0 amount) next_balance account.currency)))

-- Its points part.
abbrev pub redeem_order : Context → ℕ → ℕ → Action (Unit {0})
redeem_order ctx order_id points = if points == 0 then pure tt else (do
  account ← ensure_loyalty_account ctx
  ensure_loyalty_program ctx.restaurant_id
  let next_points = account.available_points -ℤ pos points
  fail_if (ltb_ℤ next_points (pos 0)) insufficient_points
  modify (
      put_loyalty_account ctx (record account {
        available_points = next_points;
        lifetime_redeemed_points = account.lifetime_redeemed_points +ℤ pos points;
      }))
  modify (
      create_loyalty_transaction
        (loyalty_row ctx (some order_id) redeem (sub_ℕ 0 points) next_points)))

-- It runs in the transaction that creates the order, so a throw is not undone here.
unfoldable pub apply_order_benefits : Context → ℕ → ℕ → ℕ → Action (Unit {0})
apply_order_benefits ctx order_id wallet_applied points = do
  debit_order ctx order_id wallet_applied
  redeem_order ctx order_id points

abbrev is_paid : PaymentStatus → Bool
is_paid paid = true
is_paid _ = false

abbrev is_earn : LoyaltyTransactionType → Bool
is_earn earn = true
is_earn _ = false

abbrev is_restore : LoyaltyTransactionType → Bool
is_restore restore = true
is_restore _ = false

abbrev is_reversal : WalletTransactionType → Bool
is_reversal refund = true
is_reversal payment_reversal = true
is_reversal _ = false

-- Whether `countLoyaltyEarnTransactions` is positive; so for the two below.
abbrev pub has_earned : ℕ → List LoyaltyTransaction → Bool
has_earned o = any (λ t. is_id o t.order_id && is_earn t.kind)

abbrev pub has_restored_points : ℕ → List LoyaltyTransaction → Bool
has_restored_points o = any (λ t. is_id o t.order_id && is_restore t.kind)

abbrev pub has_restored_wallet : ℕ → List WalletTransaction → Bool
has_restored_wallet o = any (λ t. is_id o t.order_id && is_reversal t.kind)

abbrev pub order_context : Order → Context
order_context order = record {
  customer_id = order.customer_id;
  restaurant_id = order.restaurant_id;
  branch_id = none;
}

-- Cents times hundredths of a point, in whole points.
abbrev pub points_for : Order → LoyaltyProgram → ℕ
points_for order program =
    (order.total_amount + order.wallet_applied_amount) * program.points_per_currency_unit / 10000

abbrev pub expiry : LoyaltyProgram → ℕ → Option ℕ
expiry program now = elim program.points_expiry_days [
  | none ↦ none
  | some days ↦ if days == 0 then none else some (add_days now days)
]

-- The award, once every check has passed.
abbrev pub award : ℕ → Order → LoyaltyProgram → ℕ → Action (Option ℕ)
award order_id order program now = do
  let ctx = order_context order
  let points = points_for order program
  account ← ensure_loyalty_account ctx
  let next_points = account.available_points +ℤ pos points
  modify (
      put_loyalty_account ctx (record account {
        available_points = next_points;
        lifetime_earned_points = account.lifetime_earned_points +ℤ pos points;
      }))
  let row = loyalty_row ctx (some order_id) earn (pos points) next_points
  modify (create_loyalty_transaction (record row { expires_at = expiry program now }))
  modify (put_order order_id (record order { loyalty_points_awarded = points }))
  pure (some points)

-- The program's side of the award.
abbrev pub award_by_program : ℕ → Order → ℕ → Action (Option ℕ)
award_by_program order_id order now = do
  program ← ensure_loyalty_program order.restaurant_id
  if not program.is_active || program.points_per_currency_unit == 0 || points_for order program == 0
      then pure none
      else award order_id order program now

-- An order that is not paid, or has had its points, earns nothing.
abbrev pub is_not_due : ℕ → Bool → Order → Db → Bool
is_not_due order_id allow_unpaid order db =
    not (is_paid order.payment_status) && not allow_unpaid
    || has_earned order_id db.loyalty_transactions
    || ltb 0 order.loyalty_points_awarded

unfoldable pub award_points_for_paid_order : ℕ → Bool → ℕ → Action (Option ℕ)
award_points_for_paid_order order_id allow_unpaid now = transaction (do
  found ← gets (λ db. db.order order_id)
  order ← or_fail found not_found
  skip ← gets (is_not_due order_id allow_unpaid order)
  if skip then pure none else award_by_program order_id order now)

pub data ReversalReason : Type 0 where
  for_refund for_payment_reversal : ReversalReason

abbrev pub reversal_kind : ReversalReason → WalletTransactionType
reversal_kind for_refund = refund
reversal_kind for_payment_reversal = payment_reversal

abbrev pub give_back_wallet : ℕ → Order → ReversalReason → Action (Unit {0})
give_back_wallet order_id order reason = do
  let ctx = order_context order
  account ← ensure_wallet_account ctx
  let next_balance = account.balance +ℤ pos order.wallet_applied_amount
  modify (put_wallet_account ctx (record account { balance = next_balance }))
  modify (
      create_wallet_transaction (
        wallet_row ctx (some order_id) (reversal_kind reason) (pos order.wallet_applied_amount)
          next_balance account.currency))

abbrev pub restore_wallet : ℕ → Order → ReversalReason → Action (Unit {0})
restore_wallet order_id order reason = do
  restored ← gets (λ db. has_restored_wallet order_id db.wallet_transactions)
  if order.wallet_applied_amount == 0 || restored
      then pure tt
      else give_back_wallet order_id order reason

abbrev pub give_back_points : ℕ → Order → Action (Unit {0})
give_back_points order_id order = do
  let ctx = order_context order
  let points = order.loyalty_points_redeemed
  account ← ensure_loyalty_account ctx
  ensure_loyalty_program ctx.restaurant_id
  let next_points = account.available_points +ℤ pos points
  modify (
      put_loyalty_account ctx (record account {
        available_points = next_points;
        lifetime_redeemed_points = account.lifetime_redeemed_points -ℤ pos points;
      }))
  modify (
      create_loyalty_transaction (loyalty_row ctx (some order_id) restore (pos points) next_points))

abbrev pub restore_points : ℕ → Order → Action (Unit {0})
restore_points order_id order = do
  restored ← gets (λ db. has_restored_points order_id db.loyalty_transactions)
  if order.loyalty_points_redeemed == 0 || restored
      then pure tt
      else give_back_points order_id order

unfoldable pub restore_order_benefits : ℕ → ReversalReason → Action (Unit {0})
restore_order_benefits order_id reason = transaction (do
  found ← gets (λ db. db.order order_id)
  order ← or_fail found not_found
  restore_wallet order_id order reason
  restore_points order_id order)

-- The transaction of `redeemPointsToWallet`: the points left, and the balance.
abbrev pub convert_points : Context → LoyaltyProgram → ℕ → Action (ℤ × ℤ)
convert_points ctx program points = do
  loyalty ← ensure_loyalty_account ctx
  fail_if (ltb_ℤ loyalty.available_points (pos points)) insufficient_points
  wallet ← ensure_wallet_account ctx
  let amount = points * program.redemption_value_per_point
  let next_points = loyalty.available_points -ℤ pos points
  let next_balance = wallet.balance +ℤ pos amount
  modify (
      put_loyalty_account ctx (record loyalty {
        available_points = next_points;
        lifetime_redeemed_points = loyalty.lifetime_redeemed_points +ℤ pos points;
      }))
  modify (create_loyalty_transaction (loyalty_row ctx none redeem (sub_ℕ 0 points) next_points))
  modify (put_wallet_account ctx (record wallet { balance = next_balance }))
  modify (
      create_wallet_transaction
        (wallet_row ctx none loyalty_redemption (pos amount) next_balance wallet.currency))
  pure (next_points, next_balance)

-- The program is made, if need be, before the transaction and stays when that fails.
unfoldable pub redeem_points_to_wallet : Context → ℕ → Action (ℤ × ℤ)
redeem_points_to_wallet ctx points = do
  program ← ensure_loyalty_program ctx.restaurant_id
  fail_if (not program.is_active) program_inactive
  fail_if (not program.allow_wallet_conversion) conversion_disabled
  fail_if (ltb points program.minimum_redeem_points) below_minimum
  transaction (convert_points ctx program points)
