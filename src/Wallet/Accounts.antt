-- ===== src/Wallet/Accounts.antt =====
-- loyalty-wallet.service.ts: opening an account on first use, the administrator's adjustments and
-- the wallet top-up. Notes, the audit columns and the composed responses are left out.
use Prim.Native.String.{String}
use deliveryways.Prelude.{
  ℕ, Bool, true, false, ◌&&◌, ◌||◌, not, Option, none, some, ◌==◌, if◌then◌else◌, find, or_default,
  is_some,
}
use deliveryways.Prelude.Int.{ℤ, pos, sub_ℕ, ◌+ℤ◌, ltb_ℤ}
use deliveryways.Auth.{
  AuthUserContext, is_id, is_super_admin, is_business_admin, is_branch_admin, is_customer,
}
use deliveryways.Wallet.Store.{
  WalletTransactionType, credit, adjustment, LoyaltyTransactionType, points_adjustment,
  WalletAccount, WalletTransaction, LoyaltyAccount, LoyaltyTransaction, LoyaltyProgram, Customer,
  Db, Context, insufficient_points, insufficient_balance, not_found, forbidden, no_tenant,
  outside_tenant, no_restaurant, outside_restaurant, outside_branch, Action, pure, gets, or_fail,
  transaction, ◌>>=◌, ◌>>◌, fail_if, modify, put_wallet_account, put_loyalty_account,
  create_wallet_transaction, create_loyalty_transaction, put_loyalty_program,
}

-- The row that `createWalletAccount` writes for a customer without a wallet.
abbrev pub fresh_wallet : Context → Db → WalletAccount
fresh_wallet ctx db = record {
  balance = (db.legacy_metadata ctx.customer_id).balance;
  currency = db.wallet_currency ctx.restaurant_id ctx.customer_id;
}

unfoldable pub ensure_wallet_account : Context → Action WalletAccount
ensure_wallet_account ctx db = elim (db.wallet_account ctx.restaurant_id ctx.customer_id) [
  | some a ↦ pure a db
  | none ↦ (modify (put_wallet_account ctx (fresh_wallet ctx db)) >> pure (fresh_wallet ctx db)) db
]

abbrev pub fresh_loyalty : Context → Db → LoyaltyAccount
fresh_loyalty ctx db =
    let legacy = db.legacy_metadata ctx.customer_id in
    record {
      available_points = legacy.points;
      lifetime_earned_points = legacy.points +ℤ legacy.redeemed_points;
      lifetime_redeemed_points = legacy.redeemed_points;
      manual_adjusted_points = pos 0;
    }

unfoldable pub ensure_loyalty_account : Context → Action LoyaltyAccount
ensure_loyalty_account ctx db = elim (db.loyalty_account ctx.restaurant_id ctx.customer_id) [
  | some a ↦ pure a db
  | none ↦
      (modify (put_loyalty_account ctx (fresh_loyalty ctx db)) >> pure (fresh_loyalty ctx db)) db
]

abbrev pub default_program : LoyaltyProgram
default_program = record {
  is_active = true;
  points_per_currency_unit = 5;
  redemption_value_per_point = 100;
  minimum_redeem_points = 50;
  allow_wallet_conversion = true;
  allow_order_discount = true;
  points_expiry_days = none;
}

unfoldable pub ensure_loyalty_program : ℕ → Action LoyaltyProgram
ensure_loyalty_program restaurant db = elim (db.loyalty_program restaurant) [
  | some p ↦ pure p db
  | none ↦ (modify (put_loyalty_program restaurant default_program) >> pure default_program) db
]

-- The customers that `resolveAdminManagedCustomer` finds at all.
abbrev pub is_managed : Customer → Bool
is_managed c =
    not c.is_deleted
    && c.is_active
    && is_customer c.role
    && is_some c.tenant_id
    && is_some c.restaurant_id

-- Both are known, and they differ.
abbrev pub differs : Option ℕ → Option ℕ → Bool
differs (some a) (some b) = not (a == b)
differs _ _ = false

-- The checks on a branch administrator.
abbrev pub branch_admin_scope : AuthUserContext → Customer → Action Customer
branch_admin_scope user c = do
  rid ← or_fail user.rid no_restaurant
  fail_if (not (is_id rid c.restaurant_id)) outside_restaurant
  fail_if (differs user.bid c.branch_id) outside_branch
  pure c

abbrev pub is_loyalty_admin : AuthUserContext → Bool
is_loyalty_admin user =
    is_super_admin user.role || is_business_admin user.role || is_branch_admin user.role

-- The checks on a business administrator.
abbrev pub business_admin_scope : AuthUserContext → Customer → Action Customer
business_admin_scope user c = do
  tid ← or_fail user.tid no_tenant
  fail_if (not (is_id tid c.tenant_id)) outside_tenant
  pure c

-- The scope that goes with the administrator's role.
abbrev pub scope_check : AuthUserContext → Customer → Action Customer
scope_check user c =
    if is_super_admin user.role
    then pure c
    else (if is_business_admin user.role
        then business_admin_scope user c
        else branch_admin_scope user c)

unfoldable pub resolve_admin_managed_customer : AuthUserContext → ℕ → Action Customer
resolve_admin_managed_customer user customer_id = do
  fail_if (not (is_loyalty_admin user)) forbidden
  found ← gets (λ db. db.customer customer_id)
  c ← or_fail found not_found
  fail_if (not (is_managed c)) not_found
  scope_check user c

-- `customer.restaurantId!`, which the resolution has checked to be there.
abbrev pub customer_context : ℕ → Customer → Context
customer_context customer_id c = record {
  customer_id = customer_id;
  restaurant_id = or_default c.restaurant_id 0;
  branch_id = c.branch_id;
}

abbrev pub signed : Bool → ℕ → ℤ
signed is_credit n = if is_credit then pos n else sub_ℕ 0 n

-- The row of a loyalty transaction.
abbrev pub loyalty_row : Context → Option ℕ → LoyaltyTransactionType → ℤ → ℤ → LoyaltyTransaction
loyalty_row ctx order kind points balance_after = record {
  restaurant_id = ctx.restaurant_id;
  customer_id = ctx.customer_id;
  order_id = order;
  kind = kind;
  points = points;
  balance_after = balance_after;
  expires_at = none;
}

-- The row of a wallet transaction.
abbrev pub wallet_row :
    Context → Option ℕ → WalletTransactionType → ℤ → ℤ → String → WalletTransaction
wallet_row ctx order kind amount balance_after currency = record {
  restaurant_id = ctx.restaurant_id;
  customer_id = ctx.customer_id;
  order_id = order;
  payment_transaction_id = none;
  kind = kind;
  amount = amount;
  balance_after = balance_after;
  currency = currency;
  gift_card_code = none;
}

-- The transaction of `adjustCustomerLoyalty`, up to the summary with which it answers: that is read
-- without the transaction's client, where an account that the transaction has made is not there yet.
unfoldable pub adjust_points : Context → ℤ → Action ℤ
adjust_points ctx signed_points = transaction (do
  ensure_loyalty_program ctx.restaurant_id
  account ← ensure_loyalty_account ctx
  let next_points = account.available_points +ℤ signed_points
  fail_if (ltb_ℤ next_points (pos 0)) insufficient_points
  modify (
      put_loyalty_account ctx (record account {
        available_points = next_points;
        manual_adjusted_points = account.manual_adjusted_points +ℤ signed_points;
      }))
  modify (
      create_loyalty_transaction (loyalty_row ctx none points_adjustment signed_points next_points))
  pure next_points)

unfoldable pub adjust_customer_loyalty : AuthUserContext → ℕ → ℕ → Bool → Action ℤ
unfolding resolve_admin_managed_customer adjust_points
adjust_customer_loyalty user customer_id points is_credit = do
  c ← resolve_admin_managed_customer user customer_id
  adjust_points (customer_context customer_id c) (signed is_credit points)

-- The transaction of `adjustCustomerWallet`.
unfoldable pub adjust_wallet : Context → Bool → ℕ → Action ℤ
adjust_wallet ctx is_credit amount = transaction (do
  account ← ensure_wallet_account ctx
  let next_balance = account.balance +ℤ signed is_credit amount
  fail_if (ltb_ℤ next_balance (pos 0)) insufficient_balance
  modify (put_wallet_account ctx (record account { balance = next_balance }))
  let kind = if is_credit then credit else adjustment
  modify (
      create_wallet_transaction
        (wallet_row ctx none kind (signed is_credit amount) next_balance account.currency))
  pure next_balance)

unfoldable pub adjust_customer_wallet : AuthUserContext → ℕ → ℕ → Bool → Action ℤ
unfolding resolve_admin_managed_customer adjust_wallet
adjust_customer_wallet user customer_id amount is_credit = do
  c ← resolve_admin_managed_customer user customer_id
  adjust_wallet (customer_context customer_id c) is_credit amount

-- `findWalletTransactionByPaymentTransactionId`
abbrev pub find_top_up : ℕ → Db → Option WalletTransaction
find_top_up payment db = find (λ t. is_id payment t.payment_transaction_id) db.wallet_transactions

-- The credit of a payment that is not in the ledger yet. It returns the balance and the amount.
abbrev pub credit_top_up : Context → ℕ → ℕ → Action (ℤ × ℤ)
credit_top_up ctx amount payment = do
  account ← ensure_wallet_account ctx
  let next_balance = account.balance +ℤ pos amount
  payment_currency ← gets (λ db. db.payment_currency payment)
  modify (put_wallet_account ctx (record account { balance = next_balance }))
  let currency = or_default payment_currency account.currency
  let row = wallet_row ctx none credit (pos amount) next_balance currency
  modify (create_wallet_transaction (record row { payment_transaction_id = some payment }))
  pure (next_balance, pos amount)

-- The answer for a payment that is in the ledger.
abbrev pub known_top_up : Context → WalletTransaction → Action (ℤ × ℤ)
known_top_up ctx existing = do
  account ← ensure_wallet_account ctx
  pure (account.balance, existing.amount)

abbrev pub top_up_of : Context → ℕ → ℕ → Option WalletTransaction → Action (ℤ × ℤ)
top_up_of ctx amount payment (some existing) = known_top_up ctx existing
top_up_of ctx amount payment none = credit_top_up ctx amount payment

unfoldable pub apply_wallet_top_up : Context → ℕ → ℕ → Action (ℤ × ℤ)
apply_wallet_top_up ctx amount payment =
    transaction (do existing ← gets (find_top_up payment); top_up_of ctx amount payment existing)
