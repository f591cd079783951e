-- ===== src/Wallet/Store.antt =====
-- The tables behind loyalty-wallet.repository.ts, and the actions over them. Money is in cents,
-- as the Decimal(10, 2) columns hold it; a time is in milliseconds since the epoch. An account is
-- named by its unique key, the restaurant and the customer.
use Prim.Native.String.{String}
use deliveryways.Prelude.{
  ℕ, Bool, true, false, ◌&&◌, Option, none, some, List, ◌∷◌, ◌==◌, if◌then◌else◌, Outcome, ok, err,
}
use deliveryways.Prelude.Int.{ℤ}
use deliveryways.Auth.{UserRole}

pub data WalletTransactionType : Type 0 where
  credit debit adjustment refund payment_reversal loyalty_redemption : WalletTransactionType

pub data LoyaltyTransactionType : Type 0 where
  earn redeem restore points_adjustment expire : LoyaltyTransactionType

pub data CouponStatus : Type 0 where
  active suspended : CouponStatus

pub data CouponCampaignKind : Type 0 where
  promotion happy_hour gift_card : CouponCampaignKind

pub record WalletAccount : Type 0 where
  pub balance : ℤ
  pub currency : String

pub record WalletTransaction : Type 0 where
  pub restaurant_id : ℕ
  pub customer_id : ℕ
  pub order_id : Option ℕ
  pub payment_transaction_id : Option ℕ
  pub kind : WalletTransactionType
  pub amount : ℤ
  pub balance_after : ℤ
  pub currency : String
  pub gift_card_code : Option (List ℕ)  -- `metadata.giftCardCode`

pub record LoyaltyAccount : Type 0 where
  pub available_points : ℤ
  pub lifetime_earned_points : ℤ
  pub lifetime_redeemed_points : ℤ
  pub manual_adjusted_points : ℤ

pub record LoyaltyTransaction : Type 0 where
  pub restaurant_id : ℕ
  pub customer_id : ℕ
  pub order_id : Option ℕ
  pub kind : LoyaltyTransactionType
  pub points : ℤ
  pub balance_after : ℤ
  pub expires_at : Option ℕ

pub record LoyaltyProgram : Type 0 where
  pub is_active : Bool
  pub points_per_currency_unit : ℕ  -- hundredths
  pub redemption_value_per_point : ℕ  -- cents
  pub minimum_redeem_points : ℕ
  pub allow_wallet_conversion : Bool
  pub allow_order_discount : Bool
  pub points_expiry_days : Option ℕ

pub record Coupon : Type 0 where
  pub id : ℕ
  pub kind : CouponCampaignKind
  pub branch_id : Option ℕ
  pub is_active : Bool
  pub status : CouponStatus
  pub is_deleted : Bool
  pub discount_value : ℕ
  pub max_uses : Option ℕ
  pub max_uses_per_customer : Option ℕ
  pub used_count : ℕ
  pub starts_at : Option ℕ
  pub expires_at : Option ℕ

pub data PaymentStatus : Type 0 where
  pending paid failed cancelled refunded : PaymentStatus

-- The columns of an order that `findOrderWithBenefits` selects and the service reads.
pub record Order : Type 0 where
  pub restaurant_id : ℕ
  pub customer_id : ℕ
  pub total_amount : ℕ
  pub payment_status : PaymentStatus
  pub wallet_applied_amount : ℕ
  pub loyalty_points_redeemed : ℕ
  pub loyalty_points_awarded : ℕ

-- The balances that the customer's profile metadata holds from before the ledger, in cents and
-- points, as `readNumber` finds them.
pub record LegacyMetadata : Type 0 where
  pub balance : ℤ
  pub points : ℤ
  pub redeemed_points : ℤ

-- The columns of a user that `findCustomer` selects.
pub record Customer : Type 0 where
  pub role : UserRole
  pub tenant_id : Option ℕ
  pub restaurant_id : Option ℕ
  pub branch_id : Option ℕ
  pub is_active : Bool
  pub is_deleted : Bool

-- Read by their keys, and written row by row; the two transaction tables have the newest first.
pub record Db : Type 0 where
  pub wallet_account : ℕ → ℕ → Option WalletAccount
  pub wallet_transactions : List WalletTransaction
  pub loyalty_account : ℕ → ℕ → Option LoyaltyAccount
  pub loyalty_transactions : List LoyaltyTransaction
  pub loyalty_program : ℕ → Option LoyaltyProgram
  pub coupon : ℕ → List ℕ → Option Coupon
  pub coupon_usages : List (ℕ × ℕ)  -- the coupon and the customer
  pub order : ℕ → Option Order
  pub customer : ℕ → Option Customer
  pub legacy_metadata : ℕ → LegacyMetadata
  pub wallet_currency : ℕ → ℕ → String  -- what a new wallet's currency resolves to
  pub payment_currency : ℕ → Option String
  pub next_id : ℕ

pub record Context : Type 0 where
  pub customer_id : ℕ
  pub restaurant_id : ℕ
  pub branch_id : Option ℕ

pub data Error : Type 0 where
  insufficient_points insufficient_balance : Error
  code_required not_found not_active wrong_branch usage_limit customer_limit : Error
  bad_amount buyer_redeems bad_expiry no_code : Error
  program_inactive conversion_disabled discount_disabled below_minimum : Error
  forbidden no_tenant outside_tenant no_restaurant outside_restaurant outside_branch : Error

abbrev pub Action {ℓ} : Type ℓ → Type ℓ
Action A = Db → Outcome Error A × Db

module _ {ℓ} {A : Type ℓ} where
  unfoldable pub pure : A → Action A
  pure a db = (ok a, db)

  unfoldable pub throw : Error → Action A
  throw e db = (err e, db)

  unfoldable pub gets : (Db → A) → Action A
  gets f db = (ok (f db), db)

  unfoldable pub or_fail : Option A → Error → Action A
  or_fail none e db = (err e, db)
  or_fail (some a) e db = (ok a, db)

  -- A throw inside `prisma.$transaction` undoes what the callback wrote.
  abbrev pub commit : Db → Outcome Error A × Db → Outcome Error A × Db
  commit db (ok a, db') = (ok a, db')
  commit db (err e, db') = (err e, db)

  unfoldable pub transaction : Action A → Action A
  transaction m db = commit db (m db)

-- What follows a call, unless the call has thrown.
abbrev pub proceed {ℓ κ} :
    {A : Type ℓ} {B : Type κ} → (A → Action B) → Outcome Error A × Db → Outcome Error B × Db
proceed f (ok a, db) = f a db
proceed f (err e, db) = (err e, db)

infixl 5 ◌>>=◌ ◌>>◌
unfoldable pub ◌>>=◌ {ℓ κ} : {A : Type ℓ} {B : Type κ} → Action A → (A → Action B) → Action B
◌>>=◌ m f db = proceed f (m db)

unfoldable pub ◌>>◌ {ℓ κ} : {A : Type ℓ} {B : Type κ} → Action A → Action B → Action B
m >> k = m >>= λ _. k

unfoldable pub fail_if : Bool → Error → Action (Unit {0})
fail_if true e db = (err e, db)
fail_if false e db = (ok tt, db)

unfoldable pub modify : (Db → Db) → Action (Unit {0})
modify f db = (ok tt, f db)

-- Unfolding this lets an action run.
unfoldable pub running : Unit {0}
unfolding pure throw gets or_fail transaction fail_if modify ◌>>=◌ ◌>>◌
running = tt

-- A table with the row of one restaurant and one customer replaced.
abbrev pub put_row {ℓ} : {A : Type ℓ} → ℕ → ℕ → A → (ℕ → ℕ → Option A) → ℕ → ℕ → Option A
put_row r c a table r' c' = if r' == r && c' == c then some a else table r' c'

-- `updateWalletAccount` and `createWalletAccount`: both leave this row under this key.
abbrev pub put_wallet_account : Context → WalletAccount → Db → Db
put_wallet_account ctx a db = record db {
  wallet_account = put_row ctx.restaurant_id ctx.customer_id a db.wallet_account;
}

abbrev pub put_loyalty_account : Context → LoyaltyAccount → Db → Db
put_loyalty_account ctx a db = record db {
  loyalty_account = put_row ctx.restaurant_id ctx.customer_id a db.loyalty_account;
}

abbrev pub create_wallet_transaction : WalletTransaction → Db → Db
create_wallet_transaction t db = record db { wallet_transactions = t ∷ db.wallet_transactions }

abbrev pub create_loyalty_transaction : LoyaltyTransaction → Db → Db
create_loyalty_transaction t db = record db { loyalty_transactions = t ∷ db.loyalty_transactions }

abbrev pub put_loyalty_program : ℕ → LoyaltyProgram → Db → Db
put_loyalty_program r p db = record db {
  loyalty_program = λ r'. if r' == r then some p else db.loyalty_program r';
}

abbrev pub put_order : ℕ → Order → Db → Db
put_order o row db = record db { order = λ o'. if o' == o then some row else db.order o' }
