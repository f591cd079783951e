-- ===== src/Wallet.antt =====
-- The customer wallet and loyalty ledger (src/modules/loyalty-wallet).
pub mod Store
pub mod Accounts
pub mod GiftCards
pub mod OrderBenefits
pub mod Reconciled
pub mod Keeps
pub mod AccountLaws
pub mod OrderLaws
pub mod ReversalLaws
pub mod EarnLaws
pub mod GiftCardLaws
pub mod History
pub mod Observe
pub mod Once
pub mod RoundTrip
pub mod GiftCardUse
pub mod QuoteLaws
pub mod ScopeLaws
pub mod Tests
