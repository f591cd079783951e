-- ===== src/Payments.antt =====
-- src/modules/payments: the payments of orders, and what a restaurant is owed and paid for them.
pub mod Store
pub mod Access
pub mod Handlers
pub mod Webhooks
pub mod Payouts
pub mod Books
pub mod Keeps
pub mod Checks
pub mod RefundLaws
pub mod HandlerLaws
pub mod WebhookLaws
pub mod PayoutLaws
pub mod History
pub mod Effects
pub mod Refunded
pub mod Moves
pub mod Authority
pub mod Tests
