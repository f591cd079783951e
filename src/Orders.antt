-- ===== src/Orders.antt =====
-- src/modules/orders: the orders' life and their prices.
pub mod Status
pub mod Transitions
pub mod Store
pub mod Access
pub mod Handlers
pub mod Moves
pub mod Lifecycle
pub mod Final
pub mod Authority
pub mod Deals
pub mod Delivery
pub mod DeliveryLaws
pub mod Tests
