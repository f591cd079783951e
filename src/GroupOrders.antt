-- ===== src/GroupOrders.antt =====
-- src/modules/group-orders: one order that several customers put together.
pub mod Store
pub mod Handlers
pub mod History
pub mod Wellformed
pub mod Keeps
pub mod Authority
pub mod Tests
