-- ===== src/Inventory.antt =====
-- src/modules/inventory/movement: the stock of an item and its movements.
pub mod Movements
pub mod Laws
pub mod Tests
