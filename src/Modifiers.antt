-- ===== src/Modifiers.antt =====
-- What a customer may choose of a menu item's modifiers, in src/modules/cart and src/modules/orders.
pub mod Rows
pub mod Limits
pub mod Laws
pub mod Refines
pub mod Grouping
pub mod Tests
