-- ===== src/Branches.antt =====
-- src/modules/branches: the delivery settings of a branch.
pub mod DeliveryConfiguration
pub mod Bands
pub mod Tests
