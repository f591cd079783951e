-- ===== src/Coupons.antt =====
-- src/modules/coupons: when a coupon applies, and what it takes off.
pub mod Rows
pub mod Schedule
pub mod Eligible
pub mod Validate
pub mod Laws
pub mod Best
pub mod Tests
