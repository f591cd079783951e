-- ===== src/Guards.antt =====
-- src/common/guards: what a request must pass before its handler runs.
pub mod TenantAccess
pub mod TenantLaws
pub mod Accounts
pub mod AccountLaws
pub mod Tests
