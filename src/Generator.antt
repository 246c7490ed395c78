-- ===== src/Generator.antt =====
-- The message generators (src/generators).
pub mod Abstract
pub mod Constant
pub mod Tenant
pub mod Dispatch
