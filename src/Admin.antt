-- ===== src/Admin.antt =====
-- What admins do and see: pages of users, products and orders, suspensions, and figures.
pub mod Pages
pub mod Walk
pub mod Actions
pub mod Suspension
pub mod Gaps
