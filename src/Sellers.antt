-- ===== src/Sellers.antt =====
-- backend/app/services/seller_service.py: profiles of sellers and their figures.
pub mod Dashboard
pub mod Completion
