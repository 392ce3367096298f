-- ===== src/Tracking.antt =====
-- backend/app/services/delivery_tracking_service.py: who may see a delivery, and how much of it.
pub mod Views
pub mod Updates
pub mod Privacy
pub mod Reports
