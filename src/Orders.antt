-- ===== src/Orders.antt =====
-- backend/app/services/order_service.py: placing an order, its transitions, cancelling, retention
-- and the views of it; the modules below hold the functions, and the theorems about them.
pub mod Loading
pub mod Transitions
pub mod Delivering
pub mod Closing
pub mod Retention
pub mod Placing
pub mod Responses
pub mod Views
pub mod Effects
pub mod Lifecycle
pub mod Timeline
pub mod Masks
pub mod Privacy
pub mod Stock
pub mod Deletion
pub mod Requests
pub mod Purged
