-- ===== src/Catalog.antt =====
-- Products and stores: backend/app/services/product_service.py and
-- backend/app/services/store_service.py.
pub mod Products
pub mod Visibility
pub mod Stores
pub mod Slugs
pub mod Changes
pub mod Patches
pub mod Ownership
