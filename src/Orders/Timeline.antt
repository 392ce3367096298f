-- ===== src/Orders/Timeline.antt =====
-- The timestamps of an order agree with its status.
pub mod Stamps
pub mod Calls
