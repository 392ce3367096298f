-- ===== src/Gateway.antt =====
-- backend/app/ws/gateway.py: live connections, what they subscribe to, and what is sent to them.
pub mod Registry
pub mod Events
pub mod Handler
pub mod Sets
pub mod Consistency
pub mod Turns
pub mod Runs
pub mod Replies
pub mod Recipients
