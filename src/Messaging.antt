-- ===== src/Messaging.antt =====
-- Conversations of two users, their sealed messages, and the public keys that these are sealed with.
pub mod Keys
pub mod Conversations
pub mod Messages
pub mod Pairs
pub mod Rotation
pub mod Reading
pub mod Retention
