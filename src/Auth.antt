-- ===== src/Auth.antt =====
-- Accounts and tokens: signing up and in, rotating refresh tokens, and who a request is from.
pub mod Security
pub mod Accounts
pub mod Sessions
pub mod Profile
pub mod Rotation
pub mod Tokens
pub mod Admission
pub mod Limits
pub mod Opaque
