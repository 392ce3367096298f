-- ===== src/Invites.antt =====
-- backend/app/services/invite_service.py and the sign-up of backend/app/services/auth_service.py.
pub mod Links
pub mod Uses
