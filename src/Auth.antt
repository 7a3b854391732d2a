-- ===== src/Auth.antt =====
-- app/core/security.py, app/core/deps.py and app/services/auth_service.py.
pub mod Passwords
pub mod Tokens
pub mod Service
