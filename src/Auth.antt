-- ===== src/Auth.antt =====
-- internal/auth: sessions, admin tokens, users, Ed25519 challenges and one-time passwords.
pub mod Session
pub mod Admin
pub mod User
pub mod Challenge
pub mod Totp
