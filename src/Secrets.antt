-- ===== src/Secrets.antt =====
-- internal/secrets: versioned secrets (kv.go) and transit keys (transit.go).
pub mod Kv
pub mod Transit
