-- ===== src/Storage.antt =====
-- internal/storage: the database wrapper (badger.go), the listing of keys and the envelope
-- encryption of records (crypto.go).
pub mod Db
pub mod Listing
pub mod Crypto
pub mod Sealed
pub mod Frame
pub mod Elapsed
