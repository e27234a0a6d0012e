-- ===== src/Platform.antt =====
-- What the program takes from outside: BadgerDB, the clock, random bytes, the cryptographic
-- primitives and the JSON codec of its records. Each call of something that may answer differently
-- each time carries the number of calls made before it, `tick`.
pub mod Laws
use lockr.Base.{ℕ, suc, ◌+◌, Bool, List, ◌≡◌, Bytes}
use lockr.Result.{Result, ok, err, Exec}

-- encoding/json for one type of records.
pub record Codec (A : Type 0) : Type 0 where
  pub marshal : A → Result Bytes
  pub unmarshal : Bytes → Result A

pub record Platform : Type 1 where
  -- A Badger database. `Update` commits the transaction or returns an error and changes nothing.
  pub Store : Type 0
  pub view_get : ℕ → Store → Bytes → Result Bytes
  pub update_set : ℕ → Store → Bytes → Bytes → Result Store
  pub update_set_ttl : ℕ → Store → Bytes → Bytes → ℕ → Result Store
  pub update_delete : ℕ → Store → Bytes → Result Store
  -- The items of an iteration over a whole View, in the order of the iterator.
  pub view_items : ℕ → Store → Result (List (Bytes × Bytes))
  -- time.Now, in nanoseconds, and rand.Read into a buffer of the given length
  pub clock : ℕ → ℕ
  pub rand_read : ℕ → ℕ → Result Bytes
  -- HKDF-SHA256 (master key, info, 32 bytes), AES-GCM (key, nonce, text), Argon2id (password, salt,
  -- 32 bytes), SHA-256
  pub hkdf : Bytes → Bytes → Result Bytes
  pub gcm_seal : Bytes → Bytes → Bytes → Bytes
  pub gcm_open : Bytes → Bytes → Bytes → Result Bytes
  pub argon2_key : Bytes → Bytes → Bytes
  pub sha256 : Bytes → Bytes

-- The database and the number of outside calls made so far.
pub record World (p : Platform) : Type 0 where
  pub db : p.Store
  pub tick : ℕ

module _ (p : Platform) where
  -- An outside call that changes nothing in the database.
  abbrev pub ask : {A : Type 0} → (ℕ → p.Store → Result A) → Exec (World p) A
  ask f w = (f w.tick w.db, record w { tick = suc w.tick })

  abbrev updated : World p → Result p.Store → Result (Unit {0}) × World p
  updated w (ok s) = (ok tt, record { db = s; tick = suc w.tick })
  updated w (err e) = (err e, record w { tick = suc w.tick })

  -- bdb.Update
  abbrev pub update : (ℕ → p.Store → Result p.Store) → Exec (World p) (Unit {0})
  update f w = updated w (f w.tick w.db)

  -- time.Now().UTC()
  unfoldable pub now : Exec (World p) ℕ
  now = ask (λ t s. ok (p.clock t))

  -- buf := make([]byte, n); rand.Read(buf)
  unfoldable pub random : ℕ → Exec (World p) Bytes
  random n = ask (λ t s. p.rand_read t n)
