-- ===== src/Storage/Elapsed.antt =====
-- The order of the outside calls: what a method asked the clock or the random source for, it asked after
-- it began and before it ended.
use lockr.Base.{ℕ, suc, ◌≤◌, ◌<◌, ◌≡◌, refl, Bytes, inl, inr, arith}
use lockr.Result.{Result, ok, Result-cases}
use lockr.Result.Follows.{IsPreorder, Follows, follows_rules}
use lockr.Platform.{Platform, World, ask, update, now, random}
use lockr.Storage.Db as Db
use lockr.Storage.Listing as Listing
use lockr.Storage.Crypto.{hash_argon2id}

module _ (p : Platform) where
  abbrev pub Later : World p → World p → Type 0
  Later w w' = w.tick ≤ w'.tick

  pub Later-IsPreorder : IsPreorder Later
  Later-IsPreorder = record { here = λ w. omega arith; along = λ u v w a b. omega arith }

  Later-ask : {A : Type 0} (f : ℕ → p.Store → Result A) → Follows Later (ask p f)
  Later-ask f = record { at = λ w. omega arith }

  Later-update : (f : ℕ → p.Store → Result p.Store) → Follows Later (update p f)
  Later-update f = record {
    at = λ w. elim (Result-cases (f w.tick w.db)) [
      | inl (s, e) ↦ rw e (omega arith)
      | inr (x, e) ↦ rw e (omega arith)
    ];
  }

  -- A write counts as one call, whether it succeeds or not.
  pub set_with_ttl-tick :
      (k v : Bytes) (ttl : ℕ) (w : World p) → (Db.set_with_ttl p k v ttl w).1.tick ≡ suc w.tick
  unfolding Db.set_with_ttl
  set_with_ttl-tick k v ttl w = elim (Result-cases (p.update_set_ttl w.tick w.db k v ttl)) [
    | inl (s, e) ↦ rw e refl
    | inr (x, e) ↦ rw e refl
  ]

  pub Later-now : Follows Later (now p)
  unfolding now
  Later-now = Later-ask (λ t s. ok (p.clock t))

  pub Later-random : (n : ℕ) → Follows Later (random p n)
  unfolding random
  Later-random n = Later-ask (λ t s. p.rand_read t n)

  pub Later-get : (k : Bytes) → Follows Later (Db.get p k)
  unfolding Db.get
  Later-get k = Later-ask _

  pub Later-set : (k v : Bytes) → Follows Later (Db.set p k v)
  unfolding Db.set
  Later-set k v = Later-update (λ t s. p.update_set t s k v)

  pub Later-set_with_ttl : (k v : Bytes) (ttl : ℕ) → Follows Later (Db.set_with_ttl p k v ttl)
  unfolding Db.set_with_ttl
  Later-set_with_ttl k v ttl = Later-update (λ t s. p.update_set_ttl t s k v ttl)

  pub Later-hash_argon2id : (password : Bytes) → Follows Later (hash_argon2id p password)
  unfolding hash_argon2id
  Later-hash_argon2id password = search (follows_rules, Later-IsPreorder, Later-random)

  -- The bytes were read from the random source between the two states.
  abbrev pub Drawn : ℕ → Bytes → World p → World p → Type 0
  Drawn n bytes w w' = (t : ℕ) × (w.tick ≤ t) × (t < w'.tick) × (p.rand_read t n ≡ ok bytes)

  pub Drawn-within :
      (n : ℕ) (bytes : Bytes) (u v w w' : World p)
      → Later u v
      → Later w w'
      → Drawn n bytes v w
      → Drawn n bytes u w'
  Drawn-within n bytes u v w w' before after (t, a, b, read) = (t, omega arith, omega arith, read)

  pub Later-scan : (prefix : Bytes) → Follows Later (Listing.scan p prefix)
  unfolding Listing.scan Listing.scan_items
  Later-scan prefix = search (follows_rules, Later-IsPreorder, Later-ask)

pub ruleset elapsed_rules = (
  follows_rules, Later-IsPreorder, Later-now, Later-random, Later-get, Later-set,
  Later-set_with_ttl, Later-hash_argon2id,
)
