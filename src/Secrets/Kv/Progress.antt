-- ===== src/Secrets/Kv/Progress.antt =====
-- Set succeeds when the calls outside the program do.
use lockr.Base.{ℕ, suc, ◌++◌, ◌≡◌, refl, Bool-cases, Option, Bytes, length, inl, inr}
use lockr.Result.{Result, ok, Exec, lift, pure, resume, ◌>>=◌, ◌>>◌}
use lockr.Platform.{Platform, World, now, random}
use lockr.Platform.Laws.{CipherLaws}
use lockr.Base.Int.{Int64, int_lt}
use lockr.Keys.{kv_version_key, kv_meta_key}
use lockr.Storage.Db as Db
use lockr.Storage.Crypto.{Crypto, new_gcm, nonce_len, derive_key, aesgcm_encrypt, encrypt}
use lockr.Secrets.Kv.{
  KvMeta, KvEntry, KvStore, max_versions, get_meta, write_meta, write_version, prune, new_entry,
  bump, store_entry, set,
}
use lockr.Secrets.Kv.Secret.{Starts}

-- Every write of the database, every read of the random source, every derivation of a key and every
-- encoding of a record answers without an error.
pub record Healthy (p : Platform) (kv : KvStore) : Type 0 where
  pub written :
      (t : ℕ) (s : p.Store) (k v : Bytes) → (s' : p.Store) × (p.update_set t s k v ≡ ok s')
  pub drawn : (t n : ℕ) → (b : Bytes) × (p.rand_read t n ≡ ok b)
  pub derived : (master info : Bytes) → (key : Bytes) × (p.hkdf master info ≡ ok key)
  pub meta_encoded : (m : KvMeta) → (d : Bytes) × (kv.metas.marshal m ≡ ok d)
  pub entry_encoded : (e : KvEntry) → (d : Bytes) × (kv.entries.marshal e ≡ ok d)

-- A method that ends without an error, from every state.
module _ {S A : Type 0} where
  abbrev IsTotal : Exec S A → Type 0
  IsTotal m = (s : S) → (a : A) × ((m s).0 ≡ ok a)

  lift-IsTotal : (r : Result A) (a : A) → r ≡ ok a → IsTotal (lift r)
  lift-IsTotal r a e s = (a, e)

bind-IsTotal :
    {S A B : Type 0} (m : Exec S A) (f : A → Exec S B)
    → IsTotal m
    → ((a : A) → IsTotal (f a))
    → IsTotal (m >>= f)
bind-IsTotal m f first rest s =
    let (a, e) = first s in let (b, r) = rest a (m s).1 in (b, rw (e, resume) r)

module _ (p : Platform) (kv : KvStore) (cipher : CipherLaws p) (healthy : Healthy p kv) where
  new_gcm-ok : (key : Bytes) → length key ≡ 32 → new_gcm key ≡ ok tt
  unfolding new_gcm
  new_gcm-ok key e = rw e refl

  set-IsTotal : (k v : Bytes) → IsTotal (Db.set p k v)
  unfolding Db.set
  set-IsTotal k v w = let (s, e) = healthy.written w.tick w.db k v in (tt, rw e refl)

  encrypt-IsTotal : (c : Crypto) (k d : Bytes) → IsTotal (encrypt p c k d)
  unfolding encrypt derive_key aesgcm_encrypt random
  encrypt-IsTotal c k d w =
      let (key, e) = healthy.derived c.master_key k in
      let gcm = new_gcm-ok key (cipher.length-hkdf c.master_key k key e) in
      let (b, r) = healthy.drawn w.tick nonce_len in
      (b ++ p.gcm_seal key b d, rw e (rw gcm (rw r refl)))

  sealed-IsTotal : (k d : Bytes) → IsTotal (encrypt p kv.crypto k d >>= Db.set p k)
  sealed-IsTotal k d = bind-IsTotal _ _ (encrypt-IsTotal kv.crypto k d) (set-IsTotal k)

  write_version-IsTotal : (entry : KvEntry) → IsTotal (write_version p kv entry)
  unfolding write_version
  write_version-IsTotal entry =
      let (d, e) = healthy.entry_encoded entry in
      bind-IsTotal _ _ (lift-IsTotal _ d e)
        (sealed-IsTotal (kv_version_key entry.path entry.version))

  write_meta-IsTotal : (meta : KvMeta) → IsTotal (write_meta p kv meta)
  unfolding write_meta
  write_meta-IsTotal meta =
      let (d, e) = healthy.meta_encoded meta in
      bind-IsTotal _ _ (lift-IsTotal _ d e) (sealed-IsTotal (kv_meta_key meta.path))

  prune-IsTotal : (path : Bytes) (current : Int64) → IsTotal (prune p kv path current)
  unfolding prune
  prune-IsTotal path current w = elim (Bool-cases (int_lt max_versions current)) [
    | inl y ↦ (tt, rw y refl)
    | inr n ↦ (tt, rw n refl)
  ]

  store_entry-IsTotal :
      (path : Bytes) (value : Option Bytes) (meta : KvMeta)
      → IsTotal (store_entry p kv path value meta)
  unfolding store_entry now
  store_entry-IsTotal path value meta w =
      let entry = new_entry path value meta (p.clock w.tick) in
      let ending : Exec (World p) KvEntry = prune p kv path meta.current_version >> pure entry in
      bind-IsTotal (write_version p kv entry) (λ a. write_meta p kv meta >> ending)
        (write_version-IsTotal entry)
        (λ a.
          bind-IsTotal (write_meta p kv meta) (λ b. ending) (write_meta-IsTotal meta)
            (λ b.
              bind-IsTotal (prune p kv path meta.current_version) (λ x. pure entry)
                (prune-IsTotal path meta.current_version) (λ x s. (entry, refl))))
        (record w { tick = suc w.tick })

  -- A Set of a path that holds a secret or nothing succeeds if every write of the database, every
  -- read of the random source, every derivation of a key and every encoding of a record does.
  pub set-Starts :
      (path : Bytes) (value : Option Bytes) (m : KvMeta) (w : World p)
      → Starts p kv w.db path m
      → (e : KvEntry) × ((set p kv path value w).0 ≡ ok e)
  unfolding set
  set-Starts path value m w (r, reads, fresh) =
      let (e, done) = store_entry-IsTotal path value (bump m) (get_meta p kv path w).1 in
      (e, rw (reads w.tick, fresh, resume) done)
