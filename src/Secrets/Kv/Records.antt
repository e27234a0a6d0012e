-- ===== src/Secrets/Kv/Records.antt =====
-- What the readers and writers of single KV records do to each other.
use lockr.Base.{ℕ, ◌≡◌, ◌≢◌, Option, Bytes, inl, inr, arith}
use lockr.Base.Int.{Int64}
use lockr.Keys.{kv_meta_key, kv_version_key}
use lockr.Result.{Result, ok, Result-cases, ◌>>=◌, lift}
use lockr.Platform.{Platform, World, Codec}
use lockr.Platform.Laws.{StoreLaws, CipherLaws, CodecLaws}
use lockr.Storage.Db as Db
use lockr.Storage.Db.{translate}
use lockr.Storage.Crypto.{encrypt}
use lockr.Storage.Sealed.{at, opened, SameBut, sealed_effect}
use lockr.Secrets.Kv.{KvEntry, KvMeta, KvStore, get_meta, write_meta, get_version, write_version}

-- encoding/json writes a RawMessage in compact form, and a nil one as `null`: an entry is read back
-- with that value.
abbrev pub compacted : (Option Bytes → Option Bytes) → KvEntry → KvEntry
compacted compact e = record e { value = compact e.value }

-- The laws that the KV store relies on: those of the database, of the cipher and of the two codecs.
pub record KvLaws (p : Platform) (kv : KvStore) (compact : Option Bytes → Option Bytes)
    : Type 0 where
  pub store : StoreLaws p
  pub cipher : CipherLaws p
  pub meta_json : CodecLaws kv.metas (λ m. m)
  pub entry_json : CodecLaws kv.entries (compacted compact)

module _ (p : Platform) (kv : KvStore) where
  open kv use {crypto, metas, entries}

  -- What every read of a record gives, at any later time.
  abbrev pub MetaIs : p.Store → Bytes → Result KvMeta → Type 0
  MetaIs s path r = (t : ℕ) → (get_meta p kv path (at p s t)).0 ≡ r

  abbrev pub VersionIs : p.Store → Bytes → Int64 → Result KvEntry → Type 0
  VersionIs s path v r = (t : ℕ) → (get_version p kv path v (at p s t)).0 ≡ r

  pub write_meta_effect :
      {compact : Option Bytes → Option Bytes} (laws : KvLaws p kv compact) (meta : KvMeta)
      (w w' : World p)
      → write_meta p kv meta w ≡ (ok tt, w')
      → MetaIs w'.db meta.path (ok meta) × SameBut p (kv_meta_key meta.path) w.db w'.db
  unfolding write_meta get_meta Db.get
  write_meta_effect laws meta w w' h = elim (Result-cases (metas.marshal meta)) [
    | inl (d, e) ↦
        let key = kv_meta_key meta.path in
        let sealed : (encrypt p crypto key d >>= Db.set p key) w ≡ (ok tt, w') = ground arith in
        let (here, others) = sealed_effect p laws.store laws.cipher crypto key d w w' sealed in
        ((λ t. ground (arith, here t, laws.meta_json.unmarshal-marshal meta d e)), others)
    | inr (x, e) ↦ ground arith
  ]

  pub write_version_effect :
      {compact : Option Bytes → Option Bytes} (laws : KvLaws p kv compact) (entry : KvEntry)
      (w w' : World p)
      → write_version p kv entry w ≡ (ok tt, w')
      → VersionIs w'.db entry.path entry.version (ok (compacted compact entry))
        × SameBut p (kv_version_key entry.path entry.version) w.db w'.db
  unfolding write_version get_version Db.get
  write_version_effect laws entry w w' h = elim (Result-cases (entries.marshal entry)) [
    | inl (d, e) ↦
        let key = kv_version_key entry.path entry.version in
        let sealed : (encrypt p crypto key d >>= Db.set p key) w ≡ (ok tt, w') = ground arith in
        let (here, others) = sealed_effect p laws.store laws.cipher crypto key d w w' sealed in
        ((λ t. ground (arith, here t, laws.entry_json.unmarshal-marshal entry d e)), others)
    | inr (x, e) ↦ ground arith
  ]

  -- Reading changes nothing in the database.
  pub db-get_meta : (path : Bytes) (w : World p) → (get_meta p kv path w).1.db ≡ w.db
  unfolding get_meta Db.get
  db-get_meta path w = ground arith

  pub db-get_version :
      (path : Bytes) (v : Int64) (w : World p) → (get_version p kv path v w).1.db ≡ w.db
  unfolding get_version Db.get
  db-get_version path v w = ground arith

  -- What a read of a record makes of the value of its key.
  decoded : {A : Type 0} → Codec A → Bytes → Result Bytes → Result A
  decoded codec k r =
      ((lift (opened p crypto k (translate r)) >>= λ plain. lift (codec.unmarshal plain))
        (tt {0})).0

  get_meta-eq :
      (path : Bytes) (s : p.Store) (t : ℕ)
      → (get_meta p kv path (at p s t)).0
        ≡ decoded metas (kv_meta_key path) (p.view_get t s (kv_meta_key path))
  unfolding get_meta Db.get decoded
  get_meta-eq path s t = ground arith

  get_version-eq :
      (path : Bytes) (v : Int64) (s : p.Store) (t : ℕ)
      → (get_version p kv path v (at p s t)).0
        ≡ decoded entries (kv_version_key path v) (p.view_get t s (kv_version_key path v))
  unfolding get_version Db.get decoded
  get_version-eq path v s t = ground arith

  -- A read depends on the value of its own key alone.
  pub MetaIs-SameBut :
      (k : Bytes) (s s' : p.Store) (path : Bytes) (r : Result KvMeta)
      → SameBut p k s s'
      → k ≢ kv_meta_key path
      → MetaIs s path r
      → MetaIs s' path r
  MetaIs-SameBut k s s' path r same n h t =
      rw (get_meta-eq path s' t)
        (rw (same t (kv_meta_key path) n) (rw (← get_meta-eq path s t) (h t)))

  pub VersionIs-SameBut :
      (k : Bytes) (s s' : p.Store) (path : Bytes) (v : Int64) (r : Result KvEntry)
      → SameBut p k s s'
      → k ≢ kv_version_key path v
      → VersionIs s path v r
      → VersionIs s' path v r
  VersionIs-SameBut k s s' path v r same n h t =
      rw (get_version-eq path v s' t)
        (rw (same t (kv_version_key path v) n) (rw (← get_version-eq path v s t) (h t)))
