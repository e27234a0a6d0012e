-- ===== src/Secrets/Kv.antt =====
-- internal/secrets/kv.go: secrets with versions, soft delete and rollback. Each record is JSON,
-- sealed under its own key.
pub mod Records
pub mod Writes
pub mod Secret
pub mod Operations
pub mod Progress
pub mod Rounds
pub mod Spares
use lockr.Base.{
  ℕ, zero, suc, ◌+◌, Bool, true, false, ◌||◌, List, [], ◌∷◌, ◌++◌, Option, none, some, Bytes, codes,
  eqb, if◌then◌else◌,
}
use lockr.Base.Int.{Int64, int_lt, int_incr, int_sub}
use lockr.Keys.{kv_path, kv_meta_key, kv_version_key}
use lockr.Result.{
  Error, secret_deleted, version_not_found, is_not_found, Result, ok, err, Exec, pure, fail, lift,
  try, wrap, ◌>>=◌, ◌>>◌,
}
use lockr.Platform.{Platform, World, now, Codec}
use lockr.Storage.Db as Db
use lockr.Storage.Crypto.{Crypto, encrypt, decrypt}
use lockr.Storage.Listing.{list_direct}

abbrev pub max_versions : ℕ
max_versions = 10

-- A json.RawMessage may be nil.
pub record KvEntry : Type 0 where
  pub path : Bytes
  pub version : Int64
  pub value : Option Bytes
  pub created_at : ℕ
  pub deleted_at : Option ℕ

pub record KvMeta : Type 0 where
  pub path : Bytes
  pub current_version : Int64
  pub deleted_at : Option ℕ

abbrev pub is_some : {A : Type 0} → Option A → Bool
is_some none = false
is_some (some a) = true

-- The metadata that a write starts from: fresh, if the path has none.
unfoldable pub or_fresh : Bytes → Result KvMeta → Result KvMeta
or_fresh path (ok meta) = ok meta
or_fresh path (err e) =
    if is_not_found e
    then ok (record { path = path; current_version = 0; deleted_at = none })
    else err e

unfoldable pub bump : KvMeta → KvMeta
bump meta = record meta { current_version = int_incr meta.current_version; deleted_at = none }

unfoldable pub new_entry : Bytes → Option Bytes → KvMeta → ℕ → KvEntry
new_entry path value meta created = record {
  path = path;
  version = meta.current_version;
  value = value;
  created_at = created;
  deleted_at = none;
}

-- A version that was read is listed without its value; one that cannot be read is skipped.
unfoldable pub list_version : Result KvEntry → List KvEntry → List KvEntry
list_version (ok entry) rest = record entry { value = none } ∷ rest
list_version (err e) rest = rest

unfoldable pub oldest_version : Int64 → Int64
oldest_version current =
    let oldest = int_incr (int_sub current max_versions) in if int_lt oldest 1 then 1 else oldest

-- The cipher of the store, and encoding/json for its two kinds of records.
pub record KvStore : Type 0 where
  pub crypto : Crypto
  pub metas : Codec KvMeta
  pub entries : Codec KvEntry

module _ (p : Platform) (kv : KvStore) where
  open kv use {crypto, metas, entries}

  unfoldable pub get_meta : Bytes → Exec (World p) KvMeta
  get_meta path = do
    stored ← Db.get p (kv_meta_key path)
    plain ← lift (decrypt p crypto (kv_meta_key path) stored)
    lift (metas.unmarshal plain)

  unfoldable pub write_meta : KvMeta → Exec (World p) (Unit {0})
  write_meta meta = do
    encoded ← lift (metas.marshal meta)
    enc ← encrypt p crypto (kv_meta_key meta.path) encoded
    Db.set p (kv_meta_key meta.path) enc

  unfoldable pub get_version : Bytes → Int64 → Exec (World p) KvEntry
  get_version path version = do
    stored ← Db.get p (kv_version_key path version)
    plain ← lift (decrypt p crypto (kv_version_key path version) stored)
    lift (entries.unmarshal plain)

  unfoldable pub write_version : KvEntry → Exec (World p) (Unit {0})
  write_version entry = do
    encoded ← lift (entries.marshal entry)
    enc ← encrypt p crypto (kv_version_key entry.path entry.version) encoded
    Db.set p (kv_version_key entry.path entry.version) enc

  unfoldable pub delete_version : Bytes → Int64 → Exec (World p) (Unit {0})
  delete_version path version = Db.delete p (kv_version_key path version)

  -- Get, once the metadata is read; version 0 stands for the current one.
  unfoldable pub get_from : Bytes → Int64 → KvMeta → Exec (World p) KvEntry
  get_from path version meta =
      let wanted = if eqb version 0 then meta.current_version else version in
      if is_some meta.deleted_at
      then fail (secret_deleted path)
      else if int_lt wanted 1 || int_lt meta.current_version wanted
      then fail (version_not_found wanted path)
      else get_version path wanted

  unfoldable pub get : Bytes → Int64 → Exec (World p) KvEntry
  unfolding get_from
  get path version = do meta ← get_meta path; get_from path version meta

  -- Prune the oldest version; the error of the deletion is dropped.
  unfoldable pub prune : Bytes → Int64 → Exec (World p) (Unit {0})
  prune path current =
      if int_lt max_versions current
      then (do _ ← try (delete_version path (int_sub current max_versions)); pure tt)
      else pure tt

  -- The writes of Set, once the new metadata is known.
  unfoldable pub store_entry : Bytes → Option Bytes → KvMeta → Exec (World p) KvEntry
  store_entry path value meta = do
    created ← now p
    let entry = new_entry path value meta created
    write_version entry
    write_meta meta
    prune path meta.current_version
    pure entry

  unfoldable pub set : Bytes → Option Bytes → Exec (World p) KvEntry
  set path value = do
    found ← try (get_meta path)
    meta ← lift (or_fresh path found)
    store_entry path value (bump meta)

  unfoldable pub delete : Bytes → Exec (World p) (Unit {0})
  delete path = do
    meta ← get_meta path
    deleted ← now p
    write_meta (record meta { deleted_at = some deleted })

  -- `for v := from; v <= current; v++`, with fuel.
  unfoldable pub versions_from : ℕ → Bytes → Int64 → Int64 → Exec (World p) (List KvEntry)
  versions_from zero path from current = pure []
  versions_from (suc fuel) path from current =
      let next : Exec (World p) (List KvEntry) = do
        found ← try (get_version path from)
        rest ← versions_from fuel path (int_incr from) current
        pure (list_version found rest)
      in if int_lt current from then pure [] else next

  -- The window from the oldest to the current version has at most `max_versions` rounds.
  unfoldable pub versions : Bytes → Exec (World p) (List KvEntry)
  versions path = do
    meta ← get_meta path
    versions_from max_versions path (oldest_version meta.current_version) meta.current_version

  unfoldable pub rollback : Bytes → Int64 → Exec (World p) KvEntry
  rollback path version = do old ← wrap Error.rollback (get path version); set path old.value

unfoldable pub list : (p : Platform) → Bytes → Exec (World p) (List Bytes)
list p prefix = list_direct p (kv_path prefix)
