-- ===== src/Secrets/Kv/Spares.antt =====
-- The secrets leave the records outside secrets/kv/ alone.
use lockr.Base.{◌≡◌, false, ℕ, zero, suc, Option, Bytes, has_prefix}
use lockr.Base.Int.{Int64, int_incr}
use lockr.Keys.{kv_meta_key, kv_version_key}
use lockr.Result.{try, pure, ◌>>=◌}
use lockr.Result.Follows.{Follows-bind, Follows-if, Follows-pure}
use lockr.Platform.{Platform}
use lockr.Platform.Laws.{StoreLaws}
use lockr.Storage.Frame.{Spares, Frame-IsPreorder, frame_rules}
use lockr.Secrets.Kv.{
  KvMeta, KvEntry, KvStore, get_meta, write_meta, get_version, write_version, delete_version,
  get_from, get, prune, store_entry, set, delete, list_version, versions_from, versions, rollback,
  list,
}

module _ (p : Platform) (area : Bytes) where
  pub list-Spares : (prefix : Bytes) → Spares p area (list p prefix)
  unfolding list
  list-Spares prefix = search frame_rules

  module _ (kv : KvStore) where
    get_meta-Spares : (path : Bytes) → Spares p area (get_meta p kv path)
    unfolding get_meta
    get_meta-Spares path = search frame_rules depth 9

    get_version-Spares :
        (path : Bytes) (version : Int64) → Spares p area (get_version p kv path version)
    unfolding get_version
    get_version-Spares path version = search frame_rules depth 9

    get_from-Spares :
        (path : Bytes) (version : Int64) (meta : KvMeta)
        → Spares p area (get_from p kv path version meta)
    unfolding get_from
    get_from-Spares path version meta = search (frame_rules, get_version-Spares)

    pub get-Spares : (path : Bytes) (version : Int64) → Spares p area (get p kv path version)
    unfolding get
    get-Spares path version = search (frame_rules, get_meta-Spares, get_from-Spares)

    versions_from-Spares :
        (fuel : ℕ) (path : Bytes) (from current : Int64)
        → Spares p area (versions_from p kv fuel path from current)
    unfolding versions_from
    versions_from-Spares zero path from current = search frame_rules
    versions_from-Spares (suc fuel) path from current =
        Follows-if (Frame-IsPreorder p area) _ _ _ (Follows-pure (Frame-IsPreorder p area) _) (
          Follows-bind (Frame-IsPreorder p area) (try (get_version p kv path from))
            (λ found. do
              rest ← versions_from p kv fuel path (int_incr from) current
              pure (list_version found rest))
            (search (frame_rules, get_version-Spares))
            (λ found. search (frame_rules, versions_from-Spares fuel)))

    pub versions-Spares : (path : Bytes) → Spares p area (versions p kv path)
    unfolding versions
    versions-Spares path = search (frame_rules, get_meta-Spares, versions_from-Spares)

    module _ (store : StoreLaws p)
        (out_meta : (path : Bytes) → has_prefix (kv_meta_key path) area ≡ false)
        (out_version : (path : Bytes) (v : Int64)
          → has_prefix (kv_version_key path v) area ≡ false) where
      write_meta-Spares : (meta : KvMeta) → Spares p area (write_meta p kv meta)
      unfolding write_meta
      write_meta-Spares meta = search (frame_rules, out_meta, store) depth 9

      write_version-Spares : (entry : KvEntry) → Spares p area (write_version p kv entry)
      unfolding write_version
      write_version-Spares entry = search (frame_rules, out_version, store) depth 9

      prune-Spares : (path : Bytes) (current : Int64) → Spares p area (prune p kv path current)
      unfolding prune delete_version
      prune-Spares path current = search (frame_rules, out_version, store) depth 9

      store_entry-Spares :
          (path : Bytes) (value : Option Bytes) (meta : KvMeta)
          → Spares p area (store_entry p kv path value meta)
      unfolding store_entry
      store_entry-Spares path value meta =
          search (frame_rules, write_meta-Spares, write_version-Spares, prune-Spares) depth 12

      pub set-Spares : (path : Bytes) (value : Option Bytes) → Spares p area (set p kv path value)
      unfolding set
      set-Spares path value = search (frame_rules, get_meta-Spares, store_entry-Spares) depth 9

      pub delete-Spares : (path : Bytes) → Spares p area (delete p kv path)
      unfolding delete
      delete-Spares path = search (frame_rules, get_meta-Spares, write_meta-Spares) depth 9

      pub rollback-Spares :
          (path : Bytes) (version : Int64) → Spares p area (rollback p kv path version)
      unfolding rollback
      rollback-Spares path version = search (frame_rules, get-Spares, set-Spares) depth 9
