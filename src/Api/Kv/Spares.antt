-- ===== src/Api/Kv/Spares.antt =====
-- The handlers of the secrets write the records of the secrets, and nothing else.
use lockr.Base.{◌≡◌, false, Option, Bytes, has_prefix}
use lockr.Base.Int.{Int64}
use lockr.Keys.{kv_meta_key, kv_version_key}
use lockr.Result.{Result, ok, err}
use lockr.Platform.{Platform}
use lockr.Platform.Laws.{StoreLaws}
use lockr.Secrets.Kv.{KvStore}
use lockr.Secrets.Kv.Spares as Kv
use lockr.Api.Spares.{Leaves, leaves_rules}
use lockr.Api.{Request, Server}
use lockr.Api.Kv.{
  KvInput, get_parsed, get_version_of, kv_get, put_decoded, kv_put, rollback_decoded, kv_rollback,
  kv_delete, route_kv,
}

module _ (p : Platform) (area : Bytes) where
  module _ (store : StoreLaws p) (kv : KvStore) (input : KvInput) (s : Server) (r : Request)
      (out_meta : (path : Bytes) → has_prefix (kv_meta_key path) area ≡ false)
      (out_version : (path : Bytes) (v : Int64)
        → has_prefix (kv_version_key path v) area ≡ false) where
    get_parsed-Leaves :
        (path : Bytes) (v : Result Int64) → Leaves p area (get_parsed p kv input s r path v)
    unfolding get_parsed
    get_parsed-Leaves path (err e) = search leaves_rules
    get_parsed-Leaves path (ok v) = search (leaves_rules, Kv.get-Spares p area kv)

    get_version_of-Leaves : (path : Bytes) → Leaves p area (get_version_of p kv input s r path)
    unfolding get_version_of
    get_version_of-Leaves path = search get_parsed-Leaves

    kv_get-Leaves : Leaves p area (kv_get p kv input s r)
    unfolding kv_get
    kv_get-Leaves =
        search
          (leaves_rules, get_version_of-Leaves, Kv.list-Spares p area, Kv.versions-Spares p area kv)

    put_decoded-Leaves :
        (path : Bytes) (v : Result (Option Bytes))
        → Leaves p area (put_decoded p kv input s r path v)
    unfolding put_decoded
    put_decoded-Leaves path (err e) = search leaves_rules
    put_decoded-Leaves path (ok v) =
        search (leaves_rules, Kv.set-Spares p area kv store out_meta out_version)

    kv_put-Leaves : Leaves p area (kv_put p kv input s r)
    unfolding kv_put
    kv_put-Leaves = search (leaves_rules, put_decoded-Leaves)

    rollback_decoded-Leaves :
        (path : Bytes) (v : Result Int64) → Leaves p area (rollback_decoded p kv input s r path v)
    unfolding rollback_decoded
    rollback_decoded-Leaves path (err e) = search leaves_rules
    rollback_decoded-Leaves path (ok v) =
        search (leaves_rules, Kv.rollback-Spares p area kv store out_meta out_version)

    kv_rollback-Leaves : Leaves p area (kv_rollback p kv input s r)
    unfolding kv_rollback
    kv_rollback-Leaves = search (leaves_rules, rollback_decoded-Leaves)

    kv_delete-Leaves : Leaves p area (kv_delete p kv input s r)
    unfolding kv_delete
    kv_delete-Leaves = search (leaves_rules, Kv.delete-Spares p area kv store out_meta out_version)

    pub route_kv-Leaves : Leaves p area (route_kv p kv input s r)
    unfolding route_kv
    route_kv-Leaves =
        search (leaves_rules, kv_rollback-Leaves, kv_get-Leaves, kv_put-Leaves, kv_delete-Leaves)
