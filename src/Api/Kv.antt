-- ===== src/Api/Kv.antt =====
-- internal/api/kv_handlers.go, and the routes under /v1/secrets/kv/ of router.go.
pub mod Hidden
pub mod Spares
use lockr.Base.{
  ◌&&◌, [], Option, none, Bytes, codes, ◌==◌, has_suffix, trim_prefix, trim_suffix, if◌then◌else◌,
}
use lockr.Base.Int.{Int64, int_lt}
use lockr.Keys.{kv_path}
use lockr.Result.{Result, ok, err}
use lockr.Platform.{Platform}
use lockr.Policy.{cap_read, cap_write, cap_delete, cap_list}
use lockr.Secrets.Kv as Kv
use lockr.Secrets.Kv.{KvEntry, KvStore, versions, rollback}
use lockr.Api.{
  Request, Server, Reply, message, status_is, keys_are, versions_are, entry_is, Handler, respond,
  answer, failed_with, permitted,
}

-- strconv.Atoi, and encoding/json for the two bodies: a raw message, and the version of a rollback.
pub record KvInput : Type 0 where
  pub atoi : Bytes → Result Int64
  pub decode_value : Bytes → Result (Option Bytes)
  pub decode_version : Bytes → Result Int64

unfoldable pub kv_name : Bytes → Bytes
kv_name url_path = trim_prefix url_path (codes "/v1/secrets/kv/")

unfoldable pub without_value : KvEntry → Reply
without_value entry = entry_is (record entry { value = none })

module _ (p : Platform) (kv : KvStore) (input : KvInput) (s : Server) (r : Request) where
  get_parsed : Bytes → Result Int64 → Handler p
  get_parsed path (err e) = respond p 400 (message (codes "invalid version parameter"))
  get_parsed path (ok version) = answer p (failed_with p 404) entry_is (Kv.get p kv path version)

  get_version_of : Bytes → Handler p
  unfolding get_parsed
  get_version_of path =
      get_parsed path (if r.version_query == [] then ok 0 else input.atoi r.version_query)

  unfoldable pub kv_get : Handler p
  unfolding get_version_of
  kv_get =
      let path = kv_name r.url_path in
      let secret_path = trim_suffix path (codes "/versions") in
      if has_suffix path (codes "/")
      then permitted p s r (kv_path path) cap_list
          (answer p (failed_with p 500) keys_are (Kv.list p path))
      else if has_suffix path (codes "/versions")
      then permitted p s r (kv_path secret_path) cap_read
          (answer p (failed_with p 404) versions_are (versions p kv secret_path))
      else permitted p s r (kv_path path) cap_read (get_version_of path)

  put_decoded : Bytes → Result (Option Bytes) → Handler p
  put_decoded path (err e) = respond p 400 (message (codes "invalid JSON body"))
  put_decoded path (ok value) = answer p (failed_with p 500) without_value (Kv.set p kv path value)

  unfoldable pub kv_put : Handler p
  unfolding put_decoded
  kv_put =
      let path = kv_name r.url_path in
      permitted p s r (kv_path path) cap_write (put_decoded path (input.decode_value r.body))

  rollback_decoded : Bytes → Result Int64 → Handler p
  rollback_decoded path (err e) =
      respond p 400 (message (codes "body must be {\"version\": N} where N >= 1"))
  rollback_decoded path (ok version) =
      if int_lt version 1
      then respond p 400 (message (codes "body must be {\"version\": N} where N >= 1"))
      else answer p (failed_with p 404) without_value (rollback p kv path version)

  unfoldable pub kv_rollback : Handler p
  unfolding rollback_decoded
  kv_rollback =
      let path = trim_suffix (kv_name r.url_path) (codes "/rollback") in
      permitted p s r (kv_path path) cap_write (rollback_decoded path (input.decode_version r.body))

  unfoldable pub kv_delete : Handler p
  kv_delete =
      let path = kv_name r.url_path in
      permitted p s r (kv_path path) cap_delete
        (answer p (failed_with p 404) (λ u. status_is (codes "deleted")) (Kv.delete p kv path))

  -- The handler of /v1/secrets/kv/.
  unfoldable pub route_kv : Handler p
  route_kv =
      if has_suffix r.url_path (codes "/rollback") && r.method == codes "POST"
      then kv_rollback
      else if r.method == codes "GET"
      then kv_get
      else if r.method == codes "PUT"
      then kv_put
      else if r.method == codes "DELETE"
      then kv_delete
      else respond p 405 (message (codes "method not allowed"))
