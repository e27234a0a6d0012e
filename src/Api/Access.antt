-- ===== src/Api/Access.antt =====
-- Which requests reach the stores: the table of capabilities, and refusals.
use lockr.Base.{
  false, ◌||◌, ◌&&◌, Option, none, some, ◌≡◌, refl, Bytes, codes, ◌==◌, has_suffix, trim_suffix,
  if◌then◌else◌, arith,
}
use lockr.Base.Assoc.{lookup}
use lockr.Keys.{kv_path, transit_path}
use lockr.Platform.{Platform, World}
use lockr.Policy.{
  Capability, cap_read, cap_write, cap_delete, cap_list, cap_encrypt, cap_decrypt, allowed,
}
use lockr.Policy.Builtin.{allowed-admin_transit}
use lockr.Secrets.Kv.{KvStore}
use lockr.Secrets.Transit.{TransitStore}
use lockr.Api.{Request, Server, denied, permitted, with_admin}
use lockr.Api.Kv.{KvInput, kv_name, kv_get, kv_put, kv_rollback, kv_delete, route_kv}
use lockr.Api.Transit.{
  TransitInput, transit_key_name, handle_create, handle_encrypt, handle_decrypt, handle_rotate,
  handle_info, route_transit,
}

-- The secret and the capability that a request under /v1/secrets/kv/ is about.
abbrev pub kv_needs : Request → Option (Bytes × Capability)
kv_needs r =
    let path = kv_name r.url_path in
    if has_suffix r.url_path (codes "/rollback") && r.method == codes "POST"
    then some (trim_suffix path (codes "/rollback"), cap_write)
    else if r.method == codes "GET"
    then (if has_suffix path (codes "/")
        then some (path, cap_list)
        else if has_suffix path (codes "/versions")
        then some (trim_suffix path (codes "/versions"), cap_read)
        else some (path, cap_read))
    else if r.method == codes "PUT"
    then some (path, cap_write)
    else if r.method == codes "DELETE"
    then some (path, cap_delete)
    else none

-- A request for a secret whose policy does not allow the capability of the table on the path of the
-- secret is answered with 403 and changes nothing: no store is called.
pub route_kv-denied :
    (p : Platform) (kv : KvStore) (input : KvInput) (s : Server) (r : Request) (w : World p)
    (path : Bytes) (cap : Capability)
    → kv_needs r ≡ some (path, cap)
    → allowed s.engine r.policy (kv_path path) cap ≡ false
    → route_kv p kv input s r w ≡ (denied, w)
unfolding route_kv kv_get kv_put kv_rollback kv_delete permitted
route_kv-denied p kv input s r w path cap needs shut = ground arith

no_write : (cap_encrypt == cap_write || cap_decrypt == cap_write) ≡ false
unfolding ◌==◌
no_write = refl

no_read : (cap_encrypt == cap_read || cap_decrypt == cap_read) ≡ false
unfolding ◌==◌
no_read = refl

write_refused :
    (s : Server) (r : Request) (key : Bytes) (cap : Capability)
    → lookup (codes "admin") s.engine.policies ≡ none
    → r.policy ≡ codes "admin"
    → (cap_encrypt == cap || cap_decrypt == cap) ≡ false
    → allowed s.engine r.policy (transit_path key) cap ≡ false
write_refused s r key cap builtin policy other =
    rw policy (rw (allowed-admin_transit s.engine key cap builtin) other)

-- The built-in "admin" policy, if no loaded policy hides it, cannot create, rotate or inspect a
-- transit key: each of the three handlers answers such a request with 403 and changes nothing.
pub handle_rotate-admin :
    (p : Platform) (tr : TransitStore) (input : TransitInput) (s : Server) (r : Request)
    (w : World p)
    → lookup (codes "admin") s.engine.policies ≡ none
    → r.policy ≡ codes "admin"
    → (handle_create p tr input s r w ≡ (denied, w))
      × (handle_rotate p tr input s r w ≡ (denied, w))
      × (handle_info p tr input s r w ≡ (denied, w))
unfolding handle_create handle_rotate handle_info permitted
handle_rotate-admin p tr input s r w builtin policy = (
  rw (
      write_refused s r (transit_key_name r.url_path (codes "/create")) cap_write builtin policy
        no_write),
  rw (
      write_refused s r (transit_key_name r.url_path (codes "/rotate")) cap_write builtin policy
        no_write),
  rw (
      write_refused s r (transit_key_name r.url_path (codes "/info")) cap_read builtin policy
        no_read),
)

-- The capability that a request under /v1/secrets/transit/ needs, and on which key.
abbrev pub transit_needs : Request → Option (Bytes × Capability)
transit_needs r =
    if has_suffix r.url_path (codes "/create")
    then some (transit_key_name r.url_path (codes "/create"), cap_write)
    else if has_suffix r.url_path (codes "/encrypt")
    then some (transit_key_name r.url_path (codes "/encrypt"), cap_encrypt)
    else if has_suffix r.url_path (codes "/decrypt")
    then some (transit_key_name r.url_path (codes "/decrypt"), cap_decrypt)
    else if has_suffix r.url_path (codes "/rotate")
    then some (transit_key_name r.url_path (codes "/rotate"), cap_write)
    else if has_suffix r.url_path (codes "/info")
    then some (transit_key_name r.url_path (codes "/info"), cap_read)
    else none

-- A request for a transit key whose policy does not allow the capability of the table on the path of
-- the key is answered with status 403 and changes nothing: no store is called.
pub route_transit-denied :
    (p : Platform) (tr : TransitStore) (input : TransitInput) (s : Server) (r : Request)
    (w : World p) (name : Bytes) (cap : Capability)
    → transit_needs r ≡ some (name, cap)
    → allowed s.engine r.policy (transit_path name) cap ≡ false
    → ((route_transit p tr input s r w).0.status ≡ 403) × ((route_transit p tr input s r w).1 ≡ w)
unfolding route_transit handle_create handle_encrypt handle_decrypt handle_rotate handle_info
    permitted with_admin
route_transit-denied p tr input s r w name cap needs shut = (ground arith, ground arith)
