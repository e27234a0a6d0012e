-- ===== src/Api/Operation.antt =====
-- internal/api/middleware.go: the name of an operation and the status in the audit log.
use lockr.Base.{
  ℕ, Bool, true, false, ◌||◌, List, [], ◌∷◌, Bytes, codes, ◌==◌, eqb, leb, has_prefix, has_suffix,
  if◌then◌else◌,
}

unfoldable pub semantic_kv : Bytes → Bytes → Bytes
semantic_kv method path =
    if has_suffix path (codes "/rollback")
    then codes "kv.rollback"
    else if method == codes "GET"
    then codes "kv.read"
    else if method == codes "PUT"
    then codes "kv.write"
    else if method == codes "DELETE"
    then codes "kv.delete"
    else method

unfoldable pub semantic_transit : Bytes → Bytes → Bytes
semantic_transit method path =
    if has_suffix path (codes "/encrypt")
    then codes "transit.encrypt"
    else if has_suffix path (codes "/decrypt")
    then codes "transit.decrypt"
    else if has_suffix path (codes "/rotate")
    then codes "transit.rotate"
    else if has_suffix path (codes "/create")
    then codes "transit.create"
    else if has_suffix path (codes "/info")
    then codes "transit.info"
    else method

-- The cases of the switch after the two kinds of secrets, in order: the test is for the whole path, or
-- for its prefix.
abbrev operations : List (Bool × (Bytes × Bytes))
operations =
    (true, (codes "/v1/auth/challenge", codes "auth.challenge"))
    ∷ (true, (codes "/v1/auth/verify", codes "auth.verify"))
    ∷ (true, (codes "/v1/auth/totp", codes "auth.totp"))
    ∷ (true, (codes "/v1/auth/admin/login", codes "auth.admin_login"))
    ∷ (true, (codes "/v1/auth/login", codes "auth.user_login"))
    ∷ (true, (codes "/v1/auth/session", codes "auth.logout"))
    ∷ (true, (codes "/v1/auth/whoami", codes "auth.whoami"))
    ∷ (false, (codes "/v1/sys/audit", codes "sys.audit"))
    ∷ (false, (codes "/v1/sys/enroll", codes "sys.enroll"))
    ∷ (false, (codes "/v1/sys/revoke/", codes "sys.revoke"))
    ∷ (false, (codes "/v1/sys/admin/", codes "sys.admin"))
    ∷ (false, (codes "/v1/sys/users", codes "sys.users"))
    ∷ (false, (codes "/v1/sys/policy/", codes "sys.policy"))
    ∷ (false, (codes "/v1/sys/status", codes "sys.status"))
    ∷ []

unfoldable pub semantic_other : Bytes → Bytes → List (Bool × (Bytes × Bytes)) → Bytes
semantic_other method path [] = method
semantic_other method path ((whole, (pattern, name)) ∷ cases) =
    if (if whole then path == pattern else has_prefix path pattern)
    then name
    else semantic_other method path cases

unfoldable pub semantic_operation : Bytes → Bytes → Bytes
semantic_operation method path =
    if has_prefix path (codes "/v1/secrets/kv/")
    then semantic_kv method path
    else if has_prefix path (codes "/v1/secrets/transit/")
    then semantic_transit method path
    else semantic_other method path operations

-- The status of the entry for the status of the response.
unfoldable pub audit_status : ℕ → Bytes
audit_status status =
    if eqb status 403 || eqb status 401
    then codes "denied"
    else if leb 400 status
    then codes "error"
    else codes "allowed"
