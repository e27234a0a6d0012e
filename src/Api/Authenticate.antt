-- ===== src/Api/Authenticate.antt =====
-- internal/api/middleware.go: who a request speaks for. What authMiddleware hands to the next handler
-- is its answer here; the audit state that it sets beside it is `Routes.audit_caller`.
pub mod Entry
pub mod Bearer
pub mod Spares
use lockr.Base.{
  ℕ, Bool, true, false, not, ◌&&◌, [], ◌++◌, Bytes, codes, ◌==◌, has_prefix, trim_prefix,
  if◌then◌else◌,
}
use lockr.Result.{Error, Result, ok, err, Exec, try, pure, ◌>>=◌}
use lockr.Platform.{Platform, World}
use lockr.Auth.Session.{SessionMeta, SessionStore, validate}
use lockr.Auth.Admin.{AdminRecord, AdminAuth, has_admins, verify}

-- The method, the path of the URL, and the two headers that may carry a token.
pub record Call : Type 0 where
  pub method : Bytes
  pub url_path : Bytes
  pub authorization : Bytes
  pub lockr_token : Bytes

-- The values of the context.
pub record Caller : Type 0 where
  pub identity : Bytes
  pub auth_method : Bytes
  pub policy : Bytes

-- The next handler runs for a caller, or the request ends with status 401 and a message.
pub data Access : Type 0 where
  granted : Caller → Access
  unauthorized : Bytes → Access

unfoldable pub extract_token : Call → Bytes
extract_token r =
    if has_prefix r.authorization (codes "Bearer ")
    then trim_prefix r.authorization (codes "Bearer ")
    else r.lockr_token

abbrev pub root_caller : Bytes → Bytes → Access
root_caller identity method =
    granted (record { identity = identity; auth_method = method; policy = codes "root" })

unfoldable pub session_access : Result SessionMeta → Access
session_access (ok meta) =
    granted
      (record { identity = meta.identity; auth_method = meta.auth_method; policy = meta.policy })
session_access (err e) = unauthorized (codes "invalid or expired session")

unfoldable pub admin_access : Result AdminRecord → Access
admin_access (ok rec) = granted (record {
  identity = codes "admin:" ++ rec.name;
  auth_method = codes "admin_token";
  policy = rec.policy;
})
admin_access (err e) = unauthorized (codes "invalid admin token")

-- err == nil && !hasAdmins
unfoldable pub no_admins : Result Bool → Bool
no_admins (ok some_admin) = not some_admin
no_admins (err e) = false

module _ (p : Platform) (sessions : SessionStore) (admins : AdminAuth) where
  unfoldable pub allow_first_admin_bootstrap : Call → Exec (World p) Bool
  allow_first_admin_bootstrap r =
      let asked : Exec (World p) Bool = (do
        found ← try (has_admins p admins)
        pure (no_admins found)) in
      if r.method == codes "POST" && r.url_path == codes "/v1/sys/admin/create"
      then asked
      else pure false

  bootstrap_access : Call → Exec (World p) Access
  bootstrap_access r = do
    first ← allow_first_admin_bootstrap r
    pure (
        if first
        then root_caller (codes "bootstrap") (codes "admin_token")
        else unauthorized (codes "missing authorization token"))

  token_access : Bytes → Exec (World p) Access
  token_access token =
      let by_session : Exec (World p) Access = (do
        found ← try (validate p sessions token)
        pure (session_access found)) in
      let by_admin : Exec (World p) Access = (do
        found ← try (verify p admins token)
        pure (admin_access found)) in
      if has_prefix token (codes "lvt_")
      then by_session
      else if has_prefix token (codes "lkat_")
      then by_admin
      else pure (unauthorized (codes "unrecognized token format"))

  unfoldable pub authenticate : Bool → Call → Exec (World p) Access
  unfolding bootstrap_access token_access
  authenticate dev_mode r =
      if dev_mode
      then pure (root_caller (codes "dev") (codes "dev"))
      else if extract_token r == []
      then bootstrap_access r
      else token_access (extract_token r)
