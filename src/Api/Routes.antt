-- ===== src/Api/Routes.antt =====
-- internal/api/router.go and middleware.go: from a request to its handler, through the multiplexers of
-- net/http, the request id, the audit log and the authentication.
pub mod Guards
pub mod Handled
pub mod Attempt
pub mod Lines
pub mod Folders
pub mod Onward
use lockr.Base.{
  ℕ, Bool, true, false, not, ◌||◌, ◌&&◌, List, [], ◌∷◌, ◌++◌, Option, none, some, Bytes, codes,
  ◌==◌, has_prefix, has_suffix, length, ltb, if◌then◌else◌,
}
use lockr.Result.{Error, Result, ok, err, Exec, try, pure, ◌>>=◌}
use lockr.Platform.{Platform, World, now, random}
use lockr.Auth.Challenge.{AuthState}
use lockr.Api.{Request, Response, Server, Reply, message, redirect}
use lockr.Api.Mux.{Routed, moved, not_found, found, fits, best, lacks_slash, route}
use lockr.Api.Kv.{route_kv}
use lockr.Api.Transit.{route_transit}
use lockr.Api.Authenticate.{
  Call, Caller, Access, granted, unauthorized, extract_token, authenticate,
}
use lockr.Api.Site.{
  HttpRequest, Context, Site, SiteState, Action, reply_with, on_world, in_world, logged, call_of,
  request_of,
}
use lockr.Api.Operation.{audit_status}
use lockr.Api.Login.{
  handle_challenge, handle_verify, handle_totp_login, handle_admin_login, handle_user_login,
  handle_logout, handle_whoami,
}
use lockr.Api.Manage.{
  handle_user_create, handle_user_list, handle_user_delete, handle_user_update, handle_health,
  handle_status, handle_enroll, handle_revoke, handle_audit, handle_admin_create,
  handle_admin_delete, handle_policy_reload,
}

-- The handlers behind the authentication, and those before it.
pub data Inner : Type 0 where
  logout whoami kv transit status enroll revoke audit admin_create admin_delete policy_reload users
        user :
      Inner

pub data Outer : Type 0 where
  health challenge verify totp admin_login user_login authed : Outer

abbrev pub inner_routes : List (Bytes × Inner)
inner_routes =
    (codes "/v1/auth/session", logout)
    ∷ (codes "/v1/auth/whoami", whoami)
    ∷ (codes "/v1/secrets/kv/", kv)
    ∷ (codes "/v1/secrets/transit/", transit)
    ∷ (codes "/v1/sys/status", status)
    ∷ (codes "/v1/sys/enroll", enroll)
    ∷ (codes "/v1/sys/revoke/", revoke)
    ∷ (codes "/v1/sys/audit", audit)
    ∷ (codes "/v1/sys/admin/create", admin_create)
    ∷ (codes "/v1/sys/admin/", admin_delete)
    ∷ (codes "/v1/sys/policy/reload", policy_reload)
    ∷ (codes "/v1/sys/users", users)
    ∷ (codes "/v1/sys/users/", user)
    ∷ []

abbrev pub outer_routes : List (Bytes × Outer)
outer_routes =
    (codes "/v1/sys/health", health)
    ∷ (codes "/v1/auth/challenge", challenge)
    ∷ (codes "/v1/auth/verify", verify)
    ∷ (codes "/v1/auth/totp", totp)
    ∷ (codes "/v1/auth/admin/login", admin_login)
    ∷ (codes "/v1/auth/login", user_login)
    ∷ (codes "/v1/", authed)
    ∷ []

nobody : Bytes → Caller
nobody method = record { identity = codes "unauthenticated"; auth_method = method; policy = [] }

-- What auditMiddleware takes from the state that authMiddleware leaves for the audit log.
unfoldable pub audit_caller : Bytes → Access → Caller
unfolding nobody
audit_caller token (granted who) = if who.identity == [] then nobody (codes "none") else who
audit_caller token (unauthorized text) = nobody (
    if token == []
    then codes "none"
    else if has_prefix token (codes "lvt_")
    then codes "session"
    else if has_prefix token (codes "lkat_")
    then codes "admin_token"
    else codes "unknown")

unfoldable pub id_bytes : Result Bytes → Bytes
id_bytes (ok b) = b
id_bytes (err e) = 0 ∷ 0 ∷ 0 ∷ 0 ∷ 0 ∷ 0 ∷ 0 ∷ 0 ∷ 0 ∷ 0 ∷ 0 ∷ 0 ∷ []

module _ (p : Platform) (c : Site) (h : HttpRequest) where
  -- withAdmin
  unfoldable pub admin_only : Caller → Action p → Action p
  admin_only who next s =
      let (out, s') = next s in
      if c.dev_mode || who.auth_method == codes "admin_token"
      then (out, s')
      else (record { status = 403; reply = message (codes "admin access required") }, s)

  no_method : Action p
  no_method = reply_with p 405 (message (codes "method not allowed"))

  server : SiteState p → Server
  server s = record { dev_mode = c.dev_mode; engine = s.engine }

  users_action : Action p
  unfolding no_method
  users_action =
      if h.method == codes "POST"
      then handle_user_create p c h
      else if h.method == codes "GET"
      then handle_user_list p c h
      else no_method

  user_action : Action p
  unfolding no_method
  user_action =
      if h.method == codes "DELETE"
      then handle_user_delete p c h
      else if h.method == codes "PUT"
      then handle_user_update p c h
      else no_method

  unfoldable pub inner_action : Caller → Inner → Action p
  unfolding server users_action user_action
  inner_action who logout = handle_logout p c h
  inner_action who whoami = handle_whoami p c h who
  inner_action who kv = λ s. on_world p (route_kv p c.kv c.kv_input (server s) (request_of h who)) s
  inner_action who transit =
      λ s. on_world p (route_transit p c.transit c.transit_input (server s) (request_of h who)) s
  inner_action who status = admin_only who (handle_status p c h)
  inner_action who enroll = admin_only who (handle_enroll p c h)
  inner_action who revoke = admin_only who (handle_revoke p c h)
  inner_action who audit = admin_only who (handle_audit p c h)
  inner_action who admin_create = admin_only who (handle_admin_create p c h)
  inner_action who admin_delete = admin_only who (handle_admin_delete p c h)
  inner_action who policy_reload = admin_only who (handle_policy_reload p c h)
  inner_action who users = admin_only who users_action
  inner_action who user = admin_only who user_action

  unfoldable pub inner_routed : Caller → Routed Inner → Action p
  inner_routed who (moved to) = reply_with p 301 (redirect to)
  inner_routed who not_found = reply_with p 404 (message (codes "404 page not found"))
  inner_routed who (found r) = inner_action who r

  after_access : Access → Action p
  after_access (unauthorized text) = reply_with p 401 (message text)
  after_access (granted who) =
      inner_routed who (route c.clean_path c.unescape h.route_path inner_routes)

  -- auditMiddleware around authMiddleware.
  audited : Context → Access → Action p
  unfolding after_access
  audited ctx access s =
      let (out, s') = after_access access s in
      (
        out,
        logged p c.audit_log h ctx (audit_caller (extract_token (call_of h)) access)
            (audit_status out.status) s',
      )

  access_result : Context → Result Access × SiteState p → Response × SiteState p
  unfolding audited
  access_result ctx (ok access, s) = audited ctx access s
  access_result ctx (err e, s) = audited ctx (unauthorized []) s

  -- The authentication itself never fails with an error.
  unfoldable pub authed_action : Context → Action p
  unfolding access_result
  authed_action ctx s =
      access_result ctx (in_world p (authenticate p c.sessions c.admins c.dev_mode (call_of h)) s)

  unfoldable pub outer_action : Context → Outer → Action p
  outer_action ctx health = handle_health p c h
  outer_action ctx challenge = handle_challenge p c h ctx
  outer_action ctx verify = handle_verify p c h ctx
  outer_action ctx totp = handle_totp_login p c h ctx
  outer_action ctx admin_login = handle_admin_login p c h ctx
  outer_action ctx user_login = handle_user_login p c h ctx
  outer_action ctx authed = authed_action ctx

  unfoldable pub outer_routed : Context → Routed Outer → Action p
  outer_routed ctx (moved to) = reply_with p 301 (redirect to)
  outer_routed ctx not_found = reply_with p 404 (message (codes "404 page not found"))
  outer_routed ctx (found r) = outer_action ctx r

  -- requestIDMiddleware: an error of the random source leaves zeros.
  stamp : Exec (World p) Context
  stamp = do
    b ← try (random p 12)
    time ← now p
    pure (record { request_id = c.request_id_text (id_bytes b); start = time })

  stamped : Result Context × SiteState p → Response × SiteState p
  stamped (ok ctx, s) = outer_routed ctx (route c.clean_path c.unescape h.route_path outer_routes) s
  stamped (err e, s) = (record { status = 500; reply = message [] }, s)

  -- The whole server, for one request.
  unfoldable pub serve : Action p
  unfolding stamp stamped
  serve s = stamped (in_world p stamp s)
