-- ===== src/Api/Manage.antt =====
-- internal/api/user_handlers.go and sys_handlers.go: users, services, administrators, the audit log and
-- the policies.
pub mod Revocation
pub mod Lines
pub mod Onward
use lockr.Base.{
  ℕ, ◌-◌, Bool, ◌||◌, [], ◌∷◌, Option, none, some, Bytes, codes, ◌==◌, has_suffix, trim_prefix,
  trim_suffix, length, if◌then◌else◌,
}
use lockr.Base.Int.{Int64}
use lockr.Result.{Error, Result, ok, err, Exec, library, nil_dereference}
use lockr.Platform.{Platform, World, now, ask}
use lockr.Policy.{load_all}
use lockr.Auth.Admin as Admin
use lockr.Auth.User as User
use lockr.Auth.Challenge.{ServiceRecord, register_service, delete_service}
use lockr.Auth.Totp.{TotpRecord, register_totp, generate_secret}
use lockr.Audit.{QueryOptions, Logger, query}
use lockr.Api.{
  Response, message, failure, status_is, user_created, users_are, service_enrolled, totp_enrolled,
  admin_created, audit_is, health_is, running,
}
use lockr.Api.Site.{
  HttpRequest, Site, SiteState, Action, reply_with, in_world, in_engine, on_result,
}

module _ (p : Platform) (c : Site) (h : HttpRequest) where
  -- writeErrorWithReqID(w, r, status, err.Error())
  failed : ℕ → Error → Action p
  failed status e = reply_with p status (failure e)

  create_decoded : Result (Bytes × (Bytes × Bytes)) → Action p
  unfolding failed
  create_decoded (err e) = reply_with p 400 (message (codes "invalid request body"))
  create_decoded (ok (username, (password, policy))) =
      if username == [] || password == [] || policy == []
      then reply_with p 400 (message (codes "username, password and policy are required"))
      else on_result p (failed 409) (λ u. reply_with p 200 (user_created username policy))
          (in_world p (User.create p c.users username password policy))

  unfoldable pub handle_user_create : Action p
  unfolding create_decoded
  handle_user_create = create_decoded (c.input.decode_user h.body)

  unfoldable pub handle_user_list : Action p
  unfolding failed
  handle_user_list =
      on_result p (failed 500) (λ users. reply_with p 200 (users_are users (length users)))
        (in_world p (User.list p c.users))

  unfoldable pub user_name : Bytes → Bytes
  user_name url_path = trim_prefix url_path (codes "/v1/sys/users/")

  unfoldable pub handle_user_delete : Action p
  unfolding failed
  handle_user_delete =
      on_result p (failed 404) (λ u. reply_with p 200 (status_is (codes "deleted")))
        (in_world p (User.delete p c.users (user_name h.url_path)))

  update_decoded : (Bytes → Exec (World p) (Unit {0})) → Bytes → Result Bytes → Action p
  unfolding failed
  update_decoded change text (err e) = reply_with p 400 (message text)
  update_decoded change text (ok value) =
      if value == []
      then reply_with p 400 (message text)
      else on_result p (failed 404) (λ u. reply_with p 200 (status_is (codes "updated")))
          (in_world p (change value))

  unfoldable pub handle_user_update : Action p
  unfolding update_decoded
  handle_user_update =
      let path = user_name h.url_path in
      if has_suffix path (codes "/policy")
      then update_decoded (User.change_policy p c.users (trim_suffix path (codes "/policy")))
          (codes "policy is required") (c.input.decode_policy h.body)
      else if has_suffix path (codes "/password")
      then update_decoded (User.change_password p c.users (trim_suffix path (codes "/password")))
          (codes "password is required") (c.input.decode_password h.body)
      else reply_with p 404 (message (codes "not found"))

  unfoldable pub handle_health : Action p
  unfolding failed
  handle_health =
      on_result p (failed 500) (λ time. reply_with p 200 (health_is time)) (in_world p (now p))

  -- The memory and version fields are left out.
  unfoldable pub handle_status : Action p
  unfolding failed
  handle_status =
      on_result p (failed 500) (λ time. reply_with p 200 (running c.dev_mode (time - c.started)))
        (in_world p (now p))

  enroll_ed25519 : Bytes → Bytes → Action p
  unfolding failed
  enroll_ed25519 service policy =
      on_result p (λ e. reply_with p 500 (message (codes "key generation failed")))
        (λ keys.
          on_result p (failed 500)
            (λ u.
              reply_with p 200
                (service_enrolled service policy (c.services.hex keys.0) (c.services.hex keys.1)))
            (in_world p (
              register_service p c.services
                (record { name = service; public_key = keys.0; policy = policy }))))
        (in_world p (ask p (λ t s. c.input.generate_key t)))

  enroll_totp : Bytes → Bytes → Action p
  unfolding failed
  enroll_totp service policy =
      on_result p (failed 500)
        (λ secret.
          on_result p (failed 500) (λ u. reply_with p 200 (totp_enrolled service policy secret.1))
            (in_world p (
              register_totp p c.totps
                (record { name = service; secret = secret.0; policy = policy }))))
        (in_world p (generate_secret p c.totps))

  enroll_decoded : Result (Bytes × (Bytes × Bytes)) → Action p
  unfolding enroll_ed25519 enroll_totp
  enroll_decoded (err e) = reply_with p 400 (message (codes "invalid request body"))
  enroll_decoded (ok (service, (auth_method, policy))) =
      if service == [] || policy == []
      then reply_with p 400 (message (codes "service and policy are required"))
      else if auth_method == [] || auth_method == codes "ed25519"
      then enroll_ed25519 service policy
      else if auth_method == codes "totp"
      then enroll_totp service policy
      else reply_with p 400 (message (codes "auth_method must be 'ed25519' or 'totp'"))

  unfoldable pub handle_enroll : Action p
  unfolding enroll_decoded
  handle_enroll = enroll_decoded (c.input.decode_enrollment h.body)

  unfoldable pub handle_revoke : Action p
  unfolding failed
  handle_revoke =
      on_result p (failed 404) (λ u. reply_with p 200 (status_is (codes "revoked")))
        (in_world p
          (delete_service p c.services (trim_prefix h.url_path (codes "/v1/sys/revoke/"))))

  -- A duration that cannot be parsed is no bound.
  since_option : Bytes → Result Int64 → Int64
  since_option text (err e) = 0
  since_option text (ok d) = if text == [] then 0 else d

  unfoldable pub query_options : QueryOptions
  unfolding since_option
  query_options = record {
    identity = if h.identity_query == [] then h.service_query else h.identity_query;
    since = since_option h.since_query (c.input.parse_duration h.since_query);
    path = h.path_query;
    limit = if h.limit_query == [] then 0 else c.input.atoi_value h.limit_query;
  }

  -- A nil logger has no database: the query panics.
  audit_query : Option Logger → Action p
  unfolding failed
  audit_query none = failed 500 nil_dereference
  audit_query (some l) =
      on_result p (failed 500) (λ entries. reply_with p 200 (audit_is entries (length entries)))
        (in_world p (query p l query_options))

  unfoldable pub handle_audit : Action p
  unfolding audit_query
  handle_audit = audit_query c.audit_log

  create_admin : Result (Bytes × Bytes) → Action p
  unfolding failed
  create_admin (err e) = reply_with p 400 (message (codes "name required"))
  create_admin (ok (name, policy)) =
      if name == []
      then reply_with p 400 (message (codes "name required"))
      else on_result p (failed 500) (λ token. reply_with p 200 (admin_created name token))
          (in_world p
            (Admin.create p c.admins name (if policy == [] then codes "admin" else policy)))

  unfoldable pub handle_admin_create : Action p
  unfolding create_admin
  handle_admin_create = create_admin (c.input.decode_admin h.body)

  unfoldable pub handle_admin_delete : Action p
  unfolding failed
  handle_admin_delete =
      on_result p (failed 404) (λ u. reply_with p 200 (status_is (codes "deleted")))
        (in_world p (Admin.delete p c.admins (trim_prefix h.url_path (codes "/v1/sys/admin/"))))

  unfoldable pub handle_policy_reload : Action p
  unfolding failed
  handle_policy_reload =
      on_result p (failed 500) (λ u. reply_with p 200 (status_is (codes "reloaded")))
        (in_engine p (λ t. load_all (c.files t)))
