-- ===== src/Api/Login.antt =====
-- internal/api/auth_handlers.go: the ways to log in, logging out, and who is logged in.
pub mod Accepted
pub mod Answered
pub mod Onward
pub mod Used
use lockr.Base.{ℕ, ◌||◌, [], ◌∷◌, ◌++◌, Bytes, codes, ◌==◌, if◌then◌else◌}
use lockr.Result.{Error, Result, ok, err, Exec}
use lockr.Platform.{Platform, World, now}
use lockr.Auth.Session.{issue, revoke}
use lockr.Auth.Admin as Admin
use lockr.Auth.Admin.{AdminRecord}
use lockr.Auth.User as User
use lockr.Auth.User.{UserRecord}
use lockr.Auth.Challenge as Challenge
use lockr.Auth.Challenge.{ServiceRecord, generate_challenge}
use lockr.Auth.Totp as Totp
use lockr.Auth.Totp.{TotpRecord}
use lockr.Api.{Request, Response, message, failure, status_is, challenge_is, login_is, whoami_is}
use lockr.Api.Authenticate.{Caller, extract_token}
use lockr.Api.Site.{
  HttpRequest, Context, Site, SiteState, Action, reply_with, in_world, in_auth, on_result,
  log_auth_attempt, call_of,
}

module _ (p : Platform) (c : Site) (h : HttpRequest) (ctx : Context) where
  challenge_for : Bytes → Action p
  challenge_for service =
      if service == []
      then reply_with p 400 (message (codes "service name required"))
      else on_result p
          (λ e.
            log_auth_attempt p c h ctx (codes "svc:" ++ service) (codes "ed25519") (codes "denied")
              (reply_with p 404 (failure e)))
          (λ challenge.
            log_auth_attempt p c h ctx (codes "svc:" ++ service) (codes "ed25519")
              (codes "challenge_issued")
              (reply_with p 200 (challenge_is (c.services.hex challenge) service)))
          (in_auth p (generate_challenge p c.services service))

  challenge_decoded : Result Bytes → Action p
  unfolding challenge_for
  challenge_decoded (err e) = reply_with p 400 (message (codes "service name required"))
  challenge_decoded (ok service) = challenge_for service

  unfoldable pub handle_challenge : Action p
  unfolding challenge_decoded
  handle_challenge = challenge_decoded (c.input.decode_service h.body)

  -- A session for the identity, the attempt as allowed, and the token; the session is issued first.
  unfoldable pub log_in : Bytes → Bytes → Bytes → Action p
  log_in identity method policy =
      on_result p (λ e. reply_with p 500 (message (codes "could not issue session")))
        (λ token.
          log_auth_attempt p c h ctx identity method (codes "allowed")
            (reply_with p 200 (login_is token identity policy c.sessions.ttl)))
        (in_world p (issue p c.sessions identity method policy))

  -- A refused login, with the identity that is claimed.
  unfoldable pub refuse : Bytes → Bytes → Bytes → Action p
  refuse identity method text =
      log_auth_attempt p c h ctx identity method (codes "denied") (reply_with p 401 (message text))

  verify_signed : Bytes → Bytes → Action p
  verify_signed challenge signature =
      on_result p
        (λ e. refuse (codes "svc:unknown") (codes "ed25519") (codes "authentication failed"))
        (λ (svc : ServiceRecord). log_in (codes "svc:" ++ svc.name) (codes "ed25519") svc.policy)
        (in_auth p (Challenge.verify p c.services challenge signature))

  verify_decoded : Result Bytes → Result Bytes → Action p
  unfolding verify_signed
  verify_decoded (err e) signature = reply_with p 400 (message (codes "invalid challenge encoding"))
  verify_decoded (ok challenge) (err e) =
      reply_with p 400 (message (codes "invalid signature encoding"))
  verify_decoded (ok challenge) (ok signature) = verify_signed challenge signature

  verify_answer : Result (Bytes × Bytes) → Action p
  unfolding verify_decoded
  verify_answer (err e) = reply_with p 400 (message (codes "invalid request body"))
  verify_answer (ok (challenge, signature)) =
      verify_decoded (c.input.hex_decode challenge) (c.input.hex_decode signature)

  unfoldable pub handle_verify : Action p
  unfolding verify_answer
  handle_verify = verify_answer (c.input.decode_answer h.body)

  totp_login : Result (Bytes × ℕ) → Action p
  totp_login (err e) = reply_with p 400 (message (codes "invalid request body"))
  totp_login (ok (service, code)) =
      on_result p (λ e. refuse (codes "svc:" ++ service) (codes "totp") (codes "invalid TOTP code"))
        (λ (rec : TotpRecord). log_in (codes "svc:" ++ rec.name) (codes "totp") rec.policy)
        (in_world p (Totp.verify p c.totps service code))

  unfoldable pub handle_totp_login : Action p
  unfolding totp_login
  handle_totp_login = totp_login (c.input.decode_code h.body)

  admin_login : Result Bytes → Action p
  admin_login (err e) = reply_with p 400 (message (codes "invalid request body"))
  admin_login (ok token) =
      on_result p
        (λ e. refuse (codes "admin:unknown") (codes "admin_token") (codes "invalid admin token"))
        (λ (rec : AdminRecord).
          log_in (codes "admin:" ++ rec.name) (codes "admin_token") rec.policy)
        (in_world p (Admin.verify p c.admins token))

  unfoldable pub handle_admin_login : Action p
  unfolding admin_login
  handle_admin_login = admin_login (c.input.decode_token h.body)

  user_login : Result (Bytes × Bytes) → Action p
  user_login (err e) = reply_with p 400 (message (codes "invalid request body"))
  user_login (ok (username, password)) =
      on_result p
        (λ e. refuse (codes "user:" ++ username) (codes "password") (codes "invalid credentials"))
        (λ (rec : UserRecord). log_in (codes "user:" ++ rec.username) (codes "password") rec.policy)
        (in_world p (User.verify p c.users username password))

  unfoldable pub handle_user_login : Action p
  unfolding user_login
  handle_user_login = user_login (c.input.decode_password_login h.body)

module _ (p : Platform) (c : Site) (h : HttpRequest) where
  -- The error of the revocation is dropped.
  unfoldable pub handle_logout : Action p
  handle_logout =
      let done = reply_with p 200 (status_is (codes "logged out")) in
      let token = extract_token (call_of h) in
      let ended = on_result p (λ e. done) (λ u. done) (in_world p (revoke p c.sessions token)) in
      if token == [] then done else ended

  unfoldable pub handle_whoami : Caller → Action p
  handle_whoami who =
      on_result p (λ e. reply_with p 500 (failure e))
        (λ time. reply_with p 200 (whoami_is who.identity who.policy time)) (in_world p (now p))
