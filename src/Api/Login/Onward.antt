-- ===== src/Api/Login/Onward.antt =====
-- The handlers of login write sessions and the audit log, and nothing else.
use lockr.Base.{◌≡◌, false, ℕ, Bytes, has_prefix}
use lockr.Result.{Result, ok, err}
use lockr.Platform.{Platform}
use lockr.Platform.Laws.{StoreLaws}
use lockr.Storage.Frame.{frame_rules}
use lockr.Auth.Session.{session_key}
use lockr.Auth.Session.Spares.{issue-Spares, revoke-Spares}
use lockr.Auth.Admin.Spares as Admin
use lockr.Auth.User.Spares as User
use lockr.Auth.Totp.Spares as Totp
use lockr.Auth.Challenge.Spares as Challenge
use lockr.Audit.{audit_key}
use lockr.Api.Site.{HttpRequest, Context, Site, Action, log_auth_attempt}
use lockr.Api.Site.Onward.{Advances, advances_rules, FileLaw, log_auth_attempt-Advances}
use lockr.Api.Authenticate.{Caller}
use lockr.Api.Login.{
  challenge_for, challenge_decoded, handle_challenge, log_in, refuse, verify_signed, verify_decoded,
  verify_answer, handle_verify, totp_login, handle_totp_login, admin_login, handle_admin_login,
  user_login, handle_user_login, handle_logout, handle_whoami,
}

module _ (p : Platform) (c : Site) (area : Bytes) (h : HttpRequest) where
  pub handle_whoami-Advances : (who : Caller) → Advances p area c.files (handle_whoami p c h who)
  unfolding handle_whoami
  handle_whoami-Advances who = search (advances_rules, frame_rules)

  module _ (store : StoreLaws p) where
    pub handle_logout-Advances :
        ((token : Bytes) → has_prefix (session_key p c.sessions token) area ≡ false)
        → Advances p area c.files (handle_logout p c h)
    unfolding handle_logout
    handle_logout-Advances out =
        search (advances_rules, revoke-Spares p store c.sessions area out) depth 9

    module _ (out_log : (time id : Bytes) → has_prefix (audit_key time id) area ≡ false)
        (file : FileLaw c.audit_log) (ctx : Context) where
      attempt-Advances :
          (identity method status : Bytes) (next : Action p)
          → Advances p area c.files next
          → Advances p area c.files (log_auth_attempt p c h ctx identity method status next)
      attempt-Advances = log_auth_attempt-Advances p area c.files store out_log c file h ctx

      challenge_for-Advances :
          (service : Bytes) → Advances p area c.files (challenge_for p c h ctx service)
      unfolding challenge_for
      challenge_for-Advances service =
          search
            (advances_rules, attempt-Advances, Challenge.generate_challenge-Keeps p area c.services)
            depth 9

      challenge_decoded-Advances :
          (r : Result Bytes) → Advances p area c.files (challenge_decoded p c h ctx r)
      unfolding challenge_decoded
      challenge_decoded-Advances (err e) = search advances_rules
      challenge_decoded-Advances (ok service) = challenge_for-Advances service

      pub handle_challenge-Advances : Advances p area c.files (handle_challenge p c h ctx)
      unfolding handle_challenge
      handle_challenge-Advances = search challenge_decoded-Advances

      refuse-Advances :
          (identity method text : Bytes)
          → Advances p area c.files (refuse p c h ctx identity method text)
      unfolding refuse
      refuse-Advances identity method text = search (advances_rules, attempt-Advances)

      module _
          (out_session : (token : Bytes)
            → has_prefix (session_key p c.sessions token) area ≡ false) where
        log_in-Advances :
            (identity method policy : Bytes)
            → Advances p area c.files (log_in p c h ctx identity method policy)
        unfolding log_in
        log_in-Advances identity method policy =
            search
              (advances_rules, attempt-Advances, issue-Spares p store c.sessions area out_session)
              depth 9

        verify_signed-Advances :
            (challenge sig : Bytes)
            → Advances p area c.files (verify_signed p c h ctx challenge sig)
        unfolding verify_signed
        verify_signed-Advances challenge sig =
            search
              (
                advances_rules,
                refuse-Advances,
                log_in-Advances,
                Challenge.verify-Keeps p area c.services,
              )
              depth 9

        verify_decoded-Advances :
            (challenge sig : Result Bytes)
            → Advances p area c.files (verify_decoded p c h ctx challenge sig)
        unfolding verify_decoded
        verify_decoded-Advances (err e) sig = search advances_rules
        verify_decoded-Advances (ok challenge) (err e) = search advances_rules
        verify_decoded-Advances (ok challenge) (ok sig) = verify_signed-Advances challenge sig

        verify_answer-Advances :
            (r : Result (Bytes × Bytes)) → Advances p area c.files (verify_answer p c h ctx r)
        unfolding verify_answer
        verify_answer-Advances (err e) = search advances_rules
        verify_answer-Advances (ok (challenge, sig)) = search verify_decoded-Advances

        pub handle_verify-Advances : Advances p area c.files (handle_verify p c h ctx)
        unfolding handle_verify
        handle_verify-Advances = search verify_answer-Advances

        totp_login-Advances :
            (r : Result (Bytes × ℕ)) → Advances p area c.files (totp_login p c h ctx r)
        unfolding totp_login
        totp_login-Advances (err e) = search advances_rules
        totp_login-Advances (ok (service, code)) =
            search
              (advances_rules, refuse-Advances, log_in-Advances, Totp.verify-Spares p c.totps area)
              depth 9

        pub handle_totp_login-Advances : Advances p area c.files (handle_totp_login p c h ctx)
        unfolding handle_totp_login
        handle_totp_login-Advances = search totp_login-Advances

        admin_login-Advances :
            (r : Result Bytes) → Advances p area c.files (admin_login p c h ctx r)
        unfolding admin_login
        admin_login-Advances (err e) = search advances_rules
        admin_login-Advances (ok token) =
            search
              (
                advances_rules,
                refuse-Advances,
                log_in-Advances,
                Admin.verify-Spares p c.admins area,
              )
              depth 9

        pub handle_admin_login-Advances : Advances p area c.files (handle_admin_login p c h ctx)
        unfolding handle_admin_login
        handle_admin_login-Advances = search admin_login-Advances

        user_login-Advances :
            (r : Result (Bytes × Bytes)) → Advances p area c.files (user_login p c h ctx r)
        unfolding user_login
        user_login-Advances (err e) = search advances_rules
        user_login-Advances (ok (username, password)) =
            search
              (advances_rules, refuse-Advances, log_in-Advances, User.verify-Spares p c.users area)
              depth 9

        pub handle_user_login-Advances : Advances p area c.files (handle_user_login p c h ctx)
        unfolding handle_user_login
        handle_user_login-Advances = search user_login-Advances
