-- ===== src/Api/Login/Answered.antt =====
-- What a password login is answered with.
use lockr.Base.{ℕ, Bytes, inl, inr}
use lockr.Result.{Result-cases}
use lockr.Platform.{Platform}
use lockr.Auth.User as User
use lockr.Auth.Session.{issue}
use lockr.Api.{Response, message, login_is}
use lockr.Api.Site.{HttpRequest, Context, Site, SiteState, log_auth_attempt}
use lockr.Api.Login.{handle_user_login, user_login, log_in, refuse}

-- An error with a text, or a token.
pub data Answered : Response → Type 0 where
  refused :
      (status : ℕ) (text : Bytes) → Answered (record { status = status; reply = message text })
  accepted :
      (token identity policy : Bytes) (ttl : ℕ)
      → Answered (record { status = 200; reply = login_is token identity policy ttl })

module _ (p : Platform) (c : Site) (h : HttpRequest) (ctx : Context) where
  log_in-Answered :
      (identity method policy : Bytes) (s : SiteState p)
      → Answered (log_in p c h ctx identity method policy s).0
  unfolding log_in log_auth_attempt
  log_in-Answered identity method policy s =
      elim (Result-cases (issue p c.sessions identity method policy s.auth.world).0) [
        | inl (token, e) ↦ rw e (accepted token identity policy c.sessions.ttl)
        | inr (x, e) ↦ rw e (refused 500 _)
      ]

  pub handle_user_login-Answered : (s : SiteState p) → Answered (handle_user_login p c h ctx s).0
  unfolding handle_user_login user_login refuse log_auth_attempt
  handle_user_login-Answered s = elim (Result-cases (c.input.decode_password_login h.body)) [
    | inr (x, e) ↦ rw e (refused 400 _)
    | inl ((username, password), e) ↦
        elim (Result-cases (User.verify p c.users username password s.auth.world).0) [
          | inr (x, v) ↦ rw e (rw v (refused 401 _))
          | inl (rec, v) ↦ rw e (rw v (log_in-Answered _ _ _ _))
        ]
  ]
