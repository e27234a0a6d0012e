-- ===== src/Api/Login/Used.antt =====
-- What a login is good for: the requests that carry its token.
use lockr.Base.{ℕ, ◌≤◌, ◌<◌, ◌+◌, ◌/◌, ◌≡◌, Bytes, codes, false}
use lockr.Result.{ok}
use lockr.Platform.{Platform}
use lockr.Platform.Laws.{second, StoreLaws, CipherLaws, CodecLaws}
use lockr.Storage.Sealed.{at}
use lockr.Api.{login_is}
use lockr.Api.Authenticate.{Call, extract_token, authenticate}
use lockr.Api.Authenticate.Bearer.{bearer_access, authenticate-IsSession}
use lockr.Api.Site.{HttpRequest, Context, Site, SiteState}
use lockr.Api.Login.{handle_user_login}
use lockr.Api.Login.Accepted.{handle_user_login-verify}

module _ (p : Platform) (store : StoreLaws p) (cipher : CipherLaws p) (c : Site) (h : HttpRequest)
    (ctx : Context) (json : CodecLaws c.sessions.metas (λ m. m)) where
  -- After a password login that is answered with 200 and a token, authMiddleware outside development
  -- mode lets a request that carries the token through, with the identity and the policy of the
  -- answer, as long as the clock is not past the time that it showed during the login plus the time
  -- to live and the database has not dropped the record of the session, and else refuses it.
  pub handle_user_login-authenticate :
      (token identity policy : Bytes) (ttl : ℕ) (s s' : SiteState p) (call : Call)
      → handle_user_login p c h ctx s
        ≡ (record { status = 200; reply = login_is token identity policy ttl }, s')
      → extract_token call ≡ token
      → (issued written : ℕ) × (s.auth.world.tick ≤ issued)
        × (issued < written)
        × (written < s'.auth.world.tick)
        × ((t : ℕ)
            → (authenticate p c.sessions c.admins false call (at p s'.auth.world.db t)).0
              ≡ ok (
                  bearer_access p
                    (record {
                      identity = identity;
                      auth_method = codes "password";
                      policy = policy;
                    })
                    ((p.clock written + c.sessions.ttl) / second)
                    (p.clock issued + c.sessions.ttl)
                    t))
  handle_user_login-authenticate token identity policy ttl s s' call done carried =
      let (username, password, rec, decoded, verified, named, granted, i) =
        handle_user_login-verify p store cipher c h ctx json token identity policy ttl s s' done in
      (
        i.clock_read,
        i.written,
        i.began,
        i.order,
        i.ended,
        λ t. rw (← i.expiry) (
            authenticate-IsSession p c.sessions store c.admins s.auth.world.tick s'.auth.world.tick
              s'.auth.world.db token identity (codes "password") policy call t i carried),
      )
