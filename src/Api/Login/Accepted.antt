-- ===== src/Api/Login/Accepted.antt =====
-- A login that succeeds leaves a session under the token that it answers with.
use lockr.Base.{
  ℕ, suc, [], ◌≡◌, ◌≢◌, refl, ◌++◌, Option, none, some, Bytes, codes, Bytes, inl, inr, arith,
}
use lockr.Keys.{session_path}
use lockr.Result.{ok, Result-cases}
use lockr.Platform.{Platform, now}
use lockr.Platform.Laws.{StoreLaws, CipherLaws, CodecLaws}
use lockr.Storage.Db as Db
use lockr.Storage.Sealed.{SameBut}
use lockr.Storage.Elapsed.{Later}
use lockr.Auth.User.Password.{Later-verify}
use lockr.Auth.Challenge.Elapsed as Checked
use lockr.Api.Site.Elapsed.{Later-logged}
use lockr.Auth.Challenge as Challenge
use lockr.Auth.Challenge.{ServiceRecord}
use lockr.Auth.User as User
use lockr.Auth.User.{UserRecord}
use lockr.Auth.Session.{SessionStore, session_key, issue, validate, check_session, check_expiry}
use lockr.Auth.Session.Lifetime.{IsSession, IsSession-within, issue-IsSession}
use lockr.Audit.{Entry, Logger, LogState, audit_key, log}
use lockr.Audit.Written.{log-SameBut}
use lockr.Api.Authenticate.{Caller}
use lockr.Api.{login_is}
use lockr.Api.Site.{HttpRequest, Context, Site, SiteState, logged, entry_of, log_auth_attempt}
use lockr.Api.Login.{
  log_in, refuse, handle_verify, verify_answer, verify_decoded, verify_signed, handle_user_login,
  user_login,
}

audit_key-ne-session_key :
    (p : Platform) (ss : SessionStore) (time id token : Bytes)
    → audit_key time id ≢ session_key p ss token
unfolding audit_key session_key session_path
audit_key-ne-session_key p ss time id token e = ground arith

module _ (p : Platform) (store : StoreLaws p) (ss : SessionStore) where
  IsSession-SameBut :
      (from until : ℕ) (k : Bytes) (s s' : p.Store) (token identity auth_method policy : Bytes)
      → k ≢ session_key p ss token
      → SameBut p k s s'
      → IsSession p ss store from until s token identity auth_method policy
      → IsSession p ss store from until s' token identity auth_method policy
  unfolding validate check_session check_expiry now Db.get
  IsSession-SameBut from until k s s' token identity auth_method policy n same i = record {
    meta = i.meta;
    clock_read = i.clock_read;
    written = i.written;
    began = i.began;
    order = i.order;
    ended = i.ended;
    issued = i.issued;
    known = i.known;
    method = i.method;
    granted = i.granted;
    expiry = i.expiry;
    answers = λ t. ground (arith, same t (session_key p ss token) n, i.answers t);
  }

  -- Writing to the audit log leaves every session.
  log-IsSession :
      (from until : ℕ) (l : Logger) (e : Entry) (time : ℕ) (s : LogState p)
      (token identity auth_method policy : Bytes)
      → e.timestamp ≡ some time
      → IsSession p ss store from until s.world.db token identity auth_method policy
      → IsSession p ss store from until (log p l e s).1.world.db token identity auth_method policy
  log-IsSession from until l e time s token identity auth_method policy stamp i =
      IsSession-SameBut from until (audit_key (l.rfc3339_nano time) (l.ulid s.world.tick time))
        s.world.db (log p l e s).1.world.db token identity auth_method policy
        (audit_key-ne-session_key p ss (l.rfc3339_nano time) (l.ulid s.world.tick time) token)
        (log-SameBut p store l e time s stamp) i

  logged-IsSession :
      (from until : ℕ) (log : Option Logger) (h : HttpRequest) (ctx : Context) (who : Caller)
      (status : Bytes) (s : SiteState p) (token identity auth_method policy : Bytes)
      → IsSession p ss store from until s.auth.world.db token identity auth_method policy
      → IsSession p ss store from until
          (logged p log h ctx who status s).auth.world.db
          token
          identity
          auth_method
          policy
  unfolding logged entry_of
  logged-IsSession from until none h ctx who status s token identity auth_method policy i = i
  logged-IsSession from until (some l) h ctx who status s token identity auth_method policy i =
      let t = s.auth.world.tick in
      log-IsSession from until l (entry_of h ctx who status (p.clock t) (p.clock (suc t)))
        (p.clock t) _ token identity auth_method policy refl i

module _ (p : Platform) (store : StoreLaws p) (cipher : CipherLaws p) (c : Site) (h : HttpRequest)
    (ctx : Context) (json : CodecLaws c.sessions.metas (λ m. m)) where
  -- A session of a later part of a request is one of the whole request.
  earlier :
      (s s1 s' : SiteState p) (token identity method policy : Bytes)
      → Later p s.auth.world s1.auth.world
      → IsSession p c.sessions store s1.auth.world.tick s'.auth.world.tick s'.auth.world.db token
          identity method policy
      → IsSession p c.sessions store s.auth.world.tick s'.auth.world.tick s'.auth.world.db token
          identity method policy
  earlier s s1 s' token identity method policy late =
      IsSession-within p c.sessions store s1.auth.world.tick s'.auth.world.tick s.auth.world.tick
        s'.auth.world.tick s'.auth.world.db token identity method policy late (omega arith)

  log_in-IsSession :
      (identity method policy token identity' policy' : Bytes) (ttl : ℕ) (s s' : SiteState p)
      → log_in p c h ctx identity method policy s
        ≡ (record { status = 200; reply = login_is token identity' policy' ttl }, s')
      → (identity' ≡ identity)
        × (policy' ≡ policy)
        × IsSession p c.sessions store s.auth.world.tick s'.auth.world.tick s'.auth.world.db token
            identity method policy
  unfolding log_in log_auth_attempt
  log_in-IsSession identity method policy token identity' policy' ttl s s' done =
      elim (Result-cases (issue p c.sessions identity method policy s.auth.world).0) [
        | inr (x, e) ↦ ground arith
        | inl (made, e) ↦
            let w1 = (issue p c.sessions identity method policy s.auth.world).1 in
            let whole : issue p c.sessions identity method policy s.auth.world ≡ (ok made, w1) =
              ground arith in
            let session =
              issue-IsSession p c.sessions store cipher json identity method policy made
                s.auth.world w1 whole in
            let s1 : SiteState p = record s { auth = record s.auth { world = w1 } } in
            let who : Caller = record { identity = identity; auth_method = method; policy = [] } in
            let kept =
              logged-IsSession p store c.sessions s.auth.world.tick w1.tick c.audit_log h ctx who
                (codes "allowed") s1 made identity method policy session in
            let out : s' ≡ logged p c.audit_log h ctx who (codes "allowed") s1 = ground arith in
            let same : made ≡ token = ground arith in
            let late = Later-logged p c.audit_log h ctx who (codes "allowed") s1 in
            let within =
              IsSession-within p c.sessions store s.auth.world.tick w1.tick s.auth.world.tick
                (logged p c.audit_log h ctx who (codes "allowed") s1).auth.world.tick
                (logged p c.audit_log h ctx who (codes "allowed") s1).auth.world.db made identity
                method policy (omega arith) late kept in
            (ground arith, ground arith, rw out (rw (← same) within))
      ]

  -- A password login that is answered with 200 and a token names a user and a password that Verify
  -- accepts, answers with the identity and the policy of that user, and leaves a session of the
  -- token with that identity and policy, also after the attempt is written to the audit log.
  pub handle_user_login-verify :
      (token identity policy : Bytes) (ttl : ℕ) (s s' : SiteState p)
      → handle_user_login p c h ctx s
        ≡ (record { status = 200; reply = login_is token identity policy ttl }, s')
      → (username : Bytes) × (password : Bytes) × (rec : UserRecord)
        × (c.input.decode_password_login h.body ≡ ok (username, password))
        × ((User.verify p c.users username password s.auth.world).0 ≡ ok rec)
        × (identity ≡ codes "user:" ++ rec.username)
        × (policy ≡ rec.policy)
        × IsSession p c.sessions store s.auth.world.tick s'.auth.world.tick s'.auth.world.db token
            identity
            (codes "password")
            policy
  unfolding handle_user_login user_login refuse log_auth_attempt
  handle_user_login-verify token identity policy ttl s s' done =
      elim (Result-cases (c.input.decode_password_login h.body)) [
        | inr (x, e) ↦ ground arith
        | inl ((username, password), e) ↦
            elim (Result-cases (User.verify p c.users username password s.auth.world).0) [
              | inr (x, v) ↦ ground arith
              | inl (rec, v) ↦
                  let s1 : SiteState p = record s {
                    auth = record s.auth {
                      world = (User.verify p c.users username password s.auth.world).1;
                    };
                  } in
                  let logs : log_in p c h ctx (codes "user:" ++ rec.username) (codes "password")
                        rec.policy s1
                      ≡ (record { status = 200; reply = login_is token identity policy ttl }, s') =
                    ground arith in
                  let (named, granted, session) =
                    log_in-IsSession (codes "user:" ++ rec.username) (codes "password") rec.policy
                      token identity policy ttl s1 s' logs in
                  let within =
                    earlier s s1 s' token (codes "user:" ++ rec.username) (codes "password")
                      rec.policy ((Later-verify p c.users username password).at s.auth.world)
                      session in
                  (username, password, rec, e, v, named, granted, rw named (rw granted within))
            ]
      ]

  -- An Ed25519 login that is answered with 200 and a token verified a signed challenge of the service
  -- whose identity and policy it answers with, and leaves a session of the token with them.
  pub handle_verify-verify :
      (token identity policy : Bytes) (ttl : ℕ) (s s' : SiteState p)
      → handle_verify p c h ctx s
        ≡ (record { status = 200; reply = login_is token identity policy ttl }, s')
      → (challenge : Bytes) × (signature : Bytes) × (svc : ServiceRecord) × ((Challenge.verify p
            c.services challenge signature s.auth).0
          ≡ ok svc)
        × (identity ≡ codes "svc:" ++ svc.name)
        × (policy ≡ svc.policy)
        × IsSession p c.sessions store s.auth.world.tick s'.auth.world.tick s'.auth.world.db token
            identity
            (codes "ed25519")
            policy
  unfolding handle_verify verify_answer verify_decoded verify_signed refuse log_auth_attempt
  handle_verify-verify token identity policy ttl s s' done =
      elim (Result-cases (c.input.decode_answer h.body)) [
        | inr (x, e) ↦ ground arith
        | inl ((challenge_hex, signature_hex), e) ↦
            elim (Result-cases (c.input.hex_decode challenge_hex)) [
              | inr (x, e1) ↦ ground arith
              | inl (challenge, e1) ↦ elim (Result-cases (c.input.hex_decode signature_hex)) [
                | inr (x, e2) ↦ ground arith
                | inl (signature, e2) ↦
                    elim (Result-cases
                      (Challenge.verify p c.services challenge signature s.auth).0) [
                        | inr (x, v) ↦ ground arith
                        | inl (svc, v) ↦
                            let s1 : SiteState p = record s {
                              auth = (Challenge.verify p c.services challenge signature s.auth).1;
                            } in
                            let logs : log_in p c h ctx (codes "svc:" ++ svc.name) (codes "ed25519")
                                  svc.policy s1
                                ≡ (
                                  record {
                                    status = 200;
                                    reply = login_is token identity policy ttl;
                                  },
                                  s',
                                ) =
                              ground arith in
                            let (named, granted, session) =
                              log_in-IsSession (codes "svc:" ++ svc.name) (codes "ed25519")
                                svc.policy token identity policy ttl s1 s' logs in
                            let within =
                              earlier s s1 s' token (codes "svc:" ++ svc.name) (codes "ed25519")
                                svc.policy
                                ((Checked.Later-verify p c.services challenge signature).at s.auth)
                                session in
                            (
                              challenge,
                              signature,
                              svc,
                              v,
                              named,
                              granted,
                              rw named (rw granted within),
                            )
                      ]
              ]
            ]
      ]
