-- ===== src/Api/Site.antt =====
-- internal/api/server.go and middleware.go: the whole state that requests act on, the components of
-- the server, and what is written to the audit log.
pub mod Lines
pub mod Onward
pub mod Elapsed
use lockr.Base.{
  ℕ, suc, ◌-◌, ◌/◌, ◌^◌, Bool, true, false, ◌||◌, ◌&&◌, List, [], ◌∷◌, Option, none, some, Bytes,
  codes, ◌==◌, eqb, leb, has_prefix, has_suffix, if◌then◌else◌,
}
use lockr.Base.Int.{Int64}
use lockr.Result.{Error, Result, ok, err, Exec}
use lockr.Platform.{Platform, World, now}
use lockr.Policy.{Engine, Files}
use lockr.Secrets.Kv.{KvStore}
use lockr.Secrets.Transit.{TransitStore}
use lockr.Auth.Session.{SessionStore}
use lockr.Auth.Admin.{AdminAuth}
use lockr.Auth.User.{UserAuth}
use lockr.Auth.Challenge.{Ed25519, AuthState}
use lockr.Auth.Totp.{Totp}
use lockr.Audit.{Entry, Logger, LogState, log}
use lockr.Api.{Request, Response, Server, Reply, Handler}
use lockr.Api.Operation.{semantic_operation}
use lockr.Api.Kv.{KvInput}
use lockr.Api.Transit.{TransitInput}
use lockr.Api.Authenticate.{Call, Caller}

-- A request as it arrives: the method, the path by which net/http routes it (escaped), the path and the
-- queries of the URL, the two headers that may carry a token, the body and the address of the client.
pub record HttpRequest : Type 0 where
  pub method : Bytes
  pub route_path : Bytes
  pub url_path : Bytes
  pub version_query : Bytes
  pub identity_query : Bytes
  pub service_query : Bytes
  pub path_query : Bytes
  pub since_query : Bytes
  pub limit_query : Bytes
  pub authorization : Bytes
  pub lockr_token : Bytes
  pub body : Bytes
  pub remote_addr : Bytes

-- What requestIDMiddleware puts into the context.
pub record Context : Type 0 where
  pub request_id : Bytes
  pub start : ℕ

-- encoding/json for the bodies of the handlers, encoding/hex, strconv.Atoi (the number that it also
-- returns with an error), time.ParseDuration, and ed25519.GenerateKey (public and private key).
pub record SiteInput : Type 0 where
  pub decode_service : Bytes → Result Bytes
  pub decode_answer : Bytes → Result (Bytes × Bytes)
  pub decode_code : Bytes → Result (Bytes × ℕ)
  pub decode_token : Bytes → Result Bytes
  pub decode_password_login : Bytes → Result (Bytes × Bytes)
  pub decode_user : Bytes → Result (Bytes × (Bytes × Bytes))
  pub decode_policy : Bytes → Result Bytes
  pub decode_password : Bytes → Result Bytes
  pub decode_enrollment : Bytes → Result (Bytes × (Bytes × Bytes))
  pub decode_admin : Bytes → Result (Bytes × Bytes)
  pub hex_decode : Bytes → Result Bytes
  pub atoi_value : Bytes → Int64
  pub parse_duration : Bytes → Result Int64
  pub generate_key : ℕ → Result (Bytes × Bytes)

-- api.Config: the components, with base64.RawURLEncoding, and the path cleaning and the
-- unescaping of a segment of net/http. In
-- development mode there is no audit log. The policy files are those that stand when a load begins, going
-- by the number of the outside call; they do not change during one load.
pub record Site : Type 0 where
  pub dev_mode : Bool
  pub started : ℕ
  pub kv : KvStore
  pub transit : TransitStore
  pub sessions : SessionStore
  pub admins : AdminAuth
  pub users : UserAuth
  pub services : Ed25519
  pub totps : Totp
  pub files : ℕ → Files
  pub audit_log : Option Logger
  pub kv_input : KvInput
  pub transit_input : TransitInput
  pub input : SiteInput
  pub request_id_text : Bytes → Bytes
  pub clean_path : Bytes → Bytes
  pub unescape : Bytes → Bytes

-- The database and the pending challenges, the policies, and the lines of the audit file.
pub record SiteState (p : Platform) : Type 0 where
  pub auth : AuthState p
  pub engine : Engine
  pub lines : List Bytes

unfoldable pub call_of : HttpRequest → Call
call_of h = record {
  method = h.method;
  url_path = h.url_path;
  authorization = h.authorization;
  lockr_token = h.lockr_token;
}

unfoldable pub request_of : HttpRequest → Caller → Request
request_of h who = record {
  method = h.method;
  url_path = h.url_path;
  version_query = h.version_query;
  body = h.body;
  auth_method = who.auth_method;
  policy = who.policy;
}

unfoldable pub entry_of : HttpRequest → Context → Caller → Bytes → ℕ → ℕ → Entry
entry_of h ctx who status time done = record {
  id = [];
  timestamp = some time;
  identity = who.identity;
  auth_method = who.auth_method;
  operation = semantic_operation h.method h.url_path;
  path = h.url_path;
  secret_version = 0;
  source_ip = h.remote_addr;
  request_id = ctx.request_id;
  status = status;
  policy = who.policy;
  error_message = [];
  duration_ms = (done - ctx.start) / 10 ^ 6;
}

module _ (p : Platform) where
  -- A handler of the whole site.
  abbrev pub Action : Type 0
  Action = SiteState p → Response × SiteState p

  abbrev pub reply_with : ℕ → Reply → Action
  reply_with status reply s = (record { status = status; reply = reply }, s)

  -- A handler that needs only the database.
  abbrev pub on_world : Handler p → Action
  on_world h s =
      let (out, w) = h s.auth.world in (out, record s { auth = record s.auth { world = w } })

  abbrev pub in_world : {A : Type 0} → Exec (World p) A → Exec (SiteState p) A
  in_world m s = let (r, w) = m s.auth.world in (r, record s { auth = record s.auth { world = w } })

  abbrev pub in_auth : {A : Type 0} → Exec (AuthState p) A → Exec (SiteState p) A
  in_auth m s = let (r, a) = m s.auth in (r, record s { auth = a })

  -- A call on the policies, with the number of the outside call that it makes.
  abbrev pub in_engine : {A : Type 0} → (ℕ → Exec Engine A) → Exec (SiteState p) A
  in_engine m s =
      let (r, e) = m s.auth.world.tick s.engine in
      let w = record s.auth.world { tick = suc s.auth.world.tick } in
      (r, record s { auth = record s.auth { world = w }; engine = e })

  abbrev pub continue :
      {A : Type 0}
      → (Error → Action)
      → (A → Action)
      → Result A × SiteState p
      → Response × SiteState p
  continue failed done (ok a, s) = done a s
  continue failed done (err e, s) = failed e s

  -- v, err := m; if err != nil { failed; return }; done
  abbrev pub on_result :
      {A : Type 0} → (Error → Action) → (A → Action) → Exec (SiteState p) A → Action
  on_result failed done m s = continue failed done (m s)

  -- Two readings of the clock: the timestamp of the entry, and the end of its duration.
  unfoldable pub write_log :
      Logger → HttpRequest → Context → Caller → Bytes → SiteState p → SiteState p
  write_log l h ctx who status s =
      let t = s.auth.world.tick in
      let w = record s.auth.world { tick = suc (suc t) } in
      let written =
        log p l (entry_of h ctx who status (p.clock t) (p.clock (suc t)))
          (record { world = w; lines = s.lines }) in
      record s { auth = record s.auth { world = written.1.world }; lines = written.1.lines }

  -- `_ = s.auditLog.Log(...)`, if there is a log
  unfoldable pub logged :
      Option Logger → HttpRequest → Context → Caller → Bytes → SiteState p → SiteState p
  unfolding write_log
  logged none h ctx who status s = s
  logged (some l) h ctx who status s = write_log l h ctx who status s

  -- logAuthAttempt, and then the response.
  unfoldable pub log_auth_attempt :
      Site → HttpRequest → Context → Bytes → Bytes → Bytes → Action → Action
  log_auth_attempt c h ctx identity method status next s = next (
      logged c.audit_log h ctx (record { identity = identity; auth_method = method; policy = [] })
        status s)
