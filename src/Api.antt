-- ===== src/Api.antt =====
-- internal/api: requests, responses, and the handlers for secrets and transit keys
-- (response.go, middleware.go, router.go, kv_handlers.go, transit_handlers.go).
pub mod Kv
pub mod Transit
pub mod Access
pub mod Spares
pub mod Authenticate
pub mod Operation
pub mod Mux
pub mod Site
pub mod Login
pub mod Manage
pub mod Routes
pub mod Envelope
use lockr.Base.{ℕ, Bool, List, [], Bytes, codes, ◌==◌, ◌||◌, if◌then◌else◌}
use lockr.Result.{Error, Result, ok, err, Exec}
use lockr.Platform.{Platform, World}
use lockr.Policy.{Engine, Capability, allowed}
use lockr.Secrets.Kv.{KvEntry}
use lockr.Secrets.Transit.{TransitKeyMeta}
use lockr.Auth.User.{UserRecord}
use lockr.Audit.{Entry}

-- What the handlers read of a request: the method, the path of the URL, its "version" query, the
-- body, and the authentication method and policy that authMiddleware put into the context.
pub record Request : Type 0 where
  pub method : Bytes
  pub url_path : Bytes
  pub version_query : Bytes
  pub body : Bytes
  pub auth_method : Bytes
  pub policy : Bytes

-- The data or the error of the envelope.
pub data Reply : Type 0 where
  message : Bytes → Reply
  failure decryption_failed : Error → Reply
  status_is : Bytes → Reply
  keys_are : List Bytes → Reply
  versions_are : List KvEntry → Reply
  entry_is : KvEntry → Reply
  ciphertext_is plaintext_is : Bytes → Reply
  info_is : TransitKeyMeta → Reply
  key_created : Bytes → Reply
  -- the challenge in hex and the service; the token, the identity, the policy and the time to live
  challenge_is : Bytes → Bytes → Reply
  login_is : Bytes → Bytes → Bytes → ℕ → Reply
  -- the identity, the policy and the time; the users and their number
  whoami_is : Bytes → Bytes → ℕ → Reply
  user_created : Bytes → Bytes → Reply
  users_are : List UserRecord → ℕ → Reply
  -- the service and the policy, with the key pair, or with the secret
  service_enrolled : Bytes → Bytes → Bytes → Bytes → Reply
  totp_enrolled : Bytes → Bytes → Bytes → Reply
  admin_created : Bytes → Bytes → Reply
  audit_is : List Entry → ℕ → Reply
  health_is : ℕ → Reply
  running : Bool → ℕ → Reply
  redirect : Bytes → Reply

pub record Response : Type 0 where
  pub status : ℕ
  pub reply : Reply

abbrev pub denied : Response
denied = record { status = 403; reply = message (codes "permission denied") }

-- The mode of the server, and its policies.
pub record Server : Type 0 where
  pub dev_mode : Bool
  pub engine : Engine

module _ (p : Platform) where
  abbrev pub Handler : Type 0
  Handler = World p → Response × World p

  abbrev pub respond : ℕ → Reply → Handler
  respond status reply w = (record { status = status; reply = reply }, w)

  abbrev answered :
      {A : Type 0} → (Error → Response) → (A → Reply) → Result A × World p → Response × World p
  answered failed reply (ok a, w) = (record { status = 200; reply = reply a }, w)
  answered failed reply (err e, w) = (failed e, w)

  -- A call of a component, with the response to its error.
  abbrev pub answer : {A : Type 0} → (Error → Response) → (A → Reply) → Exec (World p) A → Handler
  answer failed reply m w = answered failed reply (m w)

  -- writeErrorWithReqID(w, r, status, err.Error())
  abbrev pub failed_with : ℕ → Error → Response
  failed_with status e = record { status = status; reply = failure e }

  -- if !s.policy.Allowed(getPolicy(r), path, cap) { ... return }
  unfoldable pub permitted : Server → Request → Bytes → Capability → Handler → Handler
  permitted s r path cap h w =
      let (out, w') = h w in if allowed s.engine r.policy path cap then (out, w') else (denied, w)

  -- withAdmin
  unfoldable pub with_admin : Server → Request → Handler → Handler
  with_admin s r h w =
      let (out, w') = h w in
      if s.dev_mode || r.auth_method == codes "admin_token"
      then (out, w')
      else (record { status = 403; reply = message (codes "admin access required") }, w)
