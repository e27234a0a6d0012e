-- ===== src/Api/Authenticate/Entry.antt =====
-- What a caller that gets past authMiddleware has shown.
use lockr.Base.{
  true, false, Bool, Bool-cases, [], ◌++◌, ◌&&◌, ◌≡◌, codes, ◌==◌, ==_sound, has_prefix, inl, inr,
  arith,
}
use lockr.Result.{ok, Result-cases}
use lockr.Platform.{Platform, World}
use lockr.Storage.Crypto.{verify_argon2id}
use lockr.Auth.Session.{SessionMeta, SessionStore, validate}
use lockr.Auth.Admin.{AdminRecord, AdminAuth, has_admins, verify}
use lockr.Auth.Admin.Token.{verify_admin_sound}
use lockr.Api.Authenticate.{
  Call, Caller, granted, extract_token, session_access, admin_access, no_admins,
  allow_first_admin_bootstrap, bootstrap_access, token_access, authenticate,
}

-- The four ways in.
pub data Entry (p : Platform) (sessions : SessionStore) (admins : AdminAuth) (dev_mode : Bool)
    (r : Call) (w : World p) : Caller → Type 0 where
  development :
      dev_mode ≡ true
      → Entry p sessions admins dev_mode r w
          (record { identity = codes "dev"; auth_method = codes "dev"; policy = codes "root" })
  first_admin :
      r.method ≡ codes "POST"
      → r.url_path ≡ codes "/v1/sys/admin/create"
      → (has_admins p admins w).0 ≡ ok false
      → Entry p sessions admins dev_mode r w (record {
        identity = codes "bootstrap";
        auth_method = codes "admin_token";
        policy = codes "root";
      })
  by_session :
      (meta : SessionMeta)
      → (validate p sessions (extract_token r) w).0 ≡ ok meta
      → Entry p sessions admins dev_mode r w (record {
        identity = meta.identity;
        auth_method = meta.auth_method;
        policy = meta.policy;
      })
  by_admin_token :
      (rec : AdminRecord)
      → (verify p admins (extract_token r) w).0 ≡ ok rec
      → verify_argon2id p (extract_token r) rec.hash ≡ true
      → Entry p sessions admins dev_mode r w (record {
        identity = codes "admin:" ++ rec.name;
        auth_method = codes "admin_token";
        policy = rec.policy;
      })

module _ (p : Platform) (sessions : SessionStore) (admins : AdminAuth) (dev_mode : Bool)
    (r : Call) where
  bootstrap-Entry :
      (w w' : World p) (c : Caller)
      → bootstrap_access p sessions admins r w ≡ (ok (granted c), w')
      → Entry p sessions admins dev_mode r w c
  unfolding bootstrap_access allow_first_admin_bootstrap no_admins
  bootstrap-Entry w w' c h =
      elim (Bool-cases (r.method == codes "POST" && r.url_path == codes "/v1/sys/admin/create")) [
        | inl y ↦ elim (Result-cases (has_admins p admins w).0) [
          | inl (true, e) ↦ ground arith
          | inl (false, e) ↦
              let same : c ≡ record {
                identity = codes "bootstrap";
                auth_method = codes "admin_token";
                policy = codes "root";
              } =
                ground arith in
              rw same (
                first_admin (==_sound r.method (codes "POST") (ground arith))
                  (==_sound r.url_path (codes "/v1/sys/admin/create") (ground arith)) e)
          | inr (x, e) ↦ ground arith
        ]
        | inr n ↦ ground arith
      ]

  token-Entry :
      (w w' : World p) (c : Caller)
      → token_access p sessions admins (extract_token r) w ≡ (ok (granted c), w')
      → Entry p sessions admins dev_mode r w c
  unfolding token_access session_access admin_access
  token-Entry w w' c h = elim (Bool-cases (has_prefix (extract_token r) (codes "lvt_"))) [
    | inl y ↦ elim (Result-cases (validate p sessions (extract_token r) w).0) [
      | inl (meta, e) ↦
          let same : c ≡ record {
            identity = meta.identity;
            auth_method = meta.auth_method;
            policy = meta.policy;
          } =
            ground arith in
          rw same (by_session meta e)
      | inr (x, e) ↦ ground arith
    ]
    | inr n ↦ elim (Bool-cases (has_prefix (extract_token r) (codes "lkat_"))) [
      | inl a ↦ elim (Result-cases (verify p admins (extract_token r) w).0) [
        | inl (rec, e) ↦
            let same : c ≡ record {
              identity = codes "admin:" ++ rec.name;
              auth_method = codes "admin_token";
              policy = rec.policy;
            } =
              ground arith in
            let whole : verify p admins (extract_token r) w
                ≡ (ok rec, (verify p admins (extract_token r) w).1) =
              ground arith in
            rw same
              (by_admin_token rec e (verify_admin_sound p admins (extract_token r) w _ rec whole).1)
        | inr (x, e) ↦ ground arith
      ]
      | inr b ↦ ground arith
    ]
  ]

-- When authMiddleware lets a request through to the next handler, the server is in development mode,
-- or no administrator exists and the request is the POST that creates one, or the token is that of a
-- session that Validate accepts, or the token is one that Verify of the admin tokens accepts, and it
-- verifies against the hash of that administrator; identity, method and policy are those of that way
-- in.
pub authenticate-Entry :
    (p : Platform) (sessions : SessionStore) (admins : AdminAuth) (dev_mode : Bool) (r : Call)
    (w w' : World p) (c : Caller)
    → authenticate p sessions admins dev_mode r w ≡ (ok (granted c), w')
    → Entry p sessions admins dev_mode r w c
unfolding authenticate
authenticate-Entry p sessions admins dev_mode r w w' c h = elim (Bool-cases dev_mode) [
  | inl y ↦
      let same : c
          ≡ record { identity = codes "dev"; auth_method = codes "dev"; policy = codes "root" } =
        ground arith in
      rw same (development y)
  | inr n ↦ elim (Bool-cases (extract_token r == [])) [
    | inl empty ↦ bootstrap-Entry p sessions admins dev_mode r w w' c (ground arith)
    | inr some_token ↦ token-Entry p sessions admins dev_mode r w w' c (ground arith)
  ]
]
