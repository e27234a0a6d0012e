-- ===== src/Server.antt =====
-- internal/server/server.go: what a start puts together before the server listens, and the policies
-- after a SIGHUP. cmd/lockr/main.go: which configuration it starts with, and the first admin token.
pub mod Secured
pub mod Running
use lockr.Base.{
  ℕ, Bool, true, false, not, ◌||◌, [], Option, none, some, Bytes, codes, ◌==◌, if◌then◌else◌,
}
use lockr.Base.Int.{Int64}
use lockr.Result.{
  Error, Result, ok, err, Exec, map_err, open_storage, load_master_key_of_config, init_audit_logger,
  load_policies, load_tls_cert, passphrase_required, load_config_of_flags, wrap, lift, pure, fail,
  ◌>>=◌, ◌>>◌,
}
use lockr.Platform.{Platform, World, ask, Codec}
use lockr.Storage.Crypto.{Crypto, MasterKeyFile, generate_master_key, load_master_key}
use lockr.Policy.{Engine, Files, new_engine, load_all}
use lockr.Audit.{Logger}
use lockr.Auth.Admin as Admin
use lockr.Auth.Admin.{AdminAuth, has_admins}
use lockr.Config.{Config, defaults, ConfigFiles, load}

-- badger.Open (the directory, "" for a database in memory), os.Getenv("LOCKR_PASSPHRASE"), the file of
-- the master key with its codec, the log file that is opened, tls.LoadX509KeyPair, and the policy files
-- as they stand when an outside call is made.
pub record Boot (p : Platform) : Type 0 where
  pub open_db : Bytes → Bool → Result p.Store
  pub passphrase : Bytes
  pub read_key_file : Bytes → Result Bytes
  pub key_file : Codec MasterKeyFile
  pub open_log : Bytes → Result Logger
  pub key_pair : Bytes → Bytes → Result Bytes
  pub files : ℕ → Files

-- What the server listens with. No certificate stands for plain HTTP.
pub record Started (p : Platform) : Type 0 where
  pub world : World p
  pub crypto : Crypto
  pub audit_log : Option Logger
  pub engine : Engine
  pub session_ttl : Int64
  pub certificate : Option Bytes
  pub addr : Bytes

-- serverCmd: the configuration file, or the defaults.
unfoldable pub server_config : ConfigFiles → Bytes → Bool → Result Config
server_config fs path dev_mode =
    let file = if path == [] then codes "/etc/lockr/config.yml" else path in
    if dev_mode then ok defaults else map_err load_config_of_flags (load fs file)

-- The handler of SIGHUP, with the files as they stand at the signal, drops the error.
unfoldable pub reload_policies : Files → Engine → Engine
reload_policies fs e = (load_all fs e).1

module _ (p : Platform) (boot : Boot p) (cfg : Config) where
  stored_key : Result Bytes
  stored_key = elim (boot.read_key_file cfg.storage.master_key_path) [
    | ok text ↦ load_master_key p boot.key_file text boot.passphrase
    | err e ↦ err e
  ]

  -- A new key in development mode, else the key of the file, opened with the passphrase.
  unfoldable pub master_key : Bool → Exec (World p) Bytes
  unfolding stored_key
  master_key true = generate_master_key p
  master_key false = lift (
      if boot.passphrase == []
      then err passphrase_required
      else map_err load_master_key_of_config stored_key)

  unfoldable pub audit_logger : Bool → Result (Option Logger)
  audit_logger true = ok none
  audit_logger false = elim (boot.open_log cfg.audit.log_file) [
    | ok l ↦ ok (some l)
    | err e ↦ err (init_audit_logger e)
  ]

  loaded : Result (Unit {0}) × Engine → Result Engine
  loaded (ok u, e) = ok e
  loaded (err x, e) = err (load_policies x)

  unfoldable pub policy_engine : Bool → Exec (World p) Engine
  unfolding loaded
  policy_engine true = pure (new_engine cfg.policy.dir)
  policy_engine false = ask p (λ t s. loaded (load_all (boot.files t) (new_engine cfg.policy.dir)))

  unfoldable pub certificate_of : Bool → Result (Option Bytes)
  certificate_of true = ok none
  certificate_of false = elim (boot.key_pair cfg.server.tls_cert cfg.server.tls_key) [
    | ok c ↦ ok (some c)
    | err e ↦ err (load_tls_cert e)
  ]

  assemble : Bytes → Option Logger → Engine → Option Bytes → Exec (World p) (Started p)
  assemble key logger engine certificate w = (
    ok (record {
      world = w;
      crypto = record { master_key = key };
      audit_log = logger;
      engine = engine;
      session_ttl = cfg.session.ttl;
      certificate = certificate;
      addr = cfg.server.addr;
    }),
    w,
  )

  -- The part of Run after the database is open.
  unfoldable pub prepare : Bool → Exec (World p) (Started p)
  unfolding assemble
  prepare dev_mode = do
    key ← master_key dev_mode
    logger ← lift (audit_logger dev_mode)
    engine ← policy_engine dev_mode
    certificate ← lift (certificate_of dev_mode)
    assemble key logger engine certificate

  -- Run, until it listens.
  unfoldable pub run : Bool → Result (Started p)
  run dev_mode = elim (boot.open_db (if dev_mode then [] else cfg.storage.data_dir) dev_mode) [
    | ok db ↦ (prepare dev_mode (record { db = db; tick = 0 })).0
    | err e ↦ err (open_storage e)
  ]

module _ (p : Platform) (a : AdminAuth) where
  -- bootstrapAdminToken, on the open database: no token if there are admins.
  unfoldable pub bootstrap_admin_token : Exec (World p) Bytes
  bootstrap_admin_token = do
    found ← has_admins p a
    let made = Admin.create p a (codes "root") (codes "root")
    if found then pure [] else made
