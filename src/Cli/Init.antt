-- ===== src/Cli/Init.antt =====
-- cmd/lockr/main.go: the command init: the master key, the certificates, the example configuration and
-- the first admin token.
pub mod Opened
pub mod Untouched
use lockr.Base.{
  Bool, true, false, List, [], ◌∷◌, ◌++◌, Option, none, some, Bytes, codes, if◌then◌else◌,
}
use lockr.Result.{
  Error, Result, ok, err, Exec, not_exist, create_data_dir, open_storage, wrap, pure, lift, try,
  ◌>>=◌, ◌>>◌,
}
use lockr.Result as Result
use lockr.Platform.{Platform, World, Codec}
use lockr.Storage.Crypto.{MasterKeyFile, generate_master_key, save_master_key}
use lockr.Auth.Admin.{AdminAuth}
use lockr.Server.{bootstrap_admin_token}
use lockr.Cli.Files.{Os, only_owner_dir, only_owner, read_passphrase}
use lockr.Cli.Certificates.{X509, Machine, on_os, on_world, generate_tls_certs}

-- os.IsNotExist on what os.Stat returned
unfoldable pub is_missing : Result (Unit {0}) → Bool
is_missing (ok u) = false
is_missing (err not_exist) = true
is_missing (err e) = false

-- What init prints beside fixed texts: the directories that it warns of, the outcome of the certificates,
-- the outcome of writing the configuration (none if there is one), and the first admin token.
pub record Report : Type 0 where
  pub warnings : List Bytes
  pub key_path : Bytes
  pub certificates : Result (Unit {0})
  pub config : Option (Result (Unit {0}))
  pub admin_token : Result Bytes

-- The codec of the key file, and storage.Open of a directory, on the database that it holds.
pub record Setup (p : Platform) : Type 0 where
  pub key_file : Codec MasterKeyFile
  pub admins : AdminAuth
  pub open_db : Bytes → p.Store → Result p.Store

abbrev pub tls_dir : Bytes
tls_dir = codes "/etc/lockr/tls"

abbrev pub config_path : Bytes
config_path = codes "/etc/lockr/config.yml"

unfoldable pub example_config : Bytes → Bytes
example_config data_dir =
    codes "server:\n  addr: \"0.0.0.0:8300\"\n  tls_cert: \"/etc/lockr/tls/server.crt\"\n"
    ++ codes "  tls_key: \"/etc/lockr/tls/server.key\"\n  tls_ca: \"/etc/lockr/tls/ca.crt\"\n\n"
    ++ codes "storage:\n  data_dir: \""
    ++ data_dir
    ++ codes "/data\"\n"
    ++ codes "  master_key_path: \""
    ++ data_dir
    ++ codes "/master.key.enc\"\n\n"
    ++ codes "audit:\n  log_file: \""
    ++ data_dir
    ++ codes "/audit.log\"\n\n"
    ++ codes "policy:\n  dir: \"/etc/lockr/policies\"\n\n"
    ++ codes "session:\n  ttl: \"1h\"\n  max_ttl: \"24h\"\n\nlog_level: \"info\"\n"

unfoldable pub warned : Bytes → Result (Unit {0}) → List Bytes
warned dir (ok u) = []
warned dir (err e) = dir ∷ []

module _ (p : Platform) {S : Type 0} (os : Os S) (x509 : X509) (setup : Setup p) where
  make_data_dir : Bytes → Exec (Machine p S) (Unit {0})
  make_data_dir dir = wrap (create_data_dir dir) (on_os (os.mkdir_all dir only_owner_dir))

  -- A directory that cannot be made is only warned of.
  make_etc_dir : Bytes → Exec (Machine p S) (List Bytes)
  make_etc_dir dir = do made ← try (on_os (os.mkdir_all dir only_owner_dir)); pure (warned dir made)

  save_key : Bytes → Bytes → Bytes → Exec (Machine p S) (Unit {0})
  save_key path key passphrase = do
    stored ← on_world (save_master_key p setup.key_file key passphrase)
    on_os (os.write_file path stored only_owner)

  make_dirs : Bytes → Exec (Machine p S) (List Bytes)
  unfolding make_data_dir make_etc_dir
  make_dirs data_dir = do
    make_data_dir data_dir
    make_data_dir (os.join data_dir (codes "data"))
    tls ← make_etc_dir tls_dir
    policies ← make_etc_dir (codes "/etc/lockr/policies")
    pure (tls ++ policies)

  -- The key is made before the passphrase is asked for.
  save_new_key : Bytes → Exec (Machine p S) (Unit {0})
  unfolding save_key
  save_new_key path = do
    key ← wrap Error.generate_master_key (on_world (generate_master_key p))
    passphrase ← on_os (read_passphrase os)
    wrap Error.save_master_key (save_key path key passphrase)

  config_if_missing : Bytes → Result (Unit {0}) → Exec (Machine p S) (Option (Result (Unit {0})))
  config_if_missing data_dir found =
      let written : Exec (Machine p S) (Option (Result (Unit {0}))) = (do
        outcome ← try (on_os (os.write_file config_path (example_config data_dir) only_owner))
        pure (some outcome)) in
      if is_missing found then written else pure none

  write_config : Bytes → Exec (Machine p S) (Option (Result (Unit {0})))
  unfolding config_if_missing
  write_config data_dir = do
    found ← try (on_os (os.stat config_path))
    config_if_missing data_dir found

  bootstrap_in : Result p.Store → Exec (Machine p S) Bytes
  bootstrap_in (err e) s = (err (open_storage e), s)
  bootstrap_in (ok db) s =
      on_world (bootstrap_admin_token p setup.admins)
        (record s { world = record s.world { db = db } })

  -- bootstrapAdminToken, with the opening of the database.
  open_and_bootstrap : Bytes → Exec (Machine p S) Bytes
  unfolding bootstrap_in
  open_and_bootstrap dir s = bootstrap_in (setup.open_db dir s.world.db) s

  -- What follows the saving of the key. None of it ends the command.
  pub finish : Bytes → List Bytes → Exec (Machine p S) Report
  unfolding write_config open_and_bootstrap
  finish data_dir warnings = do
    certificates ← try (generate_tls_certs p os x509 tls_dir)
    config ← write_config data_dir
    token ← try (open_and_bootstrap (os.join data_dir (codes "data")))
    pure (record {
      warnings = warnings;
      key_path = os.join data_dir (codes "master.key.enc");
      certificates = certificates;
      config = config;
      admin_token = token;
    })

  -- runInit. The copy of the key that is zeroed is not kept, and the fixed texts are left out.
  unfoldable pub run_init : Bytes → Exec (Machine p S) Report
  unfolding make_dirs save_new_key finish
  run_init data_dir = do
    warnings ← make_dirs data_dir
    save_new_key (os.join data_dir (codes "master.key.enc"))
    finish data_dir warnings
