-- ===== src/Tests/InitRuns.antt =====
-- The command init on a toy machine.
use lockr.Base.{
  false, ==_refl, ==_sound, ℕ, ◌≡◌, ◌≢◌, refl, [], ◌∷◌, ◌++◌, none, some, Option, Bytes, codes,
  ◌==◌, arith,
}
use lockr.Base.Assoc.{Assoc, lookup, insert, without, lookup-insert}
use lockr.Result.{Result, ok, err, not_exist}
use lockr.Platform.{now, random}
use lockr.Storage.Db as Db
use lockr.Storage.Db.{is_key_not_found}
use lockr.Storage.Listing as Listing
use lockr.Storage.Listing.{seek, while_valid, bytes_lt, collect}
use lockr.Storage.Crypto.{
  master_key_len, generate_master_key, save_master_key, load_master_key, aesgcm_encrypt, new_gcm,
  hash_argon2id,
}
use lockr.Auth.Admin as Admin
use lockr.Server.{bootstrap_admin_token}
use lockr.Cli.Files.{Os, OsLaws, read_passphrase, not_empty, scanned}
use lockr.Cli.Certificates.{
  X509, Machine, generate_ca, generate_server_pair, generate_tls_certs, write_pem,
  write_pem_with_mode, ca_template, server_template,
}
use lockr.Cli.Init.{Report, Setup, config_path, run_init, is_missing, warned, example_config}
use lockr.Cli.Init.Opened.{run_init-load_master_key}
use lockr.Cli.Init.Untouched.{IsApart}
use lockr.Tests.Toy.{toy, toy_cipher_laws, fill}
use lockr.Tests.ApiRuns.{admins}
use lockr.Tests.StorageRuns.{file_codec, file_laws}

abbrev Files : Type 0
Files = Assoc Bytes

abbrev read : Option Bytes → Result Bytes
read none = err not_exist
read (some text) = ok text

abbrev found : Option Bytes → Result (Unit {0})
found none = err not_exist
found (some text) = ok tt

-- Files without directories; the passphrase that is typed is "pass".
abbrev os : Os Files
os = record {
  contents = λ s path. read (lookup path s);
  mkdir_all = λ dir mode s. (ok tt, s);
  write_file = λ path text mode s. (ok tt, insert path text s);
  stat = λ path s. (found (lookup path s), s);
  create = λ path mode s. (ok tt, insert path [] s);
  encode_pem = λ path typ der s. (ok tt, insert path (typ ++ der) s);
  join = λ dir name. dir ++ (codes "/" ++ name);
  scan_line = λ s. (codes "pass", s);
}

differ : (a b : Bytes) → (a == b) ≡ false → a ≢ b
differ a b n e = ground (arith, ==_refl a)

other_file :
    (path other text : Bytes) (s : Files)
    → path ≢ other
    → lookup other (insert path text s) ≡ lookup other s
other_file path other text s n =
    ground (arith, lookup-insert path other text s, ==_sound path other)

os_laws : OsLaws os
os_laws = record {
  contents-write_file =
      λ path text mode s s' h. ground (arith, lookup-insert path path text s, ==_refl path);
  other-write_file = λ path text other mode s n. rw (other_file path other text s n) refl;
  other-create = λ path other mode s n. rw (other_file path other [] s n) refl;
  other-encode_pem = λ path typ der other s n. rw (other_file path other (typ ++ der) s n) refl;
  file-mkdir_all = λ dir file mode s. refl;
  file-stat = λ path file s. refl;
  file-scan_line = λ file s. refl;
}

abbrev x509 : X509
x509 = record {
  generate_key = λ t. ok (t ∷ [], t ∷ t ∷ []);
  create_certificate = λ t template parent public private. ok (template.serial_number ∷ public);
  marshal_private_key = λ key. ok key;
  parse_certificate = λ der. ok der;
}

abbrev setup : Setup toy
setup = record { key_file = file_codec; admins = admins; open_db = λ dir db. ok db }

abbrev data_dir : Bytes
data_dir = codes "/var/lib/lockr"

abbrev key_path : Bytes
key_path = codes "/var/lib/lockr/master.key.enc"

abbrev machine : Machine toy Files
machine = record { os = []; world = record { db = []; tick = 0 } }

abbrev initialized : Machine toy Files
initialized = (run_init toy os x509 setup data_dir machine).1

abbrev report : Report
report = record {
  warnings = [];
  key_path = key_path;
  certificates = ok tt;
  config = some (ok tt);
  admin_token = ok (codes "lkat_" ++ fill 32 12);
}

was_initialized : run_init toy os x509 setup data_dir machine ≡ (ok report, initialized)
unfolding run_init generate_master_key random read_passphrase not_empty scanned ◌==◌ save_master_key
    aesgcm_encrypt new_gcm generate_tls_certs generate_ca generate_server_pair write_pem
    write_pem_with_mode ca_template server_template now insert without lookup is_missing warned
    example_config bootstrap_admin_token Admin.has_admins Admin.create hash_argon2id Db.set
    Listing.scan seek while_valid bytes_lt collect Listing.list Listing.scan_items
was_initialized = refl

apart : IsApart toy os os_laws key_path
unfolding ◌==◌
apart = record {
  ca_crt = differ _ _ refl;
  ca_key = differ _ _ refl;
  server_crt = differ _ _ refl;
  server_key = differ _ _ refl;
}

not_config : config_path ≢ key_path
unfolding ◌==◌
not_config = differ _ _ refl

run_init-load_master_key_example :
    (key passphrase stored : Bytes) × (key_path ≡ key_path)
    × ((u : Files) × (codes "pass" ≡ passphrase) × (passphrase ≢ []))
    × ((t : ℕ) × (toy.rand_read t master_key_len ≡ ok key))
    × (read (lookup key_path initialized.os) ≡ ok stored)
    × (load_master_key toy file_codec stored passphrase ≡ ok key)
run_init-load_master_key_example =
    run_init-load_master_key toy os os_laws x509 setup toy_cipher_laws file_laws data_dir machine
      initialized report apart not_config was_initialized
