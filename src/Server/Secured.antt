-- ===== src/Server/Secured.antt =====
-- With what a server listens outside development mode.
use lockr.Base.{ℕ, ◌≡◌, ◌≢◌, ap, ◌∙◌, false, [], some, Bytes, ==_refl, inl, inr, arith}
use lockr.Result.{ok, Result-cases}
use lockr.Platform.{Platform}
use lockr.Storage.Crypto.{load_master_key}
use lockr.Policy.{new_engine, load_all}
use lockr.Audit.{Logger}
use lockr.Config.{Config}
use lockr.Server.{
  Boot, Started, stored_key, master_key, audit_logger, loaded, policy_engine, certificate_of,
  assemble, prepare, run,
}

-- A start outside development mode: the passphrase is given and opens the file of the master key, the
-- audit log is open, the policies are loaded and the certificate is there.
pub record IsSecured (p : Platform) (boot : Boot p) (cfg : Config) (s : Started p) : Type 0 where
  pub given : boot.passphrase ≢ []
  pub opened :
      (text : Bytes) × (boot.read_key_file cfg.storage.master_key_path ≡ ok text)
      × (load_master_key p boot.key_file text boot.passphrase ≡ ok s.crypto.master_key)
  pub logging : (l : Logger) × (boot.open_log cfg.audit.log_file ≡ ok l) × (s.audit_log ≡ some l)
  pub policies : (t : ℕ) × (load_all (boot.files t) (new_engine cfg.policy.dir) ≡ (ok tt, s.engine))
  pub certified :
      (c : Bytes) × (boot.key_pair cfg.server.tls_cert cfg.server.tls_key ≡ ok c)
      × (s.certificate ≡ some c)

-- A server that starts outside development mode has a passphrase that opens the file of the master
-- key to the key it uses, an open audit log, the policies of the directory, and a certificate.
pub run-IsSecured :
    (p : Platform) (boot : Boot p) (cfg : Config) (s : Started p)
    → run p boot cfg false ≡ ok s
    → IsSecured p boot cfg s
unfolding run prepare master_key stored_key audit_logger policy_engine loaded certificate_of
    assemble
run-IsSecured p boot cfg s h = elim (Result-cases (boot.open_db cfg.storage.data_dir false)) [
  | inr (x, e) ↦ ground arith
  | inl (db, e) ↦ elim (Result-cases (boot.read_key_file cfg.storage.master_key_path)) [
    | inr (x, f) ↦ ground arith
    | inl (text, f) ↦ elim (Result-cases (load_master_key p boot.key_file text boot.passphrase)) [
      | inr (x, g) ↦ ground arith
      | inl (key, g) ↦ elim (Result-cases (boot.open_log cfg.audit.log_file)) [
        | inr (x, k) ↦ ground arith
        | inl (l, k) ↦ elim (Result-cases (load_all (boot.files 0) (new_engine cfg.policy.dir)).0) [
          | inr (x, m) ↦ ground arith
          | inl (u, m) ↦
              elim (Result-cases (boot.key_pair cfg.server.tls_cert cfg.server.tls_key)) [
                | inr (x, n) ↦ ground arith
                | inl (c, n) ↦ record {
                  given = λ z. ground (arith, ==_refl boot.passphrase);
                  opened = (text, f, g ∙ ap ok (ground arith));
                  logging = (l, k, ground arith);
                  policies = (0, ground arith);
                  certified = (c, n, ground arith);
                }
              ]
        ]
      ]
    ]
  ]
]
