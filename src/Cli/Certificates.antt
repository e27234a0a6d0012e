-- ===== src/Cli/Certificates.antt =====
-- cmd/lockr/main.go: the certificates that the command init makes, for an authority of its own and for the
-- server.
use lockr.Base.{ℕ, ◌+◌, ◌*◌, ◌^◌, Bool, true, false, List, [], ◌∷◌, Bytes, codes}
use lockr.Result.{Result, Exec, pure, lift, ◌>>=◌, ◌>>◌}
use lockr.Platform.{Platform, World, now, ask}
use lockr.Cli.Files.{Os, only_owner_dir, only_owner, readable}

pub data KeyUsage : Type 0 where
  cert_sign crl_sign digital_signature : KeyUsage

-- The fields of x509.Certificate that are set, with the common name of the subject.
pub record Template : Type 0 where
  pub serial_number : ℕ
  pub common_name : Bytes
  pub dns_names : List Bytes
  pub ip_addresses : List Bytes
  pub not_before : ℕ
  pub not_after : ℕ
  pub is_ca : Bool
  pub key_usage : List KeyUsage
  pub server_auth : Bool
  pub basic_constraints_valid : Bool

-- The parent of a new certificate: a template, or a certificate that was parsed.
pub data Parent : Type 0 where
  unsigned : Template → Parent
  parsed : Bytes → Parent

-- ed25519.GenerateKey (public and private key), x509.CreateCertificate (template, parent, public key,
-- private key of the parent), x509.MarshalPKCS8PrivateKey, and whether x509.ParseCertificate takes the
-- bytes.
pub record X509 : Type 0 where
  pub generate_key : ℕ → Result (Bytes × Bytes)
  pub create_certificate : ℕ → Template → Parent → Bytes → Bytes → Result Bytes
  pub marshal_private_key : Bytes → Result Bytes
  pub parse_certificate : Bytes → Result Bytes

-- The files, and the database of the data directory with the number of outside calls.
pub record Machine (p : Platform) (S : Type 0) : Type 0 where
  pub os : S
  pub world : World p

module _ {p : Platform} {S : Type 0} where
  abbrev pub on_os : {A : Type 0} → Exec S A → Exec (Machine p S) A
  on_os m s = let (r, t) = m s.os in (r, record s { os = t })

  abbrev pub on_world : {A : Type 0} → Exec (World p) A → Exec (Machine p S) A
  on_world m s = let (r, w) = m s.world in (r, record s { world = w })

module _ {S : Type 0} (os : Os S) where
  unfoldable pub write_pem_with_mode : Bytes → Bytes → Bytes → ℕ → Exec S (Unit {0})
  write_pem_with_mode path typ der mode = do os.create path mode; os.encode_pem path typ der

  unfoldable pub write_pem : Bytes → Bytes → Bytes → Exec S (Unit {0})
  write_pem path typ der = write_pem_with_mode path typ der only_owner

  abbrev year : ℕ
  year = 365 * 24 * 3600 * 10 ^ 9

  unfoldable pub ca_template : ℕ → ℕ → Template
  ca_template start until = record {
    serial_number = 1;
    common_name = codes "Lockr CA";
    dns_names = [];
    ip_addresses = [];
    not_before = start;
    not_after = until + 10 * year;
    is_ca = true;
    key_usage = cert_sign ∷ crl_sign ∷ [];
    server_auth = false;
    basic_constraints_valid = true;
  }

  unfoldable pub server_template : ℕ → ℕ → Template
  server_template start until = record {
    serial_number = 2;
    common_name = codes "lockr";
    dns_names = codes "lockr" ∷ codes "localhost" ∷ [];
    ip_addresses = codes "127.0.0.1" ∷ [];
    not_before = start;
    not_after = until + 2 * year;
    is_ca = false;
    key_usage = digital_signature ∷ [];
    server_auth = true;
    basic_constraints_valid = false;
  }

module _ (p : Platform) {S : Type 0} (os : Os S) (x509 : X509) where
  abbrev new_key : Exec (Machine p S) (Bytes × Bytes)
  new_key = on_world (ask p (λ t s. x509.generate_key t))

  -- A certificate from two readings of the clock.
  abbrev new_certificate :
      (ℕ → ℕ → Template) → (Template → Parent) → Bytes → Bytes → Exec (Machine p S) Bytes
  new_certificate template parent public private = do
    start ← on_world (now p)
    until ← on_world (now p)
    on_world (
        ask p (λ t s.
          x509.create_certificate t (template start until) (parent (template start until)) public
            private))

  -- The certificate of the authority, and its private key.
  unfoldable pub generate_ca : Bytes → Exec (Machine p S) (Bytes × Bytes)
  generate_ca dir = do
    keys ← new_key
    der ← new_certificate (ca_template os) unsigned keys.0 keys.1
    on_os (write_pem_with_mode os (os.join dir (codes "ca.crt")) (codes "CERTIFICATE") der readable)
    private ← lift (x509.marshal_private_key keys.1)
    on_os (write_pem os (os.join dir (codes "ca.key")) (codes "PRIVATE KEY") private)
    certificate ← lift (x509.parse_certificate der)
    pure (certificate, keys.1)

  unfoldable pub generate_server_pair : Bytes → Bytes × Bytes → Exec (Machine p S) (Unit {0})
  generate_server_pair dir ca = do
    keys ← new_key
    der ← new_certificate (server_template os) (λ template. parsed ca.0) keys.0 ca.1
    on_os (write_pem os (os.join dir (codes "server.crt")) (codes "CERTIFICATE") der)
    private ← lift (x509.marshal_private_key keys.1)
    on_os (write_pem os (os.join dir (codes "server.key")) (codes "PRIVATE KEY") private)

  unfoldable pub generate_tls_certs : Bytes → Exec (Machine p S) (Unit {0})
  generate_tls_certs dir = do
    on_os (os.mkdir_all dir only_owner_dir)
    ca ← generate_ca dir
    generate_server_pair dir ca
