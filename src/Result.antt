-- ===== src/Result.antt =====
-- Errors as values, and methods that change a state and may fail.
-- An `error` is one constructor for each place of the program that makes or wraps one; an error that
-- a library makes is `library n`, but for the sentinels that the program tests for.
pub mod Follows
use lockr.Base.{ℕ, Bool, true, false, ◌≡◌, refl, ◌⊎◌, inl, inr, Bytes}
use lockr.Base.Int.{Int64}

pub data Error : Type 0 where
  -- storage.ErrNotFound, badger.ErrKeyNotFound, and what os.IsNotExist recognises
  not_found key_not_found not_exist : Error
  library : Bytes → Error
  -- internal/policy
  read_policy_dir load_policy : Bytes → Error → Error
  missing_name : Bytes → Error
  -- internal/storage
  ciphertext_too_short incorrect_passphrase : Error
  generate_master_key generate_salt encrypt_master_key hkdf_derive_key parse_master_key :
      Error → Error
  -- internal/secrets
  secret_deleted : Bytes → Error
  version_not_found : Int64 → Bytes → Error
  rollback : Error → Error
  transit_key_exists transit_key_not_found : Bytes → Error
  key_version_not_found : Int64 → Bytes → Error
  invalid_format : Error
  invalid_version : Bytes → Error
  invalid_encoding : Error → Error
  -- internal/auth
  generate_session_token hash_session_token store_session : Error → Error
  generate_admin_token hash_admin_token hash_password generate_totp_secret : Error → Error
  invalid_token_format session_not_found invalid_session_token session_expired : Error
  invalid_admin_token_format invalid_admin_token : Error
  admin_not_found user_not_found user_exists : Bytes → Error
  invalid_credentials : Error
  service_not_found totp_service_not_found unknown_service : Bytes → Error
  challenge_not_found challenge_expired challenge_mismatch invalid_signature : Error
  invalid_totp_code : Error
  -- internal/audit
  marshal_audit write_audit : Error → Error
  -- internal/config
  read_config parse_config : Bytes → Error → Error
  invalid_config : Error → Error
  addr_required data_dir_required master_key_path_required : Error
  -- internal/server
  open_storage load_master_key_of_config init_audit_logger load_policies load_tls_cert :
      Error → Error
  passphrase_required : Error
  -- pkg/client and cmd/lockr
  read_private_key decode_private_key get_challenge decode_challenge verify_challenge :
      Error → Error
  lockr_request read_ca_cert request_failed decode_response : Error → Error
  request_challenge read_challenge_response read_verify_response load_config_of_flags :
      Error → Error
  create_data_dir : Bytes → Error → Error
  save_master_key : Error → Error
  empty_passphrase unexpected_format : Error
  no_private_key key_or_token_required identity_required ca_required missing_data : Error
  invalid_json : Error → Error
  server_error missing_field no_certificates : Bytes → Error
  invalid_private_key_length : ℕ → Error
  to_too_small : Error
  -- the process ends with status 1, after the error is printed
  exit_with : Error → Error
  -- run-time panics: the use of a nil pointer, and ed25519.Sign with a key of the wrong length
  nil_dereference : Error
  bad_private_key_length : ℕ → Error

pub data Result {ℓ} (A : Type ℓ) : Type ℓ where
  ok : A → Result A
  err : Error → Result A

-- errors.Is(e, storage.ErrNotFound), through the wraps that use %w
unfoldable pub is_not_found : Error → Bool
is_not_found not_found = true
is_not_found (rollback e) = is_not_found e
is_not_found (read_policy_dir d e) = is_not_found e
is_not_found (load_policy n e) = is_not_found e
is_not_found (generate_master_key e) = is_not_found e
is_not_found (generate_salt e) = is_not_found e
is_not_found (encrypt_master_key e) = is_not_found e
is_not_found (hkdf_derive_key e) = is_not_found e
is_not_found (parse_master_key e) = is_not_found e
is_not_found (invalid_encoding e) = is_not_found e
is_not_found (generate_session_token e) = is_not_found e
is_not_found (hash_session_token e) = is_not_found e
is_not_found (generate_admin_token e) = is_not_found e
is_not_found (hash_admin_token e) = is_not_found e
is_not_found (generate_totp_secret e) = is_not_found e
is_not_found (hash_password e) = is_not_found e
is_not_found (store_session e) = is_not_found e
is_not_found (marshal_audit e) = is_not_found e
is_not_found (write_audit e) = is_not_found e
is_not_found (read_config path e) = is_not_found e
is_not_found (parse_config path e) = is_not_found e
is_not_found (invalid_config e) = is_not_found e
is_not_found (open_storage e) = is_not_found e
is_not_found (load_master_key_of_config e) = is_not_found e
is_not_found (init_audit_logger e) = is_not_found e
is_not_found (load_policies e) = is_not_found e
is_not_found (load_tls_cert e) = is_not_found e
is_not_found (read_private_key e) = is_not_found e
is_not_found (decode_private_key e) = is_not_found e
is_not_found (get_challenge e) = is_not_found e
is_not_found (decode_challenge e) = is_not_found e
is_not_found (verify_challenge e) = is_not_found e
is_not_found (lockr_request e) = is_not_found e
is_not_found (read_ca_cert e) = is_not_found e
is_not_found (request_failed e) = is_not_found e
is_not_found (decode_response e) = is_not_found e
is_not_found (request_challenge e) = is_not_found e
is_not_found (read_challenge_response e) = is_not_found e
is_not_found (read_verify_response e) = is_not_found e
is_not_found (load_config_of_flags e) = is_not_found e
is_not_found (create_data_dir dir e) = is_not_found e
is_not_found (save_master_key e) = is_not_found e
is_not_found (invalid_json e) = is_not_found e
is_not_found e = false

-- A method of an object with state `S`. What was written before an error stays written.
abbrev pub Exec {ℓ} : Type ℓ → Type ℓ → Type ℓ
Exec S A = S → Result A × S

-- fmt.Errorf("...: %w", err) around the error of a call
abbrev pub map_err {ℓ} : {A : Type ℓ} → (Error → Error) → Result A → Result A
map_err f (ok a) = ok a
map_err f (err e) = err (f e)

module _ {ℓ} {S A : Type ℓ} where
  abbrev pub wrap : (Error → Error) → Exec S A → Exec S A
  wrap f m s = let (r, s') = m s in (map_err f r, s')

  abbrev pub pure : A → Exec S A
  pure a s = (ok a, s)

  abbrev pub fail : Error → Exec S A
  fail e s = (err e, s)

  abbrev pub lift : Result A → Exec S A
  lift r s = (r, s)

  -- The error is handed to the continuation instead of ending the method.
  abbrev pub try : Exec S A → Exec S (Result A)
  try m s = let (r, s') = m s in (ok r, s')

module _ {ℓ} {S A B : Type ℓ} where
  abbrev pub resume : (A → Exec S B) → Result A → Exec S B
  resume f (ok a) s = f a s
  resume f (err e) s = (err e, s)

  infixl 5 ◌>>=◌ ◌>>◌
  abbrev pub ◌>>=◌ : Exec S A → (A → Exec S B) → Exec S B
  ◌>>=◌ m f s = let (r, s') = m s in resume f r s'

  abbrev pub ◌>>◌ : Exec S A → Exec S B → Exec S B
  m >> n = m >>= λ _. n

pub Result-cases {ℓ} :
    {A : Type ℓ} (r : Result A) → ((a : A) × (r ≡ ok a)) ⊎ ((e : Error) × (r ≡ err e))
Result-cases (ok a) = inl (a, refl)
Result-cases (err e) = inr (e, refl)

-- A method that succeeded ran its first part with success, and then the rest.
pub bind_inv {ℓ} :
    {S A B : Type ℓ} (f : A → Exec S B) (r : Result A) (s : S) {b : B} {s' : S}
    → resume f r s ≡ (ok b, s')
    → (a : A) × (r ≡ ok a) × (f a s ≡ (ok b, s'))
bind_inv f (ok a) s h = (a, refl, h)
bind_inv f (err e) s h = cc

pub then_inv {ℓ} :
    {S A B : Type ℓ} (m : Exec S A) (f : A → Exec S B) (s : S) {b : B} {s' : S}
    → (m >>= f) s ≡ (ok b, s')
    → (a : A) × (t : S) × (m s ≡ (ok a, t)) × (f a t ≡ (ok b, s'))
then_inv m f s h = let (a, e, rest) = bind_inv f (m s).0 (m s).1 h in (a, (m s).1, rw e refl, rest)

unwrapped {ℓ} :
    {S A : Type ℓ} (f : Error → Error) (r : Result A) (u : S) {a : A} {t : S}
    → ◌≡◌ {A = Result A × S} (map_err f r, u) (ok a, t)
    → ◌≡◌ {A = Result A × S} (r, u) (ok a, t)
unwrapped f (ok x) u h = h
unwrapped f (err e) u h = cc

pub wrap_inv {ℓ} :
    {S A : Type ℓ} (f : Error → Error) (m : Exec S A) (s : S) {a : A} {t : S}
    → wrap f m s ≡ (ok a, t)
    → m s ≡ (ok a, t)
wrap_inv f m s h = unwrapped f (m s).0 (m s).1 h
