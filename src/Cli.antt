-- ===== src/Cli.antt =====
-- cmd/lockr/main.go: the HTTP client of the command line, its authentication and what it prints.
pub mod Commands
pub mod Files
pub mod Certificates
pub mod Init
pub mod Enroll
pub mod Identity
use lockr.Base.{
  ℕ, Bool, true, false, not, ◌||◌, List, [], ◌∷◌, ◌++◌, Option, none, some, Bytes, codes, ◌==◌, eqb,
  length, has_prefix, if◌then◌else◌,
}
use lockr.Result.{
  Error, Result, ok, err, Exec, map_err, read_private_key, decode_private_key, decode_challenge,
  verify_challenge, request_failed, decode_response, request_challenge, read_challenge_response,
  read_verify_response, read_ca_cert, key_or_token_required, identity_required, ca_required,
  missing_data, missing_field, no_certificates, invalid_private_key_length, server_error, exit_with,
  wrap, lift, pure, fail, ◌>>=◌, ◌>>◌,
}
use lockr.Client.Net.{
  Wire, Json, null, object, Fields, Body, empty, strings, TlsConfig, roots, unverified,
  private_key_size, at_key, as_string, as_object, signature, exchange,
}

-- The flags that the client commands share.
pub record Flags : Type 0 where
  pub server_addr : Bytes
  pub key_path : Bytes
  pub service_id : Bytes
  pub ca_path : Bytes
  pub admin_token : Bytes
  pub output_fmt : Bytes

pub record LockrClient : Type 0 where
  pub addr : Bytes
  pub token : Bytes
  pub tls_config : TlsConfig

-- What a command prints on its standard output.
pub data Output : Type 0 where
  silent : Output
  printed : Json → Output
  line : Bytes → Output
  -- fmt.Println of a field that may be missing
  field_line : Option Json → Output
  table : List (Option Json × Option Json) → Output
  -- the path of a key that was saved, and then the response
  saved : Bytes → Output → Output

-- os.Getenv, with the text "" for a variable that is not set
unfoldable pub env_or : (Bytes → Bytes) → Bytes → Bytes → Bytes
env_or getenv key fallback = if getenv key == [] then fallback else getenv key

print_error : Option Bytes → Result Output
print_error (some text) = err (exit_with (server_error text))
print_error none = ok silent

print_data : Fields → Option Json → Result Output
unfolding print_error
print_data resp none = print_error (as_string (at_key (codes "error") resp))
print_data resp (some null) = print_error (as_string (at_key (codes "error") resp))
print_data resp (some v) = ok (printed v)

unfoldable pub print_response : Flags → Fields → Result Output
unfolding print_data
print_response flags resp =
    if flags.output_fmt == codes "json"
    then ok (printed (object resp))
    else print_data resp (at_key (codes "data") resp)

refusal : Option Bytes → Bytes
refusal none = []
refusal (some text) = text

field_text : Bytes → Option Bytes → Result Bytes
field_text name none = err (missing_field name)
field_text name (some text) = if text == [] then err (missing_field name) else ok text

data_text : Bytes → Option Fields → Result Bytes
unfolding field_text
data_text name none = err missing_data
data_text name (some fields) = field_text name (as_string (at_key name fields))

unfoldable pub response_data_string : Fields → Bytes → Result Bytes
unfolding refusal data_text
response_data_string resp name =
    let text = refusal (as_string (at_key (codes "error") resp)) in
    if text == []
    then data_text name (as_object (at_key (codes "data") resp))
    else err (server_error text)

module _ {S : Type 0} (wire : Wire S) (flags : Flags) where
  pool : Result Bytes → Result TlsConfig
  pool (ok pem) =
      if wire.append_certs pem then ok (roots pem) else err (no_certificates flags.ca_path)
  pool (err e) = err (read_ca_cert e)

  unfoldable pub build_tls_config : Result TlsConfig
  unfolding pool
  build_tls_config =
      if not (has_prefix flags.server_addr (codes "https://"))
      then ok unverified
      else if flags.ca_path == []
      then err ca_required
      else pool (wire.read_file flags.ca_path)

  unfoldable pub must_build_tls_config : Result TlsConfig
  must_build_tls_config = map_err exit_with build_tls_config

  client_of : Result TlsConfig → Result LockrClient
  client_of (ok tls) =
      ok (record { addr = flags.server_addr; token = flags.admin_token; tls_config = tls })
  client_of (err e) = err e

  unfoldable pub new_admin_client : Result LockrClient
  unfolding client_of
  new_admin_client = client_of must_build_tls_config

module _ {S : Type 0} (wire : Wire S) (decode_map : Bytes → Result Fields) where
  -- lockrClient.do: every status of the answer is taken alike.
  unfoldable pub request : LockrClient → Bytes → Bytes → Body → Exec S Fields
  request c method path body = do
    text ← exchange wire request_failed c.tls_config c.addr c.token method path body
    wrap decode_response (lift (decode_map text))

  unfoldable pub get : LockrClient → Bytes → Exec S Fields
  get c path = request c (codes "GET") path empty

  unfoldable pub post : LockrClient → Bytes → Body → Exec S Fields
  post c path body = request c (codes "POST") path body

  unfoldable pub put : LockrClient → Bytes → Body → Exec S Fields
  put c path body = request c (codes "PUT") path body

  unfoldable pub del : LockrClient → Bytes → Exec S Fields
  del c path = request c (codes "DELETE") path empty

  check_key : Bytes → Result Bytes
  check_key key =
      if eqb (length key) private_key_size
      then ok key
      else err (invalid_private_key_length (length key))

  read_key : Bytes → Exec S Bytes
  unfolding check_key
  read_key key_path = do
    text ← wrap read_private_key (lift (wire.read_file key_path))
    bytes ← wrap decode_private_key (lift (wire.hex_decode (wire.trim_space text)))
    lift (check_key bytes)

  ask_challenge : LockrClient → Bytes → Exec S Bytes
  ask_challenge c identity = do
    resp ←
        wrap request_challenge
          (post c (codes "/v1/auth/challenge") (strings ((codes "service", identity) ∷ [])))
    wrap read_challenge_response (lift (response_data_string resp (codes "challenge")))

  sign_challenge : Bytes → Bytes → Exec S Bytes
  sign_challenge key challenge_hex = do
    challenge ← wrap decode_challenge (lift (wire.hex_decode challenge_hex))
    lift (signature wire key challenge)

  answer_challenge : LockrClient → Bytes → Bytes → Exec S Bytes
  answer_challenge c challenge_hex sig = do
    resp ← wrap verify_challenge (
        post c (codes "/v1/auth/verify") (
          strings
            ((codes "challenge", challenge_hex) ∷ (codes "signature", wire.hex_encode sig) ∷ [])))
    wrap read_verify_response (lift (response_data_string resp (codes "token")))

  -- The client with the token of the session.
  unfoldable pub authenticate_ed25519 : LockrClient → Bytes → Bytes → Exec S LockrClient
  unfolding read_key ask_challenge sign_challenge answer_challenge
  authenticate_ed25519 c identity key_path = do
    key ← read_key key_path
    challenge_hex ← ask_challenge c identity
    sig ← sign_challenge key challenge_hex
    token ← answer_challenge c challenge_hex sig
    pure (record c { token = token })

  module _ (flags : Flags) where
    with_token : LockrClient → Exec S LockrClient
    with_token c =
        let login = authenticate_ed25519 c flags.service_id flags.key_path in
        if not (c.token == [])
        then pure c
        else if flags.key_path == []
        then fail key_or_token_required
        else if flags.service_id == []
        then fail identity_required
        else login

    unfoldable pub new_service_client : Exec S LockrClient
    unfolding with_token
    new_service_client = do c ← lift (new_admin_client wire flags); with_token c
