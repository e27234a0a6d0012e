-- ===== src/Client.antt =====
-- pkg/client/client.go: the client library.
pub mod Net
pub mod Replies
pub mod Example
use lockr.Base.{
  ℕ, ◌||◌, List, [], ◌∷◌, ◌++◌, Option, none, some, Bytes, codes, ◌==◌, eqb, if◌then◌else◌,
}
use lockr.Base.Int.{Int64, int_lt, format_int}
use lockr.Result.{
  Error, Result, ok, err, Exec, map_err, read_private_key, decode_private_key, get_challenge,
  decode_challenge, verify_challenge, lockr_request, read_ca_cert, no_private_key, server_error,
  wrap, lift, pure, fail, ◌>>=◌, ◌>>◌,
}
use lockr.Client.Net.{
  Wire, Fields, Body, empty, strings, value, TlsConfig, system_roots, roots, at_key, as_object,
  signature, exchange,
}

pub record Client : Type 0 where
  pub addr : Bytes
  pub priv_key : Option Bytes
  pub token : Bytes
  pub tls : TlsConfig

pub record Options : Type 0 where
  pub addr : Bytes
  pub priv_key_hex : Bytes
  pub priv_key_path : Bytes
  pub ca_path : Bytes
  pub admin_token : Bytes

-- json.Decoder.Decode of the answer, for each struct that the methods give it: the challenge or the
-- token of the data, the error alone, the data with the error, and one text of the data with the
-- error. A field that is not there is empty.
pub record Answers : Type 0 where
  pub challenge : Bytes → Result Bytes
  pub token : Bytes → Result Bytes
  pub error : Bytes → Result Bytes
  pub data_error : Bytes → Result (Fields × Bytes)
  pub ciphertext_error : Bytes → Result (Bytes × Bytes)
  pub plaintext_error : Bytes → Result (Bytes × Bytes)

-- The client, whose token Authenticate changes, and the world behind the wire.
pub record Session (S : Type 0) : Type 0 where
  pub client : Client
  pub outside : S

-- The value of the data, if it is an object, else all the data.
secret_value : Fields → Option Fields → Fields
secret_value fields none = fields
secret_value fields (some v) = v

unfoldable pub secret_of : Fields × Bytes → Result Fields
unfolding secret_value
secret_of (fields, text) =
    if text == []
    then ok (secret_value fields (as_object (at_key (codes "value") fields)))
    else err (server_error text)

unfoldable pub text_of : Bytes × Bytes → Result Bytes
text_of (answer, text) = if text == [] then ok answer else err (server_error text)

module _ {S : Type 0} (wire : Wire S) where
  pool : Result Bytes → Result TlsConfig
  pool (ok pem) = ok (roots pem)
  pool (err e) = err (read_ca_cert e)

  unfoldable pub build_tls_config : Bytes → Result TlsConfig
  unfolding pool
  build_tls_config ca_path =
      if ca_path == [] then ok system_roots else pool (wire.read_file ca_path)

  trimmed : Result Bytes → Result Bytes
  trimmed (ok text) = ok (wire.trim_space text)
  trimmed (err e) = err (read_private_key e)

  -- The hexadecimal key: that of the file, if there is a path.
  unfoldable pub key_hex : Options → Result Bytes
  unfolding trimmed
  key_hex opts =
      if opts.priv_key_path == []
      then ok opts.priv_key_hex
      else trimmed (wire.read_file opts.priv_key_path)

  decoded_key : Result Bytes → Result (Option Bytes)
  decoded_key (ok key) = ok (some key)
  decoded_key (err e) = err (decode_private_key e)

  key_of : Result Bytes → Result (Option Bytes)
  unfolding decoded_key
  key_of (err e) = err e
  key_of (ok text) = if text == [] then ok none else decoded_key (wire.hex_decode text)

  with_key : Options → TlsConfig → Result (Option Bytes) → Result Client
  with_key opts tls (err e) = err e
  with_key opts tls (ok key) =
      ok (record { addr = opts.addr; priv_key = key; token = opts.admin_token; tls = tls })

  with_tls : Options → Result TlsConfig → Result Client
  unfolding key_of with_key
  with_tls opts (err e) = err e
  with_tls opts (ok tls) = with_key opts tls (key_of (key_hex opts))

  unfoldable pub new : Options → Result Client
  unfolding with_tls
  new opts = with_tls opts (build_tls_config opts.ca_path)

  -- The status of the answer is not looked at.
  unfoldable pub do_json :
      {A : Type 0} → Bytes → Bytes → Body → (Bytes → Result A) → Exec (Session S) A
  do_json method path body decode s =
      let c = s.client in
      let (r, outside) =
        (exchange wire lockr_request c.tls c.addr c.token method path body >>= λ text.
        lift (decode text))
          s.outside in
      (r, record s { outside = outside })

  set_token : Bytes → Exec (Session S) (Unit {0})
  set_token token s = (ok tt, record s { client = record s.client { token = token } })

  module _ (answers : Answers) where
    authenticate_with : Bytes → Option Bytes → Exec (Session S) (Unit {0})
    unfolding set_token
    authenticate_with service none = fail no_private_key
    authenticate_with service (some key) = do
      challenge ← wrap get_challenge (
          do_json (codes "POST") (codes "/v1/auth/challenge")
            (strings ((codes "service", service) ∷ [])) answers.challenge)
      bytes ← lift (map_err decode_challenge (wire.hex_decode challenge))
      sig ← lift (signature wire key bytes)
      token ← wrap verify_challenge (
          do_json (codes "POST") (codes "/v1/auth/verify")
            (strings
              ((codes "challenge", challenge) ∷ (codes "signature", wire.hex_encode sig) ∷ []))
            answers.token)
      set_token token

    unfoldable pub authenticate : Bytes → Exec (Session S) (Unit {0})
    unfolding authenticate_with
    authenticate service s = authenticate_with service s.client.priv_key s

    unfoldable pub kv_get : Bytes → Int64 → Exec (Session S) Fields
    kv_get path version =
        let url = codes "/v1/secrets/kv/" ++ path in
        let query = if int_lt 0 version then codes "?version=" ++ format_int version else [] in
        do_json (codes "GET") (url ++ query) empty answers.data_error >>= λ a. lift (secret_of a)

    -- The error of the answer is decoded and dropped.
    unfoldable pub kv_set : Bytes → Fields → Exec (Session S) (Unit {0})
    kv_set path fields = do
      _ ← do_json (codes "PUT") (codes "/v1/secrets/kv/" ++ path) (value fields) answers.error
      pure tt

    unfoldable pub kv_delete : Bytes → Exec (Session S) (Unit {0})
    kv_delete path = do
      _ ← do_json (codes "DELETE") (codes "/v1/secrets/kv/" ++ path) empty answers.error
      pure tt

    unfoldable pub transit_encrypt : Bytes → Bytes → Exec (Session S) Bytes
    transit_encrypt key plaintext = do
      a ←
          do_json (codes "POST") (codes "/v1/secrets/transit/" ++ key ++ codes "/encrypt")
            (strings ((codes "plaintext", plaintext) ∷ [])) answers.ciphertext_error
      lift (text_of a)

    unfoldable pub transit_decrypt : Bytes → Bytes → Exec (Session S) Bytes
    transit_decrypt key ciphertext = do
      a ←
          do_json (codes "POST") (codes "/v1/secrets/transit/" ++ key ++ codes "/decrypt")
            (strings ((codes "ciphertext", ciphertext) ∷ [])) answers.plaintext_error
      lift (text_of a)
