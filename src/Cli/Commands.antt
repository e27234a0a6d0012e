-- ===== src/Cli/Commands.antt =====
-- cmd/lockr/main.go: the commands that talk to a server, each with its arguments and flags.
pub mod LoggedIn
use lockr.Base.{
  List, [], ◌∷◌, ◌++◌, Option, none, some, Bytes, codes, ◌==◌, has_suffix, if◌then◌else◌,
}
use lockr.Base.Int.{Int64, int_lt, format_int}
use lockr.Result.{
  Result, ok, Exec, invalid_json, to_too_small, server_error, wrap, lift, pure, fail, ◌>>=◌,
}
use lockr.Client.Net.{
  Wire, Json, object, array, Items, done, item, Fields, Body, empty, strings, raw, at_key,
  as_string, as_object,
}
use lockr.Cli.{
  Flags, LockrClient, Output, line, field_line, table, print_response, must_build_tls_config,
  new_admin_client, new_service_client, get, post, put, del,
}

abbrev kv : Bytes
kv = codes "/v1/secrets/kv/"

abbrev transit : Bytes
transit = codes "/v1/secrets/transit/"

-- a flag that is added to the query only if it is given
unfoldable pub query_field : Bytes → Bytes → Bytes
query_field name text = if text == [] then [] else name ++ text ++ codes "&"

-- the paths of the requests
unfoldable pub get_url : Bytes → Int64 → Bytes
get_url path version =
    kv ++ path ++ (if int_lt 0 version then codes "?version=" ++ format_int version else [])

unfoldable pub list_url : Bytes → Bytes
list_url path = kv ++ (if has_suffix path (codes "/") then path else path ++ codes "/")

unfoldable pub audit_url : Bytes → Bytes → Bytes → Int64 → Bytes
audit_url service since path limit =
    codes "/v1/sys/audit?"
    ++ query_field (codes "service=") service
    ++ query_field (codes "since=") since
    ++ query_field (codes "path=") path
    ++ (if int_lt 0 limit then codes "limit=" ++ format_int limit else [])

-- The value of the secret, if the answer holds an object there.
unfoldable pub value_of : Fields → Option Fields
value_of resp = elim (as_object (at_key (codes "data") resp)) [
  | some fields ↦ as_object (at_key (codes "value") fields)
  | none ↦ none
]

as_items : Option Json → Items
as_items (some (array items)) = items
as_items v = done

unfoldable pub rows : Items → List (Option Json × Option Json)
rows done = []
rows (item (object v) items) =
    (at_key (codes "version") v, at_key (codes "created_at") v) ∷ rows items
rows (item v items) = rows items

versions_of : Items → Output
versions_of done = line (codes "no versions found")
versions_of (item v items) = table (rows (item v items))

unfoldable pub print_versions : Flags → Fields → Result Output
unfolding as_items versions_of
print_versions flags resp =
    let shown : Result Output = elim (as_object (at_key (codes "data") resp)) [
      | some fields ↦ ok (versions_of (as_items (at_key (codes "versions") fields)))
      | none ↦ print_response flags resp
    ] in
    if flags.output_fmt == codes "json" then print_response flags resp else shown

module _ {S : Type 0} (wire : Wire S) (decode_map : Bytes → Result Fields) (flags : Flags) where
  print : Fields → Exec S Output
  print resp = lift (print_response flags resp)

  as_service : (LockrClient → Exec S Fields) → Exec S Output
  unfolding print
  as_service call = do
    client ← new_service_client wire decode_map flags
    resp ← call client
    print resp

  as_admin : (LockrClient → Exec S Fields) → Exec S Output
  unfolding print
  as_admin call = do client ← lift (new_admin_client wire flags); resp ← call client; print resp

  value_field : Bytes → Fields → Option Fields → Exec S Output
  unfolding print
  value_field field resp none = print resp
  value_field field resp (some fields) = pure (field_line (at_key field fields))

  unfoldable pub get_cmd : Bytes → Int64 → Bytes → Exec S Output
  unfolding value_field print
  get_cmd path version field = do
    client ← new_service_client wire decode_map flags
    resp ← get wire decode_map client (get_url path version)
    (if field == [] then print resp else value_field field resp (value_of resp))

  -- json.Unmarshal into a RawMessage checks the text.
  unfoldable pub set_cmd : (Bytes → Result Bytes) → Bytes → Bytes → Exec S Output
  unfolding as_service
  set_cmd unmarshal path text = do
    value ← wrap invalid_json (lift (unmarshal text))
    as_service (λ c. put wire decode_map c (kv ++ path) (raw value))

  unfoldable pub delete_cmd : Bytes → Exec S Output
  unfolding as_service
  delete_cmd path = as_service (λ c. del wire decode_map c (kv ++ path))

  unfoldable pub versions_cmd : Bytes → Exec S Output
  versions_cmd path = do
    client ← new_service_client wire decode_map flags
    resp ← get wire decode_map client (kv ++ path ++ codes "/versions")
    lift (print_versions flags resp)

  unfoldable pub rollback_cmd : Bytes → Int64 → Exec S Output
  unfolding as_service
  rollback_cmd path to =
      let run =
        as_service
          (λ c. post wire decode_map c (kv ++ path ++ codes "/rollback") (Body.version to)) in
      if int_lt to 1 then fail to_too_small else run

  unfoldable pub list_cmd : Bytes → Exec S Output
  unfolding as_service
  list_cmd path = as_service (λ c. get wire decode_map c (list_url path))

  unfoldable pub status_cmd : Exec S Output
  unfolding as_admin
  status_cmd = as_admin (λ c. get wire decode_map c (codes "/v1/sys/health"))

  unfoldable pub revoke_cmd : Bytes → Exec S Output
  unfolding as_admin
  revoke_cmd service = as_admin (λ c. del wire decode_map c (codes "/v1/sys/revoke/" ++ service))

  unfoldable pub admin_create_cmd : Bytes → Exec S Output
  unfolding as_admin
  admin_create_cmd name = as_admin (λ c.
      post wire decode_map c (codes "/v1/sys/admin/create") (strings ((codes "name", name) ∷ [])))

  unfoldable pub admin_revoke_cmd : Bytes → Exec S Output
  unfolding as_admin
  admin_revoke_cmd name = as_admin (λ c. del wire decode_map c (codes "/v1/sys/admin/" ++ name))

  unfoldable pub audit_cmd : Bytes → Bytes → Bytes → Int64 → Exec S Output
  unfolding as_admin
  audit_cmd service since path limit =
      as_admin (λ c. get wire decode_map c (audit_url service since path limit))

  unfoldable pub encrypt_cmd : Bytes → Bytes → Exec S Output
  unfolding as_service
  encrypt_cmd key plaintext = as_service (λ c.
      post wire decode_map c (transit ++ key ++ codes "/encrypt")
        (strings ((codes "plaintext", plaintext) ∷ [])))

  unfoldable pub decrypt_cmd : Bytes → Bytes → Exec S Output
  unfolding as_service
  decrypt_cmd key ciphertext = as_service (λ c.
      post wire decode_map c (transit ++ key ++ codes "/decrypt")
        (strings ((codes "ciphertext", ciphertext) ∷ [])))

  unfoldable pub rotate_cmd : Bytes → Exec S Output
  unfolding as_service
  rotate_cmd key =
      as_service (λ c. post wire decode_map c (transit ++ key ++ codes "/rotate") empty)

  unfoldable pub debug_cmd : Exec S Output
  unfolding as_service
  debug_cmd = as_service (λ c. get wire decode_map c (codes "/v1/auth/whoami"))

  -- The commands on users, with the password of the flag or of the prompt.
  unfoldable pub user_create_cmd : Bytes → Bytes → Bytes → Exec S Output
  unfolding as_admin
  user_create_cmd username policy password = as_admin (λ c.
      post wire decode_map c (codes "/v1/sys/users") (
        strings (
          (codes "username", username)
          ∷ (codes "password", password)
          ∷ (codes "policy", policy)
          ∷ [])))

  unfoldable pub user_list_cmd : Exec S Output
  unfolding as_admin
  user_list_cmd = as_admin (λ c. get wire decode_map c (codes "/v1/sys/users"))

  unfoldable pub user_delete_cmd : Bytes → Exec S Output
  unfolding as_admin
  user_delete_cmd username =
      as_admin (λ c. del wire decode_map c (codes "/v1/sys/users/" ++ username))

  unfoldable pub user_set_policy_cmd : Bytes → Bytes → Exec S Output
  unfolding as_admin
  user_set_policy_cmd username policy = as_admin (λ c.
      put wire decode_map c (codes "/v1/sys/users/" ++ username ++ codes "/policy")
        (strings ((codes "policy", policy) ∷ [])))

  unfoldable pub user_reset_password_cmd : Bytes → Bytes → Exec S Output
  unfolding as_admin
  user_reset_password_cmd username password = as_admin (λ c.
      put wire decode_map c (codes "/v1/sys/users/" ++ username ++ codes "/password")
        (strings ((codes "password", password) ∷ [])))

  unfoldable pub policy_reload_cmd : Exec S Output
  unfolding as_admin
  policy_reload_cmd = as_admin (λ c. post wire decode_map c (codes "/v1/sys/policy/reload") empty)

  print_token : Fields → Option Bytes → Exec S Output
  unfolding print
  print_token resp (some token) = pure (line token)
  print_token resp none = print resp

  token_of : Fields → Option Bytes
  token_of resp = elim (as_object (at_key (codes "data") resp)) [
    | some fields ↦ as_string (at_key (codes "token") fields)
    | none ↦ none
  ]

  logged_in : Fields → Option Bytes → Exec S Output
  unfolding print_token token_of
  logged_in resp (some text) = fail (server_error text)
  logged_in resp none = print_token resp (token_of resp)

  -- Without the token of the flags.
  unfoldable pub login_cmd : Bytes → Bytes → Exec S Output
  unfolding logged_in
  login_cmd username password = do
    tls ← lift (must_build_tls_config wire flags)
    resp ←
        post wire decode_map (record { addr = flags.server_addr; token = []; tls_config = tls })
          (codes "/v1/auth/login")
          (strings ((codes "username", username) ∷ (codes "password", password) ∷ []))
    logged_in resp (as_string (at_key (codes "error") resp))
