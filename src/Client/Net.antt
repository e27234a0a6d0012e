-- ===== src/Client/Net.antt =====
-- What the clients take from outside: encoding/json, net/http, crypto/tls, the files, the codecs of
-- encoding/hex and the signature of crypto/ed25519.
use lockr.Base.{
  ℕ, Bool, List, [], ◌++◌, Option, none, some, Bytes, codes, ◌==◌, eqb, length, if◌then◌else◌,
}
use lockr.Base.Int.{Int64}
use lockr.Result.{Error, Result, ok, err, Exec, bad_private_key_length, wrap, lift, ◌>>=◌, ◌>>◌}

-- A decoded JSON value: any of Go, with map[string]any for an object.
mutual
  pub data Json : Type 0 where
    null : Json
    boolean : Bool → Json
    number : Bytes → Json
    string : Bytes → Json
    array : Items → Json
    object : Fields → Json

  pub data Items : Type 0 where
    done : Items
    item : Json → Items → Items

  pub data Fields : Type 0 where
    nothing : Fields
    field : Bytes → Json → Fields → Fields

-- v, ok := m[key]
unfoldable pub at_key : Bytes → Fields → Option Json
at_key key nothing = none
at_key key (field k v m) = let others = at_key key m in if k == key then some v else others

-- s, ok := v.(string)
unfoldable pub as_string : Option Json → Option Bytes
as_string (some (string s)) = some s
as_string v = none

-- m, ok := v.(map[string]any)
unfoldable pub as_object : Option Json → Option Fields
as_object (some (object m)) = some m
as_object v = none

-- The bodies that the clients encode.
pub data Body : Type 0 where
  empty : Body
  strings : List (Bytes × Bytes) → Body
  value : Fields → Body
  raw : Bytes → Body
  version : Int64 → Body

pub data TlsConfig : Type 0 where
  system_roots : TlsConfig
  roots : Bytes → TlsConfig
  unverified : TlsConfig

pub record Sent : Type 0 where
  pub method : Bytes
  pub url : Bytes
  pub content_type : Bytes
  pub authorization : Option Bytes
  pub body : Bytes

-- `send` is http.Client.Do and the reading of the body of the answer; `S` is all that a request may
-- change.
pub record Wire (S : Type 0) : Type 0 where
  pub read_file : Bytes → Result Bytes
  pub append_certs : Bytes → Bool
  pub trim_space : Bytes → Bytes
  pub hex_decode : Bytes → Result Bytes
  pub hex_encode : Bytes → Bytes
  pub sign : Bytes → Bytes → Bytes
  pub marshal : Body → Result Bytes
  pub check_request : Bytes → Bytes → Result (Unit {0})
  pub send : TlsConfig → Sent → Exec S Bytes

abbrev pub private_key_size : ℕ
private_key_size = 64

-- ed25519.Sign panics for a key of another length.
unfoldable pub signature : {S : Type 0} → Wire S → Bytes → Bytes → Result Bytes
signature wire key text =
    if eqb (length key) private_key_size
    then ok (wire.sign key text)
    else err (bad_private_key_length (length key))

-- json.Marshal of a body that is not nil
unfoldable pub encode : {S : Type 0} → Wire S → Body → Result Bytes
encode wire empty = ok []
encode wire (strings fields) = wire.marshal (strings fields)
encode wire (value fields) = wire.marshal (value fields)
encode wire (raw text) = wire.marshal (raw text)
encode wire (version v) = wire.marshal (version v)

unfoldable pub bearer : Bytes → Option Bytes
bearer token = if token == [] then none else some (codes "Bearer " ++ token)

-- The part of a request that both clients share, up to the answer.
module _ {S : Type 0} (wire : Wire S) where
  unfoldable pub exchange :
      (Error → Error) → TlsConfig → Bytes → Bytes → Bytes → Bytes → Body → Exec S Bytes
  exchange failed tls addr token method path body = do
    encoded ← lift (encode wire body)
    lift (wire.check_request method (addr ++ path))
    wrap failed (
        wire.send tls (record {
          method = method;
          url = addr ++ path;
          content_type = codes "application/json";
          authorization = bearer token;
          body = encoded;
        }))
