-- ===== src/Secrets/Transit.antt =====
-- internal/secrets/transit.go: named keys with versions, which encrypt and decrypt for clients.
pub mod Format
pub mod Rotation
pub mod Creation
pub mod Spares
use lockr.Base.{
  ℕ, Bool, List, [], ◌∷◌, ◌++◌, Option, none, some, length, take, drop, Bytes, codes, ◌==◌, cut,
  eqb, ltb, if◌then◌else◌, map,
}
use lockr.Base.Int.{Int64, int_incr, format_int}
use lockr.Keys.{transit_path}
use lockr.Result.{
  Error, is_not_found, transit_key_exists, transit_key_not_found, key_version_not_found,
  invalid_format, invalid_version, invalid_encoding, ciphertext_too_short, nil_dereference, map_err,
  wrap, Result, ok, err, Exec, pure, fail, lift, try, resume, ◌>>=◌, ◌>>◌,
}
use lockr.Platform.{Platform, World, now, random, Codec}
use lockr.Storage.Db as Db
use lockr.Storage.Crypto.{Crypto, encrypt, decrypt, new_gcm, nonce_len}

pub record TransitKeyVersion : Type 0 where
  pub version : Int64
  pub key : Bytes
  pub created_at : ℕ

pub record TransitKeyMeta : Type 0 where
  pub name : Bytes
  pub current_version : Int64
  pub versions : List TransitKeyVersion

-- The cipher of the store, encoding/json for its records, base64.StdEncoding, and the %d of
-- fmt.Sscanf on the text after the "v".
pub record TransitStore : Type 0 where
  pub crypto : Crypto
  pub metas : Codec TransitKeyMeta
  pub base64_encode : Bytes → Bytes
  pub base64_decode : Bytes → Result Bytes
  pub scan_int : Bytes → Result Int64

-- keyVersion
unfoldable pub find_version : Int64 → List TransitKeyVersion → Option TransitKeyVersion
find_version v [] = none
find_version v (k ∷ ks) = if eqb k.version v then some k else find_version v ks

unfoldable pub key_version : TransitKeyMeta → Int64 → Option TransitKeyVersion
key_version m v = find_version v m.versions

unfoldable pub current_key_version : TransitKeyMeta → Option TransitKeyVersion
current_key_version m = key_version m m.current_version

-- fmt.Sscanf(s, "v%d", &version)
unfoldable pub scan_version : TransitStore → Bytes → Result Int64
scan_version tr [] = err (invalid_version [])
scan_version tr (c ∷ s) =
    if eqb c b'v'
    then map_err (λ e. invalid_version (c ∷ s)) (tr.scan_int s)
    else err (invalid_version (c ∷ s))

with_version : Bytes → Result Int64 → Result (Int64 × Bytes)
with_version encoded (ok v) = ok (v, encoded)
with_version encoded (err e) = err e

-- The three parts of strings.SplitN(ct, ":", 3): the text before the first colon and what follows it,
-- cut once more.
split_rest : TransitStore → Bytes → Bytes × Option Bytes → Result (Int64 × Bytes)
unfolding with_version
split_rest tr first (middle, none) = err invalid_format
split_rest tr first (middle, some encoded) =
    if first == codes "vault"
    then with_version encoded (scan_version tr middle)
    else err invalid_format

split_first : TransitStore → Bytes × Option Bytes → Result (Int64 × Bytes)
unfolding split_rest
split_first tr (first, none) = err invalid_format
split_first tr (first, some rest) = split_rest tr first (cut b':' rest)

unfoldable pub parse_vault_ciphertext : TransitStore → Bytes → Result (Int64 × Bytes)
unfolding split_first
parse_vault_ciphertext tr ct = split_first tr (cut b':' ct)

-- fmt.Sprintf("vault:v%d:%s", version, encoded)
unfoldable pub format_vault : Int64 → Bytes → Bytes
format_vault version encoded =
    codes "vault" ++ b':' ∷ ((b'v' ∷ format_int version) ++ b':' ∷ encoded)

unfoldable pub strip_key : TransitKeyVersion → TransitKeyVersion
strip_key v = record v { key = [] }

unfoldable pub add_version : Bytes → ℕ → TransitKeyMeta → TransitKeyMeta
add_version key created m =
    let v = int_incr m.current_version in
    record m {
      current_version = v;
      versions = m.versions ++ record { version = v; key = key; created_at = created } ∷ [];
    }

unfoldable pub found_version : Bytes → Int64 → Option TransitKeyVersion → Result TransitKeyVersion
found_version name v none = err (key_version_not_found v name)
found_version name v (some k) = ok k

-- The field of a pointer that may be nil.
unfoldable pub deref : {A : Type 0} → Option A → Result A
deref none = err nil_dereference
deref (some a) = ok a

missing_key : Bytes → Error → Error
missing_key name e = if is_not_found e then transit_key_not_found name else e

created_only_if_missing : Bytes → Result TransitKeyMeta → Result (Unit {0})
created_only_if_missing name (ok m) = err (transit_key_exists name)
created_only_if_missing name (err e) = ok tt

module _ (p : Platform) where
  unfoldable pub aesgcm_encrypt_bytes : Bytes → Bytes → Exec (World p) Bytes
  aesgcm_encrypt_bytes key plaintext = do
    lift (new_gcm key)
    nonce ← random p nonce_len
    pure (nonce ++ p.gcm_seal key nonce plaintext)

  abbrev pub open_bytes : Bytes → Bytes → Result (Unit {0}) → Result Bytes
  open_bytes key sealed (err e) = err e
  open_bytes key sealed (ok u) =
      if ltb (length sealed) nonce_len
      then err ciphertext_too_short
      else p.gcm_open key (take nonce_len sealed) (drop nonce_len sealed)

  unfoldable pub aesgcm_decrypt_bytes : Bytes → Bytes → Result Bytes
  aesgcm_decrypt_bytes key sealed = open_bytes key sealed (new_gcm key)

module _ (p : Platform) (tr : TransitStore) where
  open tr use {crypto, metas}

  unfoldable pub load_meta : Bytes → Exec (World p) TransitKeyMeta
  unfolding missing_key
  load_meta name = do
    stored ← wrap (missing_key name) (Db.get p (transit_path name))
    plain ← lift (decrypt p crypto (transit_path name) stored)
    lift (metas.unmarshal plain)

  unfoldable pub save_meta : TransitKeyMeta → Exec (World p) (Unit {0})
  save_meta meta = do
    encoded ← lift (metas.marshal meta)
    enc ← encrypt p crypto (transit_path meta.name) encoded
    Db.set p (transit_path meta.name) enc

  -- Any error of the load lets the creation go on.
  unfoldable pub create_key : Bytes → Exec (World p) (Unit {0})
  unfolding created_only_if_missing
  create_key name = do
    found ← try (load_meta name)
    lift (created_only_if_missing name found)
    key ← random p 32
    created ← now p
    save_meta (record {
      name = name;
      current_version = 1;
      versions = record { version = 1; key = key; created_at = created } ∷ [];
    })

  unfoldable pub rotate : Bytes → Exec (World p) (Unit {0})
  rotate name = do
    meta ← load_meta name
    key ← random p 32
    created ← now p
    save_meta (add_version key created meta)

  unfoldable pub transit_encrypt : Bytes → Bytes → Exec (World p) Bytes
  transit_encrypt name plaintext = do
    meta ← load_meta name
    kv ← lift (deref (current_key_version meta))
    ct ← aesgcm_encrypt_bytes p kv.key plaintext
    pure (format_vault kv.version (tr.base64_encode ct))

  unfoldable pub transit_decrypt : Bytes → Bytes → Exec (World p) Bytes
  transit_decrypt name ciphertext = do
    parsed ← lift (parse_vault_ciphertext tr ciphertext)
    meta ← load_meta name
    kv ← lift (found_version name parsed.0 (key_version meta parsed.0))
    ct ← lift (map_err invalid_encoding (tr.base64_decode parsed.1))
    lift (aesgcm_decrypt_bytes p kv.key ct)

  unfoldable pub info : Bytes → Exec (World p) TransitKeyMeta
  info name = do
    meta ← load_meta name
    pure (record meta { versions = map strip_key meta.versions })
