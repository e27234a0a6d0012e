-- ===== src/Auth/Admin.antt =====
-- internal/auth/admin.go: admin tokens, of which only a hash is stored.
pub mod Token
pub mod Spares
use lockr.Base.{
  ℕ, Bool, false, List, [], ◌∷◌, ◌++◌, Bytes, codes, has_prefix, not, length, ltb, if◌then◌else◌,
}
use lockr.Keys.{admin_path}
use lockr.Result.{
  Error, is_not_found, generate_admin_token, hash_admin_token, invalid_admin_token_format,
  invalid_admin_token, admin_not_found, wrap, Result, ok, err, Exec, pure, fail, lift, try, ◌>>=◌,
  ◌>>◌,
}
use lockr.Platform.{Platform, World, now, random, Codec}
use lockr.Storage.Db as Db
use lockr.Storage.Listing as Listing
use lockr.Storage.Crypto.{hash_argon2id, verify_argon2id}

abbrev pub admin_token_prefix : Bytes
admin_token_prefix = codes "lkat_"

pub record AdminRecord : Type 0 where
  pub name : Bytes
  pub policy : Bytes
  pub created_at : ℕ
  pub hash : Bytes

-- encoding/json for the record, and base64.RawURLEncoding.
pub record AdminAuth : Type 0 where
  pub records : Codec AdminRecord
  pub base64_url : Bytes → Bytes

abbrev pub admins_dir : Bytes
admins_dir = codes "auth/admins/"

unfoldable pub admin_missing : Bytes → Error → Error
admin_missing name e = if is_not_found e then admin_not_found name else e

module _ (p : Platform) (a : AdminAuth) where
  open a use {records, base64_url}

  unfoldable pub has_admins : Exec (World p) Bool
  has_admins = do keys ← Listing.list p admins_dir; pure (ltb 0 (length keys))

  unfoldable pub create : Bytes → Bytes → Exec (World p) Bytes
  create name policy = do
    raw ← wrap generate_admin_token (random p 32)
    let token = admin_token_prefix ++ base64_url raw
    hash ← wrap hash_admin_token (hash_argon2id p token)
    time ← now p
    encoded ←
        lift (
          records.marshal (record { name = name; policy = policy; created_at = time; hash = hash }))
    Db.set p (admin_path name) encoded
    pure token

  unfoldable pub accepts : Bytes → Result AdminRecord → Bool
  accepts token (ok rec) = verify_argon2id p token rec.hash
  accepts token (err e) = false

  read_record : Bytes → Exec (World p) AdminRecord
  read_record key = do stored ← Db.get p key; lift (records.unmarshal stored)

  -- The loop of Verify; a record that cannot be read is passed over.
  unfoldable pub verify_keys : Bytes → List Bytes → Exec (World p) AdminRecord
  unfolding read_record
  verify_keys token [] = fail invalid_admin_token
  verify_keys token (key ∷ keys) = do
    found ← try (read_record key)
    let next = verify_keys token keys
    if accepts token found then lift found else next

  unfoldable pub verify : Bytes → Exec (World p) AdminRecord
  verify token =
      let found : Exec (World p) AdminRecord = do
        keys ← Listing.list p admins_dir
        verify_keys token keys
      in if not (has_prefix token admin_token_prefix)
        then fail invalid_admin_token_format
        else found

  unfoldable pub delete : Bytes → Exec (World p) (Unit {0})
  delete name = do
    _ ← wrap (admin_missing name) (Db.get p (admin_path name))
    Db.delete p (admin_path name)

  unfoldable pub get : Bytes → Exec (World p) AdminRecord
  get name = do
    stored ← wrap (admin_missing name) (Db.get p (admin_path name))
    lift (records.unmarshal stored)
