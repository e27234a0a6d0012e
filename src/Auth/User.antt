-- ===== src/Auth/User.antt =====
-- internal/auth/user.go: users with passwords.
pub mod Password
pub mod Spares
use lockr.Base.{ℕ, Bool, true, false, List, [], ◌∷◌, Bytes, codes, not, ◌||◌, if◌then◌else◌}
use lockr.Keys.{user_path}
use lockr.Result.{
  Error, is_not_found, hash_password, user_not_found, user_exists, invalid_credentials, wrap,
  Result, ok, err, Exec, pure, fail, lift, try, ◌>>=◌, ◌>>◌,
}
use lockr.Platform.{Platform, World, now, Codec}
use lockr.Storage.Db as Db
use lockr.Storage.Listing as Listing
use lockr.Storage.Crypto.{hash_argon2id, verify_argon2id}

pub record UserRecord : Type 0 where
  pub username : Bytes
  pub policy : Bytes
  pub created_at : ℕ
  pub hash : Bytes
  pub disabled : Bool

-- encoding/json for the record.
pub record UserAuth : Type 0 where
  pub records : Codec UserRecord

unfoldable pub user_missing : Bytes → Error → Error
user_missing username e = if is_not_found e then user_not_found username else e

unfoldable pub user_free : Bytes → Result Bytes → Result (Unit {0})
user_free username (ok stored) = err (user_exists username)
user_free username (err e) = ok tt

-- A listed user has no hash; a record that cannot be read is passed over.
unfoldable pub list_user : Result UserRecord → List UserRecord → List UserRecord
list_user (ok rec) rest = record rec { hash = [] } ∷ rest
list_user (err e) rest = rest

module _ (p : Platform) where
  -- The tests of Verify on the record that was read; every failure has the same error.
  unfoldable pub check_user : Bytes → Result UserRecord → Result UserRecord
  check_user password (err e) = err invalid_credentials
  check_user password (ok rec) =
      if rec.disabled || not (verify_argon2id p password rec.hash)
      then err invalid_credentials
      else ok rec

module _ (p : Platform) (a : UserAuth) where
  open a use {records}

  save_user : Bytes → UserRecord → Exec (World p) (Unit {0})
  save_user username rec = do
    encoded ← lift (records.marshal rec)
    Db.set p (user_path username) encoded

  unfoldable pub create : Bytes → Bytes → Bytes → Exec (World p) (Unit {0})
  unfolding save_user
  create username password policy = do
    found ← try (Db.get p (user_path username))
    lift (user_free username found)
    hash ← wrap hash_password (hash_argon2id p password)
    time ← now p
    save_user username (record {
      username = username;
      policy = policy;
      created_at = time;
      hash = hash;
      disabled = false;
    })

  unfoldable pub get : Bytes → Exec (World p) UserRecord
  get username = do
    stored ← wrap (user_missing username) (Db.get p (user_path username))
    lift (records.unmarshal stored)

  unfoldable pub verify : Bytes → Bytes → Exec (World p) UserRecord
  verify username password = do found ← try (get username); lift (check_user p password found)

  read_user : Bytes → Exec (World p) UserRecord
  read_user key = do stored ← Db.get p key; lift (records.unmarshal stored)

  unfoldable pub list_users : List Bytes → Exec (World p) (List UserRecord)
  unfolding read_user
  list_users [] = pure []
  list_users (key ∷ keys) = do
    found ← try (read_user key)
    rest ← list_users keys
    pure (list_user found rest)

  unfoldable pub list : Exec (World p) (List UserRecord)
  list = do keys ← Listing.list p (codes "auth/users/"); list_users keys

  unfoldable pub delete : Bytes → Exec (World p) (Unit {0})
  delete username = do
    _ ← wrap (user_missing username) (Db.get p (user_path username))
    Db.delete p (user_path username)

  unfoldable pub change_policy : Bytes → Bytes → Exec (World p) (Unit {0})
  unfolding save_user
  change_policy username policy = do
    rec ← get username
    save_user username (record rec { policy = policy })

  unfoldable pub change_password : Bytes → Bytes → Exec (World p) (Unit {0})
  unfolding save_user
  change_password username new_password = do
    rec ← get username
    hash ← wrap hash_password (hash_argon2id p new_password)
    save_user username (record rec { hash = hash })
