-- ===== src/Storage/Crypto.antt =====
-- internal/storage/crypto.go
pub mod Compare
pub mod RoundTrip
use lockr.Base.{
  ℕ, ◌+◌, Bool, false, not, ◌||◌, [], ◌∷◌, ◌++◌, length, take, drop, Bytes, eqb, ltb, if◌then◌else◌,
}
use Prim.Native.Nat.{bit_or, bit_xor}
use lockr.Result.{
  Error, wrap, map_err, generate_salt, encrypt_master_key, hkdf_derive_key, parse_master_key,
  library, ciphertext_too_short, incorrect_passphrase, Result, ok, err, Exec, lift, pure, ◌>>=◌,
  ◌>>◌,
}
use lockr.Platform.{Platform, World, random, Codec}

abbrev pub master_key_len : ℕ
master_key_len = 32

abbrev pub salt_len : ℕ
salt_len = 32

abbrev pub nonce_len : ℕ
nonce_len = 12

-- aes.NewCipher accepts keys of 16, 24 and 32 bytes. cipher.NewGCM takes every AES cipher.
unfoldable pub new_gcm : Bytes → Result (Unit {0})
new_gcm key =
    if eqb (length key) 16 || eqb (length key) 24 || eqb (length key) 32
    then ok tt
    else err (library [])

pub record Crypto : Type 0 where
  pub master_key : Bytes

pub record MasterKeyFile : Type 0 where
  pub salt : Bytes
  pub nonce : Bytes
  pub ciphertext : Bytes

-- `diff |= a[i] ^ b[i]`, over all positions
unfoldable pub diff_from : ℕ → Bytes → Bytes → ℕ
diff_from diff [] [] = diff
diff_from diff [] (b ∷ t) = diff
diff_from diff (a ∷ s) [] = diff
diff_from diff (a ∷ s) (b ∷ t) = diff_from (bit_or diff (bit_xor a b)) s t

unfoldable pub subtle32_equal : Bytes → Bytes → Bool
subtle32_equal a b = if not (eqb (length a) (length b)) then false else eqb (diff_from 0 a b) 0

module _ (p : Platform) where
  -- Ciphertext and nonce.
  unfoldable pub aesgcm_encrypt : Bytes → Bytes → Exec (World p) (Bytes × Bytes)
  aesgcm_encrypt key plaintext = do
    lift (new_gcm key)
    nonce ← random p nonce_len
    pure (p.gcm_seal key nonce plaintext, nonce)

  unfoldable pub aesgcm_decrypt : Bytes → Bytes → Bytes → Result Bytes
  aesgcm_decrypt key ciphertext nonce = elim (new_gcm key) [
    | ok u ↦ p.gcm_open key nonce ciphertext
    | err e ↦ err e
  ]

  unfoldable pub generate_master_key : Exec (World p) Bytes
  generate_master_key = wrap Error.generate_master_key (random p master_key_len)

  unfoldable pub derive_key : Crypto → Bytes → Result Bytes
  derive_key c path = map_err hkdf_derive_key (p.hkdf c.master_key path)

  -- nonce || ciphertext, under the key derived from the path
  unfoldable pub encrypt : Crypto → Bytes → Bytes → Exec (World p) Bytes
  encrypt c path plaintext = do
    key ← lift (derive_key c path)
    sealed ← aesgcm_encrypt key plaintext
    pure (sealed.1 ++ sealed.0)

  unfoldable pub decrypt : Crypto → Bytes → Bytes → Result Bytes
  decrypt c path stored =
      let opened : Result Bytes = elim (derive_key c path) [
        | ok key ↦ aesgcm_decrypt key (drop nonce_len stored) (take nonce_len stored)
        | err e ↦ err e
      ] in
      if ltb (length stored) nonce_len then err ciphertext_too_short else opened

  -- salt || hash
  unfoldable pub hash_argon2id : Bytes → Exec (World p) Bytes
  hash_argon2id password = do salt ← random p salt_len; pure (salt ++ p.argon2_key password salt)

  unfoldable pub verify_argon2id : Bytes → Bytes → Bool
  verify_argon2id password stored =
      if ltb (length stored) (salt_len + master_key_len)
      then false
      else subtle32_equal (p.argon2_key password (take salt_len stored)) (drop salt_len stored)

  -- SaveMasterKey, up to os.WriteFile: the bytes of the file.
  unfoldable pub save_master_key : Codec MasterKeyFile → Bytes → Bytes → Exec (World p) Bytes
  save_master_key codec master_key passphrase = do
    salt ← wrap generate_salt (random p salt_len)
    sealed ← wrap encrypt_master_key (aesgcm_encrypt (p.argon2_key passphrase salt) master_key)
    lift (codec.marshal (record { salt = salt; nonce = sealed.1; ciphertext = sealed.0 }))

  open_master_key : Bytes → MasterKeyFile → Result Bytes
  open_master_key passphrase f =
      elim (aesgcm_decrypt (p.argon2_key passphrase f.salt) f.ciphertext f.nonce) [
        | ok key ↦ ok key
        | err e ↦ err incorrect_passphrase
      ]

  -- LoadMasterKey, from the bytes of the file.
  unfoldable pub load_master_key : Codec MasterKeyFile → Bytes → Bytes → Result Bytes
  unfolding open_master_key
  load_master_key codec stored passphrase = elim (codec.unmarshal stored) [
    | ok f ↦ open_master_key passphrase f
    | err e ↦ err (parse_master_key e)
  ]
