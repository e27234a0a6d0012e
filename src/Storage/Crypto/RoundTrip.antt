-- ===== src/Storage/Crypto/RoundTrip.antt =====
-- Encryption, password hashes and the master key file: what was written can be opened.
use lockr.Base.{
  suc, ◌<◌, ◌≡◌, ◌↔◌, true, ◌++◌, length, take, drop, length-append, take-length-append,
  drop-length-append, Bytes, inl, inr, arith,
}
use lockr.Result.{ok, err, Result-cases, ciphertext_too_short}
use lockr.Platform.{Platform, World, Codec, random}
use lockr.Platform.Laws.{CipherLaws, CodecLaws}
use lockr.Storage.Crypto.{
  Crypto, MasterKeyFile, nonce_len, salt_len, master_key_len, aesgcm_encrypt, aesgcm_decrypt,
  derive_key, encrypt, decrypt, hash_argon2id, verify_argon2id, save_master_key, load_master_key,
  subtle32_equal,
}
use lockr.Storage.Elapsed.{Drawn}
use lockr.Storage.Crypto.Compare.{subtle32_equal_iff}

module _ (p : Platform) (laws : CipherLaws p) where
  -- A ciphertext that `aesgcmEncrypt` returns is opened by the same key, and its nonce has 12 bytes.
  aesgcm_decrypt-encrypt :
      (key text : Bytes) (w w' : World p) (sealed : Bytes × Bytes)
      → aesgcm_encrypt p key text w ≡ (ok sealed, w')
      → (aesgcm_decrypt p key sealed.0 sealed.1 ≡ ok text) × (length sealed.1 ≡ nonce_len)
  unfolding aesgcm_encrypt aesgcm_decrypt random
  aesgcm_decrypt-encrypt key text w w' sealed h = (
    ground (arith, laws.open-seal key sealed.1 text),
    ground (arith, laws.length-random w.tick nonce_len sealed.1),
  )

  decrypt-joined :
      (c : Crypto) (path text key ciphertext nonce : Bytes)
      → derive_key p c path ≡ ok key
      → length nonce ≡ nonce_len
      → aesgcm_decrypt p key ciphertext nonce ≡ ok text
      → decrypt p c path (nonce ++ ciphertext) ≡ ok text
  unfolding decrypt
  decrypt-joined c path text key ciphertext nonce e len opened =
      let before : take nonce_len (nonce ++ ciphertext) ≡ nonce =
        rw (← len) (take-length-append nonce ciphertext) in
      let after : drop nonce_len (nonce ++ ciphertext) ≡ ciphertext =
        rw (← len) (drop-length-append nonce ciphertext) in
      rw (e, before, after, opened) (ground (arith, length-append {0} nonce ciphertext))

  -- A text that Encrypt sealed under a path is opened by Decrypt under that path.
  pub decrypt-encrypt :
      (c : Crypto) (path text d : Bytes) (w w' : World p)
      → encrypt p c path text w ≡ (ok d, w')
      → decrypt p c path d ≡ ok text
  unfolding encrypt
  decrypt-encrypt c path text d w w' h = elim (Result-cases (derive_key p c path)) [
    | inl (key, e) ↦ elim (Result-cases (aesgcm_encrypt p key text w).0) [
      | inl (sealed, q) ↦
          let whole : aesgcm_encrypt p key text w ≡ (ok sealed, (aesgcm_encrypt p key text w).1) =
            ground arith in
          let (opened, len) = aesgcm_decrypt-encrypt key text w _ sealed whole in
          let out : d ≡ sealed.1 ++ sealed.0 = ground arith in
          rw out (decrypt-joined c path text key sealed.0 sealed.1 e len opened)
      | inr (x, q) ↦ ground arith
    ]
    | inr (x, e) ↦ ground arith
  ]

  -- A sealed text is at least a nonce long: `Decrypt` refuses anything shorter.
  pub decrypt_short :
      (c : Crypto) (path d : Bytes)
      → length d < nonce_len
      → decrypt p c path d ≡ err ciphertext_too_short
  unfolding decrypt
  decrypt_short c path d h = ground arith

  verify-joined :
      (other salt key : Bytes)
      → length salt ≡ salt_len
      → length key ≡ master_key_len
      → verify_argon2id p other (salt ++ key) ≡ subtle32_equal (p.argon2_key other salt) key
  unfolding verify_argon2id
  verify-joined other salt key ls lk =
      let before : take salt_len (salt ++ key) ≡ salt = rw (← ls) (take-length-append salt key) in
      let after : drop salt_len (salt ++ key) ≡ key = rw (← ls) (drop-length-append salt key) in
      rw (before, after) (ground (arith, length-append {0} salt key))

  hash_argon2id_inv :
      (password stored : Bytes) (w w' : World p)
      → hash_argon2id p password w ≡ (ok stored, w')
      → (salt : Bytes) × (length salt ≡ salt_len)
        × Drawn p salt_len salt w w'
        × (stored ≡ salt ++ p.argon2_key password salt)
  unfolding hash_argon2id random
  hash_argon2id_inv password stored w w' h = elim (Result-cases (p.rand_read w.tick salt_len)) [
    | inl (salt, e) ↦ (
      salt,
      laws.length-random w.tick salt_len salt e,
      (w.tick, omega arith, ground arith, e),
      ground arith,
    )
    | inr (x, e) ↦ ground arith
  ]

  -- A stored hash of a password has a salt that was drawn for it, with which VerifyArgon2id accepts
  -- exactly the passwords that Argon2id takes to the same key.
  pub verify-hash_argon2id :
      (password stored : Bytes) (w w' : World p)
      → hash_argon2id p password w ≡ (ok stored, w')
      → (salt : Bytes) × Drawn p salt_len salt w w'
        × ((other : Bytes)
            → (verify_argon2id p other stored ≡ true)
              ↔ (p.argon2_key other salt ≡ p.argon2_key password salt))
  verify-hash_argon2id password stored w w' h =
      let (salt, len, drawn, e) = hash_argon2id_inv password stored w w' h in
      let key = p.argon2_key password salt in
      (
        salt,
        drawn,
        λ other. rw e (
            rw (verify-joined other salt key len (laws.length-argon2 password salt))
              (subtle32_equal_iff (p.argon2_key other salt) key)),
      )

-- The key file that SaveMasterKey writes gives the master key back for the same passphrase.
pub load-save_master_key :
    (p : Platform) (laws : CipherLaws p) (codec : Codec MasterKeyFile)
    (faithful : CodecLaws codec (λ f. f)) (master_key passphrase stored : Bytes) (w w' : World p)
    → save_master_key p codec master_key passphrase w ≡ (ok stored, w')
    → load_master_key p codec stored passphrase ≡ ok master_key
unfolding save_master_key load_master_key random
load-save_master_key p laws codec faithful master_key passphrase stored w w' h =
    elim (Result-cases (p.rand_read w.tick salt_len)) [
      | inl (salt, e) ↦ sealed_part salt e
      | inr (x, e) ↦ ground arith
    ]
  where
    key : Bytes → Bytes
    key salt = p.argon2_key passphrase salt

    sealed_part :
        (salt : Bytes)
        → p.rand_read w.tick salt_len ≡ ok salt
        → load_master_key p codec stored passphrase ≡ ok master_key
    sealed_part salt e =
        let w1 : World p = record w { tick = suc w.tick } in
        elim (Result-cases (aesgcm_encrypt p (key salt) master_key w1).0) [
          | inl (sealed, q) ↦
              let whole : aesgcm_encrypt p (key salt) master_key w1
                  ≡ (ok sealed, (aesgcm_encrypt p (key salt) master_key w1).1) =
                ground arith in
              let (opened, len) =
                aesgcm_decrypt-encrypt p laws (key salt) master_key w1 _ sealed whole in
              let file : MasterKeyFile = record {
                salt = salt;
                nonce = sealed.1;
                ciphertext = sealed.0;
              } in
              ground (arith, faithful.unmarshal-marshal file stored)
          | inr (x, q) ↦ ground arith
        ]
