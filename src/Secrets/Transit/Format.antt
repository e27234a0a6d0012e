-- ===== src/Secrets/Transit/Format.antt =====
-- The text of a transit ciphertext, and the sealing inside it.
use lockr.Base.{
  ◌≡◌, ◌∷◌, ◌++◌, some, length-append, take, drop, take-length-append, drop-length-append, Bytes,
  codes, cut, ◌==◌, inl, inr, arith,
}
use lockr.Base.Decimal.{NoByte}
use lockr.Base.Segments.{cut-append}
use lockr.Base.Int.{Int64, IsNat, format_int, format_int-NoByte_above}
use lockr.Result.{ok, Result-cases}
use lockr.Platform.{Platform, World, random}
use lockr.Platform.Laws.{StoreLaws, CipherLaws, CodecLaws}
use lockr.Storage.Crypto.{new_gcm, nonce_len}
use lockr.Secrets.Transit.{
  TransitStore, scan_version, parse_vault_ciphertext, format_vault, aesgcm_encrypt_bytes,
  aesgcm_decrypt_bytes,
}

-- What the transit keys rely on: the laws of the database and of the cipher, and texts that are read
-- back as they were written.
pub record TransitLaws (p : Platform) (tr : TransitStore) : Type 0 where
  pub store : StoreLaws p
  pub cipher : CipherLaws p
  pub meta_json : CodecLaws tr.metas (λ m. m)
  pub decode-encode : (b : Bytes) → tr.base64_decode (tr.base64_encode b) ≡ ok b
  pub scan-format : (v : Int64) → IsNat v → tr.scan_int (format_int v) ≡ ok v

-- A formatted ciphertext is parsed into its version, a number from 0 up, and its payload, whatever
-- bytes the payload holds.
pub parse_vault_ciphertext-format_vault :
    (p : Platform) (tr : TransitStore) (laws : TransitLaws p tr) (v : Int64) (encoded : Bytes)
    → IsNat v
    → parse_vault_ciphertext tr (format_vault v encoded) ≡ ok (v, encoded)
unfolding parse_vault_ciphertext format_vault scan_version ◌==◌
parse_vault_ciphertext-format_vault p tr laws v encoded h =
    let middle = b'v' ∷ format_int v in
    let clean : NoByte b':' middle =
      ((omega arith), format_int-NoByte_above b':' v (omega arith)) in
    let outer : cut b':' (codes "vault" ++ b':' ∷ (middle ++ b':' ∷ encoded))
        ≡ (codes "vault", some (middle ++ b':' ∷ encoded)) =
      cut-append b':' (codes "vault") (middle ++ b':' ∷ encoded) (omega arith) in
    let inner : cut b':' (middle ++ b':' ∷ encoded) ≡ (middle, some encoded) =
      cut-append b':' middle encoded clean in
    rw outer (rw inner (rw (laws.scan-format v h)))

module _ (p : Platform) (cipher : CipherLaws p) where
  pub aesgcm_decrypt_bytes-encrypt :
      (key text d : Bytes) (w w' : World p)
      → aesgcm_encrypt_bytes p key text w ≡ (ok d, w')
      → aesgcm_decrypt_bytes p key d ≡ ok text
  unfolding aesgcm_encrypt_bytes aesgcm_decrypt_bytes random
  aesgcm_decrypt_bytes-encrypt key text d w w' h = elim (Result-cases (new_gcm key)) [
    | inl (u, e) ↦ elim (Result-cases (p.rand_read w.tick nonce_len)) [
      | inl (nonce, q) ↦
          let ct = p.gcm_seal key nonce text in
          let len = cipher.length-random w.tick nonce_len nonce q in
          let out : d ≡ nonce ++ ct = ground arith in
          let before : take nonce_len (nonce ++ ct) ≡ nonce =
            rw (← len) (take-length-append nonce ct) in
          let after : drop nonce_len (nonce ++ ct) ≡ ct =
            rw (← len) (drop-length-append nonce ct) in
          rw out (
            rw e (
              rw before (
                rw after
                  (ground (arith, cipher.open-seal key nonce text, length-append {0} nonce ct)))))
      | inr (x, q) ↦ ground arith
    ]
    | inr (x, e) ↦ ground arith
  ]
