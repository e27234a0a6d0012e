-- ===== src/Api/Transit.antt =====
-- internal/api/transit_handlers.go, and the routes under /v1/secrets/transit/ of router.go.
pub mod Spares
use lockr.Base.{[], Bytes, codes, ◌==◌, has_suffix, trim_prefix, trim_suffix, if◌then◌else◌}
use lockr.Keys.{transit_path}
use lockr.Result.{Result, ok, err}
use lockr.Platform.{Platform}
use lockr.Policy.{cap_read, cap_write, cap_encrypt, cap_decrypt}
use lockr.Secrets.Transit.{TransitStore, create_key, rotate, transit_encrypt, transit_decrypt, info}
use lockr.Api.{
  Request, Server, message, decryption_failed, status_is, ciphertext_is, plaintext_is, info_is,
  key_created, Handler, respond, answer, failed_with, permitted, with_admin,
}

-- encoding/json for the bodies: their fields "plaintext" and "ciphertext".
pub record TransitInput : Type 0 where
  pub decode_plaintext : Bytes → Result Bytes
  pub decode_ciphertext : Bytes → Result Bytes

unfoldable pub transit_key_name : Bytes → Bytes → Bytes
transit_key_name url_path suffix =
    trim_suffix (trim_prefix url_path (codes "/v1/secrets/transit/")) suffix

module _ (p : Platform) (tr : TransitStore) (input : TransitInput) (s : Server) (r : Request) where
  encrypt_decoded : Bytes → Result Bytes → Handler p
  encrypt_decoded name (err e) = respond p 400 (message (codes "plaintext required"))
  encrypt_decoded name (ok text) =
      if text == []
      then respond p 400 (message (codes "plaintext required"))
      else answer p (failed_with p 500) ciphertext_is (transit_encrypt p tr name text)

  unfoldable pub handle_encrypt : Handler p
  unfolding encrypt_decoded
  handle_encrypt =
      let name = transit_key_name r.url_path (codes "/encrypt") in
      permitted p s r (transit_path name) cap_encrypt
        (encrypt_decoded name (input.decode_plaintext r.body))

  decrypt_decoded : Bytes → Result Bytes → Handler p
  decrypt_decoded name (err e) = respond p 400 (message (codes "ciphertext required"))
  decrypt_decoded name (ok text) =
      if text == []
      then respond p 400 (message (codes "ciphertext required"))
      else answer p (λ e. record { status = 400; reply = decryption_failed e }) plaintext_is
          (transit_decrypt p tr name text)

  unfoldable pub handle_decrypt : Handler p
  unfolding decrypt_decoded
  handle_decrypt =
      let name = transit_key_name r.url_path (codes "/decrypt") in
      permitted p s r (transit_path name) cap_decrypt
        (decrypt_decoded name (input.decode_ciphertext r.body))

  unfoldable pub handle_rotate : Handler p
  handle_rotate =
      let name = transit_key_name r.url_path (codes "/rotate") in
      permitted p s r (transit_path name) cap_write
        (answer p (failed_with p 500) (λ u. status_is (codes "rotated")) (rotate p tr name))

  unfoldable pub handle_info : Handler p
  handle_info =
      let name = transit_key_name r.url_path (codes "/info") in
      permitted p s r (transit_path name) cap_read
        (answer p (failed_with p 404) info_is (info p tr name))

  unfoldable pub handle_create : Handler p
  handle_create =
      let name = transit_key_name r.url_path (codes "/create") in
      permitted p s r (transit_path name) cap_write
        (answer p (failed_with p 409) (λ u. key_created name) (create_key p tr name))

  -- The handler of /v1/secrets/transit/.
  unfoldable pub route_transit : Handler p
  route_transit =
      if has_suffix r.url_path (codes "/create")
      then with_admin p s r handle_create
      else if has_suffix r.url_path (codes "/encrypt")
      then handle_encrypt
      else if has_suffix r.url_path (codes "/decrypt")
      then handle_decrypt
      else if has_suffix r.url_path (codes "/rotate")
      then handle_rotate
      else if has_suffix r.url_path (codes "/info")
      then handle_info
      else respond p 404 (message (codes "not found"))
