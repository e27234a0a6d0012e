-- ===== src/Secrets/Transit/Spares.antt =====
-- The transit keys leave the records outside secrets/transit/ alone.
use lockr.Base.{◌≡◌, false, Bytes, has_prefix}
use lockr.Keys.{transit_path}
use lockr.Platform.{Platform}
use lockr.Platform.Laws.{StoreLaws}
use lockr.Storage.Frame.{Spares, frame_rules}
use lockr.Secrets.Transit.{
  TransitKeyMeta, TransitStore, aesgcm_encrypt_bytes, load_meta, save_meta, create_key, rotate,
  transit_encrypt, transit_decrypt, info,
}

module _ (p : Platform) (store : StoreLaws p) (tr : TransitStore) (area : Bytes)
    (out : (name : Bytes) → has_prefix (transit_path name) area ≡ false) where
  load_meta-Spares : (name : Bytes) → Spares p area (load_meta p tr name)
  unfolding load_meta
  load_meta-Spares name = search frame_rules depth 9

  save_meta-Spares : (meta : TransitKeyMeta) → Spares p area (save_meta p tr meta)
  unfolding save_meta
  save_meta-Spares meta = search (frame_rules, out, store) depth 9

  pub create_key-Spares : (name : Bytes) → Spares p area (create_key p tr name)
  unfolding create_key
  create_key-Spares name = search (frame_rules, load_meta-Spares, save_meta-Spares) depth 12

  pub rotate-Spares : (name : Bytes) → Spares p area (rotate p tr name)
  unfolding rotate
  rotate-Spares name = search (frame_rules, load_meta-Spares, save_meta-Spares) depth 9

  aesgcm_encrypt_bytes-Spares : (key text : Bytes) → Spares p area (aesgcm_encrypt_bytes p key text)
  unfolding aesgcm_encrypt_bytes
  aesgcm_encrypt_bytes-Spares key text = search frame_rules depth 9

  pub transit_encrypt-Spares : (name text : Bytes) → Spares p area (transit_encrypt p tr name text)
  unfolding transit_encrypt
  transit_encrypt-Spares name text =
      search (frame_rules, load_meta-Spares, aesgcm_encrypt_bytes-Spares) depth 9

  pub transit_decrypt-Spares : (name text : Bytes) → Spares p area (transit_decrypt p tr name text)
  unfolding transit_decrypt
  transit_decrypt-Spares name text = search (frame_rules, load_meta-Spares) depth 12

  pub info-Spares : (name : Bytes) → Spares p area (info p tr name)
  unfolding info
  info-Spares name = search (frame_rules, load_meta-Spares) depth 9
