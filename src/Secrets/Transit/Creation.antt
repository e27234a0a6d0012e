-- ===== src/Secrets/Transit/Creation.antt =====
-- Creating and inspecting keys.
use lockr.Base.{ℕ, suc, ◌≡◌, refl, List, [], ◌∷◌, Bytes, inl, inr, All, map, arith}
use lockr.Result.{Error, ok, err, Result-cases}
use lockr.Platform.{Platform, World, now, random}
use lockr.Secrets.Transit.{
  TransitKeyVersion, TransitKeyMeta, TransitStore, find_version, key_version, current_key_version,
  strip_key, load_meta, save_meta, create_key, info,
}
use lockr.Secrets.Transit.Format.{TransitLaws}
use lockr.Secrets.Transit.Rotation.{IsKeyMeta, IsKey, save_meta-IsKey, loaded}

-- The metadata of a new key.
abbrev pub new_meta : Bytes → Bytes → ℕ → TransitKeyMeta
new_meta name key created = record {
  name = name;
  current_version = 1;
  versions = record { version = 1; key = key; created_at = created } ∷ [];
}

new_meta-IsKeyMeta : (name key : Bytes) (created : ℕ) → IsKeyMeta name (new_meta name key created)
unfolding current_key_version key_version find_version
new_meta-IsKeyMeta name key created = record {
  named = refl;
  nat = omega arith;
  numbered = (omega arith, tt);
  current = (record { version = 1; key = key; created_at = created }, refl);
}

map-strip_key : (ks : List TransitKeyVersion) → All (λ k. k.key ≡ []) (map strip_key ks)
unfolding strip_key
map-strip_key [] = tt
map-strip_key (k ∷ ks) = (refl, map-strip_key ks)

versions-strip_key :
    (ks : List TransitKeyVersion)
    → map (λ (k : TransitKeyVersion). k.version) (map strip_key ks)
      ≡ map (λ (k : TransitKeyVersion). k.version) ks
unfolding strip_key
versions-strip_key [] = refl
versions-strip_key (k ∷ ks) = rw (versions-strip_key ks)

module _ (p : Platform) (tr : TransitStore) where
  -- A successful CreateKey leaves a key with the single version 1, whatever the error was with which
  -- the read of an old key of that name failed: a key that cannot be read is replaced.
  pub create_key-IsKey :
      (laws : TransitLaws p tr) (name : Bytes) (e : Error) (w w' : World p)
      → (load_meta p tr name w).0 ≡ err e
      → create_key p tr name w ≡ (ok tt, w')
      → (key : Bytes) × (created : ℕ) × IsKey p tr w'.db name (new_meta name key created)
  unfolding create_key now random
  create_key-IsKey laws name e w w' missing h =
      let w1 = (load_meta p tr name w).1 in
      elim (Result-cases (p.rand_read w1.tick 32)) [
        | inl (key, q) ↦
            let created = p.clock (suc w1.tick) in
            let w2 : World p = record { db = w1.db; tick = suc (suc w1.tick) } in
            let saved : save_meta p tr (new_meta name key created) w2 ≡ (ok tt, w') =
              ground arith in
            (
              key,
              created,
              save_meta-IsKey p tr laws name (new_meta name key created) w2 w'
                  (new_meta-IsKeyMeta name key created) saved,
            )
        | inr (x, q) ↦ ground arith
      ]

  -- Info answers with the name, the current version and the version numbers of a stored key, and
  -- with no key material.
  pub info-keyless :
      (s : p.Store) (name : Bytes) (m : TransitKeyMeta) (w : World p)
      → IsKey p tr s name m
      → w.db ≡ s
      → (shown : TransitKeyMeta) × ((info p tr name w).0 ≡ ok shown)
        × (shown.name ≡ name)
        × (shown.current_version ≡ m.current_version)
        × (map (λ (k : TransitKeyVersion). k.version) shown.versions
            ≡ map (λ (k : TransitKeyVersion). k.version) m.versions)
        × All (λ k. k.key ≡ []) shown.versions
  unfolding info
  info-keyless s name m w h e =
      let read = loaded p tr s name m w h e in
      (
        record m { versions = map strip_key m.versions },
        ground arith,
        h.formed.named,
        refl,
        versions-strip_key m.versions,
        map-strip_key m.versions,
      )
