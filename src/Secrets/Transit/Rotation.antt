-- ===== src/Secrets/Transit/Rotation.antt =====
-- Key versions over time: what a rotation keeps, and that a ciphertext outlives rotations.
use lockr.Base.{
  ℕ, suc, ◌+◌, ◌≤◌, ◌<◌, ◌^◌, ◌≡◌, ◌≢◌, refl, ap, sym, List, [], ◌∷◌, ◌++◌, some, Bytes, inl, inr,
  All, All-append, arith,
}
use mathlib.Core.Path.{subst}
use lockr.Base.Int.{Int64, IsNat, int_incr, int_incr_nat}
use lockr.Keys.{transit_path}
use lockr.Result.{ok, Result-cases, ◌>>=◌}
use lockr.Platform.{Platform, World, now, random}
use lockr.Storage.Db as Db
use lockr.Storage.Db.{translate}
use lockr.Storage.Crypto.{encrypt}
use lockr.Storage.Sealed.{at, SameBut, sealed_effect}
use lockr.Secrets.Transit.{
  TransitKeyVersion, TransitKeyMeta, TransitStore, find_version, key_version, current_key_version,
  add_version, aesgcm_encrypt_bytes, aesgcm_decrypt_bytes, deref, found_version, format_vault,
  load_meta, save_meta, rotate, transit_encrypt, transit_decrypt,
}
use lockr.Secrets.Transit.Format.{
  TransitLaws, parse_vault_ciphertext-format_vault, aesgcm_decrypt_bytes-encrypt,
}

find_version-append :
    (v : Int64) (ks js : List TransitKeyVersion) (k : TransitKeyVersion)
    → find_version v ks ≡ some k
    → find_version v (ks ++ js) ≡ some k
unfolding find_version
find_version-append v [] js k h = cc
find_version-append v (x ∷ ks) js k h = ground (arith, find_version-append v ks js k)

find_version-fresh :
    (v : Int64) (ks : List TransitKeyVersion) (k : TransitKeyVersion)
    → All (λ x. x.version < v) ks
    → k.version ≡ v
    → find_version v (ks ++ k ∷ []) ≡ some k
unfolding find_version
find_version-fresh v [] k h e = ground arith
find_version-fresh v (x ∷ ks) k (l, h) e = ground (arith, find_version-fresh v ks k h e)

find_version-version :
    (v : Int64) (ks : List TransitKeyVersion) (k : TransitKeyVersion)
    → find_version v ks ≡ some k
    → k.version ≡ v
unfolding find_version
find_version-version v [] k h = cc
find_version-version v (x ∷ ks) k h = ground (arith, find_version-version v ks k)

All-weaken :
    (n m : ℕ) (ks : List TransitKeyVersion)
    → n ≤ m
    → All (λ x. x.version < n) ks
    → All (λ x. x.version < m) ks
All-weaken n m [] le h = tt
All-weaken n m (x ∷ ks) le (l, h) = (omega arith, All-weaken n m ks le h)

-- The metadata of a key: its versions are numbered up to the current one, which is there.
pub record IsKeyMeta (name : Bytes) (m : TransitKeyMeta) : Type 0 where
  pub named : m.name ≡ name
  pub nat : IsNat m.current_version
  pub numbered : All (λ k. k.version < m.current_version + 1) m.versions
  pub current : (k : TransitKeyVersion) × (current_key_version m ≡ some k)

-- Every version of the one is a version of the other, with the same key.
abbrev pub Retains : TransitKeyMeta → TransitKeyMeta → Type 0
Retains m m' =
    (v : Int64) (k : TransitKeyVersion) → key_version m v ≡ some k → key_version m' v ≡ some k

-- Adding a version keeps the metadata well formed and every version that was there.
pub add_version-IsKeyMeta :
    (name key : Bytes) (created : ℕ) (m : TransitKeyMeta)
    → IsKeyMeta name m
    → m.current_version + 1 < 2 ^ 63
    → IsKeyMeta name (add_version key created m) × Retains m (add_version key created m)
unfolding add_version current_key_version key_version
add_version-IsKeyMeta name key created m h room =
    let next : int_incr m.current_version ≡ m.current_version + 1 =
      int_incr_nat m.current_version room in
    let k : TransitKeyVersion = record {
      version = int_incr m.current_version;
      key = key;
      created_at = created;
    } in
    (
      record {
        named = h.named;
        nat = omega (arith, next);
        numbered =
            All-append _ m.versions (k ∷ [])
              (All-weaken (m.current_version + 1) (int_incr m.current_version + 1) m.versions
                (omega (arith, next)) h.numbered)
              (omega arith, tt);
        current = (
          k,
          find_version-fresh (int_incr m.current_version) m.versions k
              (All-weaken (m.current_version + 1) (int_incr m.current_version) m.versions
                (omega (arith, next)) h.numbered)
              refl,
        );
      },
      λ v j found. find_version-append v m.versions (k ∷ []) j found,
    )

current_version-add_version :
    (key : Bytes) (created : ℕ) (m : TransitKeyMeta)
    → m.current_version + 1 < 2 ^ 63
    → (add_version key created m).current_version ≡ m.current_version + 1
unfolding add_version
current_version-add_version key created m room = int_incr_nat m.current_version room

current_key_version-version :
    (m : TransitKeyMeta) (k : TransitKeyVersion)
    → current_key_version m ≡ some k
    → (k.version ≡ m.current_version) × (key_version m k.version ≡ some k)
unfolding current_key_version key_version
current_key_version-version m k h =
    let same = find_version-version m.current_version m.versions k h in
    (same, subst (λ v. find_version v m.versions ≡ some k) (sym same) h)

module _ (p : Platform) (tr : TransitStore) where
  open tr use {crypto, metas}

  -- Every read of the key's metadata gives `m`, which is well formed.
  pub record IsKey (s : p.Store) (name : Bytes) (m : TransitKeyMeta) : Type 0 where
    pub stored : (t : ℕ) → (load_meta p tr name (at p s t)).0 ≡ ok m
    pub formed : IsKeyMeta name m

  pub loaded :
      (s : p.Store) (name : Bytes) (m : TransitKeyMeta) (w : World p)
      → IsKey s name m
      → w.db ≡ s
      → (load_meta p tr name w).0 ≡ ok m
  loaded s name m w h e =
      let here : w ≡ at p s w.tick = ap (λ d. at p d w.tick) e in rw here (h.stored w.tick)

  db-load_meta : (name : Bytes) (w : World p) → (load_meta p tr name w).1.db ≡ w.db
  unfolding load_meta Db.get
  db-load_meta name w = ground arith

  IsKey-SameBut :
      (k : Bytes) (s s' : p.Store) (name : Bytes) (m : TransitKeyMeta)
      → k ≢ transit_path name
      → SameBut p k s s'
      → IsKey s name m
      → IsKey s' name m
  unfolding load_meta Db.get
  IsKey-SameBut k s s' name m n same h = record {
    stored = λ t. ground (arith, same t (transit_path name) n, h.stored t);
    formed = h.formed;
  }

  db-transit_encrypt :
      (name text : Bytes) (w : World p) → (transit_encrypt p tr name text w).1.db ≡ w.db
  unfolding transit_encrypt load_meta Db.get aesgcm_encrypt_bytes random
  db-transit_encrypt name text w = ground arith

  -- A state of the world after `n` rotations of the key, among any changes to other records.
  pub data Evolves (name : Bytes) : ℕ → World p → World p → Type 0 where
    start : {w : World p} → Evolves name 0 w w
    rotated :
        {n : ℕ} {w w' w'' : World p}
        → Evolves name n w w'
        → rotate p tr name w' ≡ (ok tt, w'')
        → Evolves name (suc n) w w''
    elsewhere :
        {n : ℕ} {w w' w'' : World p} (k : Bytes)
        → Evolves name n w w'
        → k ≢ transit_path name
        → SameBut p k w'.db w''.db
        → Evolves name n w w''

  module _ (laws : TransitLaws p tr) where
    pub save_meta-IsKey :
        (name : Bytes) (m : TransitKeyMeta) (w w' : World p)
        → IsKeyMeta name m
        → save_meta p tr m w ≡ (ok tt, w')
        → IsKey w'.db name m
    unfolding save_meta load_meta Db.get
    save_meta-IsKey name m w w' f h = elim (Result-cases (metas.marshal m)) [
      | inl (d, e) ↦
          let key = transit_path m.name in
          let sealed : (encrypt p crypto key d >>= Db.set p key) w ≡ (ok tt, w') = ground arith in
          let (here, others) = sealed_effect p laws.store laws.cipher crypto key d w w' sealed in
          record {
            stored = λ t.
                rw (← f.named) (ground (arith, here t, laws.meta_json.unmarshal-marshal m d e));
            formed = f;
          }
      | inr (x, e) ↦ ground arith
    ]

    -- A successful Rotate adds one version to a stored key, which becomes the current one, and
    -- retains every version that was there; the version numbers stay below 2 ^ 63.
    pub rotate-IsKey :
        (name : Bytes) (m : TransitKeyMeta) (w w' : World p)
        → IsKey w.db name m
        → m.current_version + 1 < 2 ^ 63
        → rotate p tr name w ≡ (ok tt, w')
        → (m' : TransitKeyMeta) × IsKey w'.db name m'
          × Retains m m'
          × (m'.current_version ≡ m.current_version + 1)
    unfolding rotate now random
    rotate-IsKey name m w w' h room r =
        let w1 = (load_meta p tr name w).1 in
        let read = loaded w.db name m w h refl in
        elim (Result-cases (p.rand_read w1.tick 32)) [
          | inl (key, e) ↦
              let created = p.clock (suc w1.tick) in
              let w2 : World p = record { db = w1.db; tick = suc (suc w1.tick) } in
              let (formed, retains) = add_version-IsKeyMeta name key created m h.formed room in
              let saved : save_meta p tr (add_version key created m) w2 ≡ (ok tt, w') =
                ground arith in
              (
                add_version key created m,
                save_meta-IsKey name (add_version key created m) w2 w' formed saved,
                retains,
                current_version-add_version key created m room,
              )
          | inr (x, e) ↦ ground arith
        ]

    pub Evolves-IsKey :
        (name : Bytes) (m : TransitKeyMeta) (n : ℕ) (w w' : World p)
        → IsKey w.db name m
        → m.current_version + n < 2 ^ 63
        → Evolves name n w w'
        → (m' : TransitKeyMeta) × IsKey w'.db name m'
          × Retains m m'
          × (m'.current_version ≡ m.current_version + n)
    Evolves-IsKey name m n w w' h room start = (m, h, (λ v k f. f), omega arith)
    Evolves-IsKey name m n w w'' h room (rotated {n = n'} {w' = w'} before r) =
        let (m1, h1, keep1, c1) = Evolves-IsKey name m n' w w' h (omega arith) before in
        let (m2, h2, keep2, c2) = rotate-IsKey name m1 w' w'' h1 (omega arith) r in
        (m2, h2, (λ v k f. keep2 v k (keep1 v k f)), omega arith)
    Evolves-IsKey name m n w w'' h room (elsewhere {w' = w'} k before apart same) =
        let (m1, h1, keep1, c1) = Evolves-IsKey name m n w w' h room before in
        (m1, IsKey-SameBut k w'.db w''.db name m1 apart same h1, keep1, c1)

    decrypted :
        (name encoded ct text : Bytes) (v : Int64) (k : TransitKeyVersion) (m : TransitKeyMeta)
        (w : World p)
        → IsNat v
        → IsKey w.db name m
        → key_version m v ≡ some k
        → tr.base64_decode encoded ≡ ok ct
        → aesgcm_decrypt_bytes p k.key ct ≡ ok text
        → (transit_decrypt p tr name (format_vault v encoded) w).0 ≡ ok text
    unfolding transit_decrypt found_version
    decrypted name encoded ct text v k m w nat h found d o = ground (
      arith,
      parse_vault_ciphertext-format_vault p tr laws v encoded nat,
      loaded w.db name m w h refl,
    )

    -- A ciphertext that Encrypt made of a stored transit key is decrypted to the text after any
    -- number of rotations of the key and any changes to other records; the version numbers stay
    -- below 2 ^ 63.
    pub transit_decrypt-encrypt :
        (name text ct : Bytes) (m : TransitKeyMeta) (n : ℕ) (w w1 w2 : World p)
        → IsKey w.db name m
        → m.current_version + n < 2 ^ 63
        → transit_encrypt p tr name text w ≡ (ok ct, w1)
        → Evolves name n w1 w2
        → (transit_decrypt p tr name ct w2).0 ≡ ok text
    unfolding transit_encrypt deref
    transit_decrypt-encrypt name text ct m n w w1 w2 h room enc path =
        let (k, cur) = h.formed.current in
        let wl = (load_meta p tr name w).1 in
        let read = loaded w.db name m w h refl in
        elim (Result-cases (aesgcm_encrypt_bytes p k.key text wl).0) [
          | inl (sealed, e) ↦
              let whole : aesgcm_encrypt_bytes p k.key text wl
                  ≡ (ok sealed, (aesgcm_encrypt_bytes p k.key text wl).1) =
                ground arith in
              let out : ct ≡ format_vault k.version (tr.base64_encode sealed) = ground arith in
              let same : w1.db ≡ w.db = rw (← db-transit_encrypt name text w) (ground arith) in
              let (m2, h2, keep, c2) =
                Evolves-IsKey name m n w1 w2 (subst (λ s. IsKey s name m) (sym same) h) room path in
              let (numbered, found) = current_key_version-version m k cur in
              rw out (
                decrypted name (tr.base64_encode sealed) sealed text k.version k m2 w2
                  (omega (arith, h.formed.nat, numbered)) h2 (keep k.version k found)
                  (laws.decode-encode sealed)
                  (aesgcm_decrypt_bytes-encrypt p laws.cipher k.key text sealed wl _ whole))
          | inr (x, e) ↦ ground arith
        ]
