-- ===== src/Auth/Admin/Token.antt =====
-- Which tokens `Verify` accepts.
use lockr.Base.{
  ℕ, refl, Mem, true, Bool-cases, List, [], ◌∷◌, ◌≡◌, Bytes, has_prefix, inl, inr, arith,
}
use lockr.Result.{ok, Result-cases}
use lockr.Platform.{Platform, World}
use lockr.Storage.Db as Db
use lockr.Storage.Sealed.{at}
use mathlib.Core.Path.{subst}
use lockr.Storage.Listing as Listing
use lockr.Storage.Crypto.{verify_argon2id}
use lockr.Auth.Admin.{
  AdminRecord, AdminAuth, admin_token_prefix, admins_dir, accepts, read_record, verify_keys, verify,
}

module _ (p : Platform) (a : AdminAuth) where
  -- The record stands under one of the keys in the database.
  pub record StoredUnder (s : p.Store) (keys : List Bytes) (rec : AdminRecord) : Type 0 where
    pub key : Bytes
    pub listed : Mem key keys
    pub stored : Bytes
    pub time : ℕ
    pub found : (Db.get p key (at p s time)).0 ≡ ok stored
    pub decoded : a.records.unmarshal stored ≡ ok rec

  StoredUnder-cons :
      (s : p.Store) (key : Bytes) (keys : List Bytes) (rec : AdminRecord)
      → StoredUnder s keys rec
      → StoredUnder s (key ∷ keys) rec
  StoredUnder-cons s key keys rec u = record {
    key = u.key;
    listed = inr u.listed;
    stored = u.stored;
    time = u.time;
    found = u.found;
    decoded = u.decoded;
  }

  db-read_record : (key : Bytes) (w : World p) → (read_record p a key w).1.db ≡ w.db
  unfolding read_record Db.get
  db-read_record key w = ground arith

  read_record-StoredUnder :
      (key : Bytes) (keys : List Bytes) (w : World p) (rec : AdminRecord)
      → (read_record p a key w).0 ≡ ok rec
      → StoredUnder w.db (key ∷ keys) rec
  unfolding read_record
  read_record-StoredUnder key keys w rec h = elim (Result-cases (Db.get p key w).0) [
    | inl (stored, e) ↦ record {
      key = key;
      listed = inl refl;
      stored = stored;
      time = w.tick;
      found = e;
      decoded = ground arith;
    }
    | inr (x, e) ↦ ground arith
  ]

  verify_keys_sound :
      (token : Bytes) (keys : List Bytes) (w w' : World p) (rec : AdminRecord)
      → verify_keys p a token keys w ≡ (ok rec, w')
      → (verify_argon2id p token rec.hash ≡ true) × StoredUnder w.db keys rec
  unfolding verify_keys accepts
  verify_keys_sound token [] w w' rec h = ground arith
  verify_keys_sound token (key ∷ keys) w w' rec h =
      let w1 = (read_record p a key w).1 in
      elim (Result-cases (read_record p a key w).0) [
        | inl (found, e) ↦ elim (Bool-cases (verify_argon2id p token found.hash)) [
          | inl y ↦
              let same : found ≡ rec = ground arith in
              let here : (read_record p a key w).0 ≡ ok rec = ground arith in
              (
                subst (λ (r : AdminRecord). verify_argon2id p token r.hash ≡ true) same y,
                read_record-StoredUnder key keys w rec here,
              )
          | inr n ↦
              let (good, under) = verify_keys_sound token keys w1 w' rec (ground arith) in
              (good, later key keys w rec under)
        ]
        | inr (x, e) ↦
            let (good, under) = verify_keys_sound token keys w1 w' rec (ground arith) in
            (good, later key keys w rec under)
      ]
    where
      later :
          (key : Bytes) (keys : List Bytes) (w : World p) (rec : AdminRecord)
          → StoredUnder (read_record p a key w).1.db keys rec
          → StoredUnder w.db (key ∷ keys) rec
      later key keys w rec under =
          StoredUnder-cons w.db key keys rec
            (subst (λ s. StoredUnder s keys rec) (db-read_record key w) under)

  -- A token that Verify accepts has the prefix of admin tokens and verifies against the hash of the
  -- record that is returned, which stands in the database under one of the listed keys of
  -- administrators.
  pub verify_admin_sound :
      (token : Bytes) (w w' : World p) (rec : AdminRecord)
      → verify p a token w ≡ (ok rec, w')
      → (has_prefix token admin_token_prefix ≡ true)
        × (verify_argon2id p token rec.hash ≡ true)
        × ((keys : List Bytes) × ((Listing.list p admins_dir w).0 ≡ ok keys)
            × StoredUnder (Listing.list p admins_dir w).1.db keys rec)
  unfolding verify
  verify_admin_sound token w w' rec h = elim (Bool-cases (has_prefix token admin_token_prefix)) [
    | inl y ↦ elim (Result-cases (Listing.list p admins_dir w).0) [
      | inl (keys, e) ↦
          let w1 = (Listing.list p admins_dir w).1 in
          let run : verify_keys p a token keys w1 ≡ (ok rec, w') = ground arith in
          let (good, under) = verify_keys_sound token keys w1 w' rec run in
          (y, good, (keys, e, under))
      | inr (x, e) ↦ ground arith
    ]
    | inr n ↦ ground arith
  ]
