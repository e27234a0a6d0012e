-- ===== src/Auth/User/Password.antt =====
-- Whom `Verify` accepts after a user is created, changed or deleted.
use lockr.Base.{
  ℕ, suc, ◌≡◌, ◌↔◌, refl, true, false, Bytes, not, ◌||◌, inl, inr, if◌then◌else◌, arith,
}
use lockr.Keys.{user_path}
use lockr.Result.{ok, err, Result-cases, is_not_found, invalid_credentials}
use lockr.Platform.{Platform, World, now}
use lockr.Platform.Laws.{StoreLaws, CipherLaws, CodecLaws}
use lockr.Storage.Db as Db
use lockr.Storage.Db.{is_key_not_found}
use lockr.Storage.Crypto.{hash_argon2id, verify_argon2id}
use lockr.Storage.Crypto.RoundTrip.{verify-hash_argon2id}
use lockr.Storage.Crypto.{salt_len}
use lockr.Result.Follows.{Follows}
use lockr.Storage.Elapsed.{Later, Later-get, Drawn, Drawn-within, elapsed_rules}
use lockr.Storage.Sealed.{at, set_effect, delete_effect}
use lockr.Auth.User.{
  UserRecord, UserAuth, check_user, save_user, user_free, create, get, verify, delete,
}

-- What the users rely on: the laws of the database and of Argon2id, and records that are read back as
-- they were written.
pub record UserLaws (p : Platform) (a : UserAuth) : Type 0 where
  pub store : StoreLaws p
  pub cipher : CipherLaws p
  pub record_json : CodecLaws a.records (λ r. r)

module _ (p : Platform) (a : UserAuth) where
  -- Every read of the user gives the record.
  abbrev pub IsUser : p.Store → Bytes → UserRecord → Type 0
  IsUser s username rec = (t : ℕ) → (get p a username (at p s t)).0 ≡ ok rec

  -- For a stored user Verify answers from the record alone.
  pub verify-check_user :
      (s : p.Store) (username password : Bytes) (rec : UserRecord) (t : ℕ)
      → IsUser s username rec
      → (verify p a username password (at p s t)).0 ≡ (
          if rec.disabled || not (verify_argon2id p password rec.hash)
          then err invalid_credentials
          else ok rec)
  unfolding verify check_user
  verify-check_user s username password rec t h = let read = h t in ground arith

  save_user-Later :
      (username : Bytes) (rec : UserRecord) → Follows (Later p) (save_user p a username rec)
  unfolding save_user
  save_user-Later username rec = search elapsed_rules

  get-Later : (username : Bytes) → Follows (Later p) (get p a username)
  unfolding get
  get-Later username = search elapsed_rules

  pub Later-verify : (username password : Bytes) → Follows (Later p) (verify p a username password)
  unfolding verify
  Later-verify username password = search (elapsed_rules, get-Later)

  module _ (laws : UserLaws p a) where
    save_user-IsUser :
        (username : Bytes) (rec : UserRecord) (w w' : World p)
        → save_user p a username rec w ≡ (ok tt, w')
        → IsUser w'.db username rec
    unfolding save_user get Db.get
    save_user-IsUser username rec w w' h = elim (Result-cases (a.records.marshal rec)) [
      | inl (d, e) ↦
          let written : Db.set p (user_path username) d w ≡ (ok tt, w') = ground arith in
          let (here, others) = set_effect p laws.store (user_path username) d w w' written in
          λ t. ground (arith, here t, laws.record_json.unmarshal-marshal rec d e)
      | inr (x, e) ↦ ground arith
    ]

    -- After a successful Delete nobody is accepted under the name.
    pub verify-delete :
        (username password : Bytes) (w w' : World p) (t : ℕ)
        → delete p a username w ≡ (ok tt, w')
        → (verify p a username password (at p w'.db t)).0 ≡ err invalid_credentials
    unfolding delete verify get check_user Db.get is_key_not_found is_not_found
    verify-delete username password w w' t h =
        let w1 = (Db.get p (user_path username) w).1 in
        let removed : Db.delete p (user_path username) w1 ≡ (ok tt, w') = ground arith in
        let (gone, others) = delete_effect p laws.store (user_path username) w1 w' removed in
        ground (arith, gone t)

    accepted :
        (username other : Bytes) (rec : UserRecord) (s : p.Store) (t : ℕ)
        → IsUser s username rec
        → rec.disabled ≡ false
        → {P : Type 0} → ((verify_argon2id p other rec.hash ≡ true) ↔ P)
        → ((verify p a username other (at p s t)).0 ≡ ok rec) ↔ P
    accepted username other rec s t user enabled {P} (there, back) =
        let answer = verify-check_user s username other rec t user in
        (λ ok'. there (ground arith), λ same. let good = back same in ground arith)

    -- After a successful Create, Verify accepts under the name exactly the passwords that Argon2id
    -- takes to the same key as the password of the creation, with a salt that was read from the
    -- random source during the Create, and answers with the name and the policy of the creation.
    pub verify-create :
        (username password policy : Bytes) (w w' : World p)
        → create p a username password policy w ≡ (ok tt, w')
        → (rec : UserRecord) × (salt : Bytes) × Drawn p salt_len salt w w'
          × (rec.username ≡ username)
          × (rec.policy ≡ policy)
          × ((other : Bytes) (t : ℕ)
              → ((verify p a username other (at p w'.db t)).0 ≡ ok rec)
                ↔ (p.argon2_key other salt ≡ p.argon2_key password salt))
    unfolding create user_free now
    verify-create username password policy w w' h =
        let w1 = (Db.get p (user_path username) w).1 in
        elim (Result-cases (Db.get p (user_path username) w).0) [
          | inl (v, taken) ↦ ground arith
          | inr (x, free) ↦ elim (Result-cases (hash_argon2id p password w1).0) [
            | inl (hash, e) ↦
                let w2 = (hash_argon2id p password w1).1 in
                let whole : hash_argon2id p password w1 ≡ (ok hash, w2) = ground arith in
                let rec : UserRecord = record {
                  username = username;
                  policy = policy;
                  created_at = p.clock w2.tick;
                  hash = hash;
                  disabled = false;
                } in
                let w3 : World p = record w2 { tick = suc w2.tick } in
                let saved : save_user p a username rec w3 ≡ (ok tt, w') = ground arith in
                let user = save_user-IsUser username rec w3 w' saved in
                let (salt, drawn, accepts) =
                  verify-hash_argon2id p laws.cipher password hash w1 w2 whole in
                let before = (Later-get p (user_path username)).at w in
                let after : Later p w2 w' =
                  let late = (save_user-Later username rec).at w3 in ground arith in
                (
                  rec,
                  salt,
                  Drawn-within p salt_len salt w w1 w2 w' before after drawn,
                  refl,
                  refl,
                  λ other t. accepted username other rec w'.db t user refl (accepts other),
                )
            | inr (y, e) ↦ ground arith
          ]
        ]
