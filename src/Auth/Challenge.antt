-- ===== src/Auth/Challenge.antt =====
-- internal/auth/ed25519.go: services that sign a challenge. The challenges are held in memory, the
-- services in the database.
pub mod OneTime
pub mod Spares
pub mod Elapsed
use lockr.Base.{
  ℕ, ◌+◌, ◌*◌, ◌^◌, Bool, true, false, List, [], ◌∷◌, Option, none, some, Bytes, codes, not, ltb,
  ◌==◌, if◌then◌else◌,
}
use lockr.Base.Assoc.{Assoc, lookup, insert, without}
use lockr.Keys.{service_path}
use lockr.Result.{
  Error, is_not_found, service_not_found, unknown_service, challenge_not_found, challenge_expired,
  challenge_mismatch, invalid_signature, wrap, Result, ok, err, Exec, pure, fail, lift, ◌>>=◌, ◌>>◌,
}
use lockr.Platform.{Platform, World, now, random, Codec}
use lockr.Storage.Db as Db

abbrev pub challenge_len : ℕ
challenge_len = 32

-- 60 * time.Second
abbrev pub challenge_ttl : ℕ
challenge_ttl = 60 * 10 ^ 9

pub record ServiceRecord : Type 0 where
  pub name : Bytes
  pub public_key : Bytes
  pub policy : Bytes

pub record PendingChallenge : Type 0 where
  pub challenge : Bytes
  pub service : Bytes
  pub expires_at : ℕ

-- encoding/json for the record, the %x of fmt.Sprintf, and ed25519.Verify (public key, message,
-- signature).
pub record Ed25519 : Type 0 where
  pub records : Codec ServiceRecord
  pub hex : Bytes → Bytes
  pub signed : Bytes → Bytes → Bytes → Bool

-- The state of the program: the world, and the map of pending challenges. The mutex guards each
-- access to the map.
pub record AuthState (p : Platform) : Type 0 where
  pub world : World p
  pub challenges : Assoc PendingChallenge

unfoldable pub service_missing : Bytes → Error → Error
service_missing name e = if is_not_found e then service_not_found name else e

-- The loop of pruneExpired.
unfoldable pub prune_expired : ℕ → Assoc PendingChallenge → Assoc PendingChallenge
prune_expired time [] = []
prune_expired time ((k, c) ∷ m) =
    let rest = prune_expired time m in if ltb c.expires_at time then rest else (k, c) ∷ rest

module _ {p : Platform} where
  -- A call that leaves the challenges alone.
  abbrev pub on_world : {A : Type 0} → Exec (World p) A → Exec (AuthState p) A
  on_world m s = let (r, w) = m s.world in (r, record s { world = w })

  abbrev pub change_challenges :
      (Assoc PendingChallenge → Assoc PendingChallenge) → Exec (AuthState p) (Unit {0})
  change_challenges f s = (ok tt, record s { challenges = f s.challenges })

  abbrev pub pending : Bytes → Exec (AuthState p) (Option PendingChallenge)
  pending key s = (ok (lookup key s.challenges), s)

module _ (p : Platform) (a : Ed25519) where
  open a use {records, hex, signed}

  unfoldable pub register_service : ServiceRecord → Exec (World p) (Unit {0})
  register_service rec = do
    encoded ← lift (records.marshal rec)
    Db.set p (service_path rec.name) encoded

  unfoldable pub get_service : Bytes → Exec (World p) ServiceRecord
  get_service name = do
    stored ← wrap (service_missing name) (Db.get p (service_path name))
    lift (records.unmarshal stored)

  unfoldable pub delete_service : Bytes → Exec (World p) (Unit {0})
  delete_service name = Db.delete p (service_path name)

  -- GenerateChallenge, without the goroutine that prunes.
  unfoldable pub generate_challenge : Bytes → Exec (AuthState p) Bytes
  generate_challenge service = do
    _ ← on_world (wrap (λ e. unknown_service service) (get_service service))
    challenge ← on_world (random p challenge_len)
    time ← on_world (now p)
    change_challenges (
        insert (hex challenge)
          (record { challenge = challenge; service = service; expires_at = time + challenge_ttl }))
    pure challenge

  -- The goroutine that GenerateChallenge starts.
  unfoldable pub prune_challenges : Exec (AuthState p) (Unit {0})
  prune_challenges = do time ← on_world (now p); change_challenges (prune_expired time)

  unfoldable pub check_signature : Bytes → Bytes → ServiceRecord → Exec (AuthState p) ServiceRecord
  check_signature challenge signature svc =
      if not (signed svc.public_key challenge signature) then fail invalid_signature else pure svc

  unfoldable pub check_challenge :
      Bytes → Bytes → PendingChallenge → ℕ → Exec (AuthState p) ServiceRecord
  check_challenge challenge signature pc time =
      let rest : Exec (AuthState p) ServiceRecord = do
        svc ← on_world (get_service pc.service)
        check_signature challenge signature svc
      in if ltb pc.expires_at time
        then fail challenge_expired
        else if not (pc.challenge == challenge)
        then fail challenge_mismatch
        else rest

  unfoldable pub verify_pending :
      Bytes → Bytes → Option PendingChallenge → Exec (AuthState p) ServiceRecord
  verify_pending challenge signature none = fail challenge_not_found
  verify_pending challenge signature (some pc) = do
    change_challenges (without (hex challenge))
    time ← on_world (now p)
    check_challenge challenge signature pc time

  unfoldable pub verify : Bytes → Bytes → Exec (AuthState p) ServiceRecord
  verify challenge signature = do
    found ← pending (hex challenge)
    verify_pending challenge signature found
