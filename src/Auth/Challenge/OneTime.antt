-- ===== src/Auth/Challenge/OneTime.antt =====
-- A challenge is accepted once, in time, with a signature of the service that asked for it.
use lockr.Base.{
  ℕ, suc, ◌≤◌, ◌≡◌, true, none, some, Option-cases, Bytes, ◌==◌, ==_refl, ==_sound, inl, inr,
  if◌then◌else◌, arith,
}
use lockr.Base.Assoc.{lookup, without, lookup-without}
use lockr.Result.{ok, err, challenge_not_found}
use lockr.Platform.{Platform, now}
use lockr.Auth.Challenge.{
  ServiceRecord, PendingChallenge, Ed25519, AuthState, get_service, check_signature,
  check_challenge, verify_pending, verify,
}

module _ (p : Platform) (a : Ed25519) where
  open a use {hex, signed}

  challenges-check_challenge :
      (challenge signature : Bytes) (pc : PendingChallenge) (time : ℕ) (s : AuthState p)
      → (check_challenge p a challenge signature pc time s).1.challenges ≡ s.challenges
  unfolding check_challenge check_signature
  challenges-check_challenge challenge signature pc time s = ground arith

  -- Verify takes the challenge out of the map, whatever it answers, and no other one.
  pub lookup-verify :
      (challenge signature key : Bytes) (s : AuthState p)
      → lookup key (verify p a challenge signature s).1.challenges
        ≡ (if hex challenge == key then none else lookup key s.challenges)
  unfolding verify verify_pending now
  lookup-verify challenge signature key s =
      elim (Option-cases (lookup (hex challenge) s.challenges)) [
        | inl e ↦ rw e (ground (arith, ==_sound (hex challenge) key))
        | inr (pc, e) ↦ ground (
          arith,
          lookup-without (hex challenge) key s.challenges,
          challenges-check_challenge challenge signature pc (p.clock s.world.tick) (record {
            world = record s.world { tick = suc s.world.tick };
            challenges = without (hex challenge) s.challenges;
          }),
        )
      ]

  -- A second Verify of the same challenge is refused, whatever the first one answered and whatever
  -- the two signatures are.
  pub verify_again :
      (challenge signature signature' : Bytes) (s : AuthState p)
      → (verify p a challenge signature' (verify p a challenge signature s).1).0
        ≡ err challenge_not_found
  unfolding verify verify_pending
  verify_again challenge signature signature' s =
      let gone = lookup-verify challenge signature (hex challenge) s in
      let used = (verify p a challenge signature s).1 in ground (arith, ==_refl (hex challenge))

  -- When Verify accepts, the challenge was pending and not expired, and the signature is one of the
  -- stored key of the service that it was issued to.
  pub verify_sound :
      (challenge signature : Bytes) (s s' : AuthState p) (svc : ServiceRecord)
      → verify p a challenge signature s ≡ (ok svc, s')
      → (pc : PendingChallenge) × (lookup (hex challenge) s.challenges ≡ some pc)
        × (pc.challenge ≡ challenge)
        × (p.clock s.world.tick ≤ pc.expires_at)
        × (signed svc.public_key challenge signature ≡ true)
        × ((get_service p a pc.service (record s.world { tick = suc s.world.tick })).0 ≡ ok svc)
  unfolding verify verify_pending check_challenge check_signature now
  verify_sound challenge signature s s' svc h =
      elim (Option-cases (lookup (hex challenge) s.challenges)) [
        | inl e ↦ ground arith
        | inr (pc, e) ↦ (
          pc,
          e,
          ==_sound pc.challenge challenge (ground arith),
          ground arith,
          ground arith,
          ground arith,
        )
      ]
