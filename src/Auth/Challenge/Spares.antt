-- ===== src/Auth/Challenge/Spares.antt =====
-- The services and their challenges leave the records outside auth/services/ alone.
use lockr.Base.{ℕ, ◌≡◌, false, Bytes, has_prefix, Option, none, some}
use lockr.Base.Assoc.{Assoc}
use lockr.Keys.{service_path}
use lockr.Result.{Exec}
use lockr.Result.Follows.{IsPreorder, Follows, Over, Over-IsPreorder, follows_rules}
use lockr.Platform.{Platform, World}
use lockr.Platform.Laws.{StoreLaws}
use lockr.Storage.Frame.{Frame, Spares, Frame-IsPreorder, frame_rules}
use lockr.Auth.Challenge.{
  ServiceRecord, PendingChallenge, Ed25519, AuthState, on_world, change_challenges, pending,
  register_service, get_service, delete_service, generate_challenge, prune_challenges,
  check_signature, check_challenge, verify_pending, verify,
}

module _ (p : Platform) (area : Bytes) where
  -- A method on the challenges that spares the records under the prefix.
  abbrev pub Keeps : {X : Type 0} → (AuthState p → X × AuthState p) → Type 0
  Keeps m = Follows (Over (λ (s : AuthState p). s.world) (Frame p area)) m

  pub auth_order : IsPreorder (Over (λ (s : AuthState p). s.world) (Frame p area))
  auth_order = Over-IsPreorder (λ s. s.world) (Frame-IsPreorder p area)

  Keeps-on_world : {A : Type 0} (m : Exec (World p) A) → Spares p area m → Keeps (on_world m)
  Keeps-on_world m h = record { at = λ s. h.at s.world }

  Keeps-change_challenges :
      (f : Assoc PendingChallenge → Assoc PendingChallenge) → Keeps (change_challenges {p = p} f)
  Keeps-change_challenges f = record { at = λ s. (Frame-IsPreorder p area).here s.world }

  Keeps-pending : (key : Bytes) → Keeps (pending {p = p} key)
  Keeps-pending key = record { at = λ s. (Frame-IsPreorder p area).here s.world }

  module _ (a : Ed25519) where
    get_service-Spares : (name : Bytes) → Spares p area (get_service p a name)
    unfolding get_service
    get_service-Spares name = search frame_rules depth 9

    pub generate_challenge-Keeps : (service : Bytes) → Keeps (generate_challenge p a service)
    unfolding generate_challenge
    generate_challenge-Keeps service =
        search
          (
            follows_rules, auth_order, Keeps-on_world, Keeps-change_challenges, get_service-Spares,
            frame_rules,
          )
          depth 12

    pub prune_challenges-Keeps : Keeps (prune_challenges p a)
    unfolding prune_challenges
    prune_challenges-Keeps =
        search (follows_rules, auth_order, Keeps-on_world, Keeps-change_challenges, frame_rules)
          depth 9

    check_signature-Keeps :
        (challenge signature : Bytes) (svc : ServiceRecord)
        → Keeps (check_signature p a challenge signature svc)
    unfolding check_signature
    check_signature-Keeps challenge signature svc = search (follows_rules, auth_order)

    check_challenge-Keeps :
        (challenge signature : Bytes) (pc : PendingChallenge) (time : ℕ)
        → Keeps (check_challenge p a challenge signature pc time)
    unfolding check_challenge
    check_challenge-Keeps challenge signature pc time =
        search
          (follows_rules, auth_order, Keeps-on_world, check_signature-Keeps, get_service-Spares)
          depth 9

    verify_pending-Keeps :
        (challenge signature : Bytes) (found : Option PendingChallenge)
        → Keeps (verify_pending p a challenge signature found)
    unfolding verify_pending
    verify_pending-Keeps challenge signature none = search (follows_rules, auth_order)
    verify_pending-Keeps challenge signature (some pc) =
        search
          (
            follows_rules, auth_order, Keeps-on_world, Keeps-change_challenges,
            check_challenge-Keeps, frame_rules,
          )
          depth 9

    pub verify-Keeps : (challenge signature : Bytes) → Keeps (verify p a challenge signature)
    unfolding verify
    verify-Keeps challenge signature =
        search (follows_rules, auth_order, Keeps-pending, verify_pending-Keeps) depth 9

    module _ (store : StoreLaws p)
        (out : (name : Bytes) → has_prefix (service_path name) area ≡ false) where
      pub register_service-Spares : (rec : ServiceRecord) → Spares p area (register_service p a rec)
      unfolding register_service
      register_service-Spares rec = search (frame_rules, out, store) depth 9

      pub delete_service-Spares : (name : Bytes) → Spares p area (delete_service p a name)
      unfolding delete_service
      delete_service-Spares name = search (frame_rules, out, store) depth 9
