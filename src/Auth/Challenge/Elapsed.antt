-- ===== src/Auth/Challenge/Elapsed.antt =====
-- Checking a signed challenge does not go back in the count of outside calls.
use lockr.Base.{ℕ, Bytes, Option, none, some}
use lockr.Base.Assoc.{Assoc}
use lockr.Result.{Exec}
use lockr.Result.Follows.{IsPreorder, Follows, Over, Over-IsPreorder, follows_rules}
use lockr.Platform.{Platform, World}
use lockr.Storage.Elapsed.{Later, Later-IsPreorder, elapsed_rules}
use lockr.Auth.Challenge.{
  PendingChallenge, Ed25519, AuthState, on_world, change_challenges, pending, get_service,
  check_signature, check_challenge, verify_pending, verify,
}

module _ (p : Platform) where
  abbrev LaterAuth : AuthState p → AuthState p → Type 0
  LaterAuth = Over (λ (s : AuthState p). s.world) (Later p)

  auth_order : IsPreorder LaterAuth
  auth_order = Over-IsPreorder (λ s. s.world) (Later-IsPreorder p)

  Later-on_world :
      {A : Type 0} (m : Exec (World p) A) → Follows (Later p) m → Follows LaterAuth (on_world m)
  Later-on_world m h = record { at = λ s. h.at s.world }

  Later-change_challenges :
      (f : Assoc PendingChallenge → Assoc PendingChallenge)
      → Follows LaterAuth (change_challenges {p = p} f)
  Later-change_challenges f = record { at = auth_order.here }

  Later-pending : (key : Bytes) → Follows LaterAuth (pending {p = p} key)
  Later-pending key = record { at = auth_order.here }

  module _ (a : Ed25519) where
    Later-get_service : (name : Bytes) → Follows (Later p) (get_service p a name)
    unfolding get_service
    Later-get_service name = search elapsed_rules

    Later-check_challenge :
        (challenge signature : Bytes) (pc : PendingChallenge) (time : ℕ)
        → Follows LaterAuth (check_challenge p a challenge signature pc time)
    unfolding check_challenge check_signature
    Later-check_challenge challenge signature pc time =
        search (follows_rules, auth_order, Later-on_world, Later-get_service) depth 9

    Later-verify_pending :
        (challenge signature : Bytes) (found : Option PendingChallenge)
        → Follows LaterAuth (verify_pending p a challenge signature found)
    unfolding verify_pending
    Later-verify_pending challenge signature none = search (follows_rules, auth_order)
    Later-verify_pending challenge signature (some pc) =
        search
          (
            follows_rules, auth_order, Later-on_world, Later-change_challenges,
            Later-check_challenge, elapsed_rules,
          )
          depth 9

    pub Later-verify :
        (challenge signature : Bytes) → Follows LaterAuth (verify p a challenge signature)
    unfolding verify
    Later-verify challenge signature =
        search (follows_rules, auth_order, Later-pending, Later-verify_pending) depth 9
