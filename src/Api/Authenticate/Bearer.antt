-- ===== src/Api/Authenticate/Bearer.antt =====
-- Requests that carry the token of a session.
use lockr.Base.{
  ℕ, suc, ◌+◌, ◌/◌, ◌≡◌, refl, not, ◌&&◌, [], ◌∷◌, Bytes, codes, ◌==◌, ltb, has_prefix, Bool-cases,
  true, false, inl, inr, if◌then◌else◌, arith,
}
use lockr.Result.{ok}
use lockr.Platform.{Platform}
use lockr.Platform.Laws.{second, StoreLaws}
use lockr.Storage.Sealed.{at}
use lockr.Auth.Session.{SessionStore, session_token_prefix, validate}
use lockr.Auth.Session.Lifetime.{IsSession}
use lockr.Auth.Admin.{AdminAuth}
use lockr.Api.Authenticate.{
  Call, Caller, Access, granted, unauthorized, extract_token, session_access, token_access,
  authenticate,
}

prefix_filled :
    (token : Bytes) → has_prefix token session_token_prefix ≡ true → (token == []) ≡ false
unfolding has_prefix ◌==◌
prefix_filled [] h = cc
prefix_filled (c ∷ s) h = refl

-- The access of the bearer of a session that is stored until the second `end` and expires at `expiry`.
pub bearer_access : (p : Platform) → Caller → ℕ → ℕ → ℕ → Access
bearer_access p who end expiry t =
    if ltb (p.clock t / second) end && not (ltb expiry (p.clock (suc t)))
    then granted who
    else unauthorized (codes "invalid or expired session")

module _ (p : Platform) (ss : SessionStore) (store : StoreLaws p) where
  -- The tokens of sessions have their prefix.
  token_prefixed :
      (from until : ℕ) (s : p.Store) (token identity method policy : Bytes)
      → IsSession p ss store from until s token identity method policy
      → has_prefix token session_token_prefix ≡ true
  unfolding validate
  token_prefixed from until s token identity method policy i =
      elim (Bool-cases (has_prefix token session_token_prefix)) [
        | inl y ↦ y
        | inr n ↦ let answer = i.answers 0 in ground arith
      ]

  pub authenticate-IsSession :
      (admins : AdminAuth) (from until : ℕ) (s : p.Store) (token identity method policy : Bytes)
      (call : Call) (t : ℕ)
      → (i : IsSession p ss store from until s token identity method policy)
      → extract_token call ≡ token
      → (authenticate p ss admins false call (at p s t)).0
        ≡ ok (
            bearer_access p
              (record { identity = identity; auth_method = method; policy = policy })
              ((p.clock i.written + ss.ttl) / second)
              i.meta.expires_at
              t)
  unfolding authenticate token_access session_access bearer_access
  authenticate-IsSession admins from until s token identity method policy call t i named =
      let pre = token_prefixed from until s token identity method policy i in
      let answer = i.answers t in
      let filled = prefix_filled token pre in
      rw named
        (rw filled (rw pre (rw answer (rw (← i.known, ← i.method, ← i.granted) (ground arith)))))
