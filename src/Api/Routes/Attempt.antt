-- ===== src/Api/Routes/Attempt.antt =====
-- What the audit log says of a request: who came with it, what became of it, and where it came from.
use lockr.Base.{
  ℕ, true, suc, ◌≤◌, ◌<◌, ◌≡◌, ◌≢◌, refl, ◌⊎◌, inl, inr, Bool-cases, ◌++◌, [], some, Bytes, codes,
  eqb, leb, ◌==◌, ==_sound, ==_complete, has_prefix, has_prefix_iff, arith,
}
use lockr.Platform.{Platform}
use lockr.Platform.Laws.{StoreLaws}
use lockr.Audit.{Entry, Logger, LogState, stamped}
use lockr.Audit.Written.{Outcome, log-Outcome}
use lockr.Api.Authenticate.{Caller, Access, granted, unauthorized}
use lockr.Api.Operation.{semantic_operation, audit_status}
use lockr.Api.Site.{HttpRequest, Context, SiteState, entry_of, write_log, logged}
use lockr.Api.Routes.{nobody, audit_caller}

-- The kind of a token that was refused.
abbrev pub IsKind : Bytes → Bytes → Type 0
IsKind token kind =
    ((token ≡ []) × (kind ≡ codes "none"))
    ⊎ (((r : Bytes) × (token ≡ codes "lvt_" ++ r) × (kind ≡ codes "session"))
        ⊎ (((r : Bytes) × (token ≡ codes "lkat_" ++ r) × (kind ≡ codes "admin_token"))
            ⊎ ((token ≢ [])
                × (has_prefix token (codes "lvt_") ≢ true)
                × (has_prefix token (codes "lkat_") ≢ true)
                × (kind ≡ codes "unknown"))))

-- The entry names the caller that was let through, if it has an identity, or nobody.
abbrev pub Names : Bytes → Access → Caller → Type 0
Names token (granted who) named =
    ((who.identity ≢ []) × (named ≡ who))
    ⊎ ((who.identity ≡ [])
        × (named.identity ≡ codes "unauthenticated")
        × (named.auth_method ≡ codes "none")
        × (named.policy ≡ []))
Names token (unauthorized text) named =
    (named.identity ≡ codes "unauthenticated")
    × (named.policy ≡ [])
    × IsKind token named.auth_method

-- Denied for 401 and 403, an error for the other codes from 400 on, and else allowed.
abbrev pub IsOutcome : ℕ → Bytes → Type 0
IsOutcome code text =
    (((code ≡ 401) ⊎ (code ≡ 403)) × (text ≡ codes "denied"))
    ⊎ (((code ≢ 401) × (code ≢ 403) × (400 ≤ code) × (text ≡ codes "error"))
        ⊎ ((code < 400) × (text ≡ codes "allowed")))

audit_caller-Names :
    (token : Bytes) (access : Access) → Names token access (audit_caller token access)
unfolding audit_caller nobody
audit_caller-Names token (granted who) = elim (Bool-cases (who.identity == [])) [
  | inl y ↦ rw y (inr (==_sound who.identity [] y, refl, refl, refl))
  | inr n ↦ rw n (inl ((λ e. cc (n, ==_complete who.identity [] e)), refl))
]
audit_caller-Names token (unauthorized text) = (refl, refl, kind)
  where
    kind : IsKind token (audit_caller token (unauthorized text)).auth_method
    kind = elim (Bool-cases (token == [])) [
      | inl y ↦ rw y (inl (==_sound token [] y, refl))
      | inr n ↦ elim (Bool-cases (has_prefix token (codes "lvt_"))) [
        | inl y ↦
            let (r, e) = (has_prefix_iff token (codes "lvt_")).0 y in
            rw n (rw y (inr (inl (r, e, refl))))
        | inr m ↦ elim (Bool-cases (has_prefix token (codes "lkat_"))) [
          | inl y ↦
              let (r, e) = (has_prefix_iff token (codes "lkat_")).0 y in
              rw n (rw m (rw y (inr (inr (inl (r, e, refl))))))
          | inr k ↦ rw n (
              rw m (
                rw k (
                  inr (
                    inr (
                      inr (
                        (λ e. cc (n, ==_complete token [] e)),
                        (λ e. cc (e)),
                        (λ e. cc (e)),
                        refl,
                      ))))))
        ]
      ]
    ]

audit_status-IsOutcome : (code : ℕ) → IsOutcome code (audit_status code)
unfolding audit_status
audit_status-IsOutcome code = elim (Bool-cases (eqb code 403)) [
  | inl y ↦ inl (inr (ground arith), ground arith)
  | inr n ↦ elim (Bool-cases (eqb code 401)) [
    | inl y ↦ inl (inl (ground arith), ground arith)
    | inr m ↦ elim (Bool-cases (leb 400 code)) [
      | inl y ↦ inr (inl ((λ e. ground arith), (λ e. ground arith), ground arith, ground arith))
      | inr k ↦ inr (inr (ground arith, ground arith))
    ]
  ]
]

-- The entry of a request that the authentication decided on and that was answered with the code.
pub record IsAttempt (h : HttpRequest) (ctx : Context) (token : Bytes) (access : Access) (code : ℕ)
    (e : Entry) : Type 0 where
  pub who : Caller
  pub named : Names token access who
  pub identity : e.identity ≡ who.identity
  pub auth_method : e.auth_method ≡ who.auth_method
  pub policy : e.policy ≡ who.policy
  pub outcome : IsOutcome code e.status
  pub operation : e.operation ≡ semantic_operation h.method h.url_path
  pub path : e.path ≡ h.url_path
  pub source_ip : e.source_ip ≡ h.remote_addr
  pub request_id : e.request_id ≡ ctx.request_id

module _ (p : Platform) (store : StoreLaws p) (l : Logger) (h : HttpRequest) (ctx : Context)
    (token : Bytes) (access : Access) (code : ℕ) where
  -- Writing to the log writes such an entry.
  pub logged-IsAttempt :
      (s s' : SiteState p)
      → s' ≡ logged p (some l) h ctx (audit_caller token access) (audit_status code) s
      → (entry : Entry) × (time t : ℕ) × (s.auth.world.tick ≤ t)
        × (time ≡ p.clock t)
        × (entry.timestamp ≡ some time)
        × IsAttempt h ctx token access code entry
        × Outcome p l entry time s.lines (record { world = s'.auth.world; lines = s'.lines })
  unfolding logged write_log entry_of stamped
  logged-IsAttempt s s' e =
      let t = s.auth.world.tick in
      let who = audit_caller token access in
      let entry = entry_of h ctx who (audit_status code) (p.clock t) (p.clock (suc t)) in
      let begun : LogState p = record {
        world = record s.auth.world { tick = suc (suc t) };
        lines = s.lines;
      } in
      rw e (
        stamped p l entry (p.clock t) (suc (suc t)),
        p.clock t,
        t,
        omega arith,
        refl,
        refl,
        record {
          who = who;
          named = audit_caller-Names token access;
          identity = refl;
          auth_method = refl;
          policy = refl;
          outcome = audit_status-IsOutcome code;
          operation = refl;
          path = refl;
          source_ip = refl;
          request_id = refl;
        },
        log-Outcome p store l entry (p.clock t) begun refl,
      )
