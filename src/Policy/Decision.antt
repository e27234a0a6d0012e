-- ===== src/Policy/Decision.antt =====
-- What `Allowed` decides: its loop against the meaning of a list of rules.
use lockr.Base.{
  Bool, true, false, not, ◌&&◌, ◌||◌, Bool-cases, List, [], ◌∷◌, some, Option-cases, ◌≡◌, refl, sym,
  ◌∙◌, ◌↔◌, ◌⊎◌, inl, inr, Mem, All, Bytes, codes, ◌==◌, ==_sound, ==_complete, arith,
}
use mathlib.Core.Bool.{Bool-set}
use mathlib.Core.Logic.{∥∥₁_elim}
use mathlib.Core.List.{Perm, Permᴰ}
use lockr.Policy.{
  Capability, Rule, Policy, Engine, match_path, has_capability, check_rules, find_policy,
  check_policy, allowed,
}
use lockr.Policy.Match.{Matches, match_path_iff, has_capability_iff}

-- The rules grant the capability on the path: no matching rule denies, and some matching rule lists it.
pub record Grants (path : Bytes) (cap : Capability) (rules : List Rule) : Type 0 where
  pub undenied : All (λ r. Matches r.path path → r.deny ≡ false) rules
  pub granted : (r : Rule) × Mem r rules × Matches r.path path × Mem cap r.capabilities

module _ (path : Bytes) (cap : Capability) where
  any_deny : List Rule → Bool
  any_deny [] = false
  any_deny (r ∷ rs) = (match_path r.path path && r.deny) || any_deny rs

  any_grant : List Rule → Bool
  any_grant [] = false
  any_grant (r ∷ rs) = (match_path r.path path && has_capability r.capabilities cap) || any_grant rs

  -- The loop that stops at the first deny, in terms of two separate searches.
  check_rules_lem :
      (a : Bool) (rs : List Rule)
      → check_rules path cap a rs ≡ (not (any_deny rs) && (a || any_grant rs))
  unfolding check_rules any_deny any_grant
  check_rules_lem a [] = ground arith
  check_rules_lem a (r ∷ rs) = ground (arith, check_rules_lem a rs, check_rules_lem true rs)

  any_deny_sound :
      (rs : List Rule) → any_deny rs ≡ false → All (λ r. Matches r.path path → r.deny ≡ false) rs
  unfolding any_deny
  any_deny_sound [] h = tt
  any_deny_sound (r ∷ rs) h = (
    λ m. let e = (match_path_iff r.path path).1 m in ground arith,
    any_deny_sound rs (ground arith),
  )

  any_deny_complete :
      (rs : List Rule) → All (λ r. Matches r.path path → r.deny ≡ false) rs → any_deny rs ≡ false
  unfolding any_deny
  any_deny_complete [] h = refl
  any_deny_complete (r ∷ rs) (h, hs) = elim (Bool-cases (match_path r.path path)) [
    | inl m ↦ ground (arith, h ((match_path_iff r.path path).0 m), any_deny_complete rs hs)
    | inr n ↦ ground (arith, any_deny_complete rs hs)
  ]

  any_grant_sound :
      (rs : List Rule)
      → any_grant rs ≡ true
      → (r : Rule) × Mem r rs × Matches r.path path × Mem cap r.capabilities
  unfolding any_grant
  any_grant_sound [] h = cc
  any_grant_sound (r ∷ rs) h =
      elim (Bool-cases (match_path r.path path && has_capability r.capabilities cap)) [
        | inl e ↦ (
          r,
          inl refl,
          (match_path_iff r.path path).0 (ground arith),
          (has_capability_iff r.capabilities cap).0 (ground arith),
        )
        | inr n ↦ let (q, m, p, c) = any_grant_sound rs (ground arith) in (q, inr m, p, c)
      ]

  any_grant_complete :
      (rs : List Rule) (r : Rule)
      → Mem r rs
      → Matches r.path path
      → Mem cap r.capabilities
      → any_grant rs ≡ true
  unfolding any_grant
  any_grant_complete [] r m p c = elim m [ ]
  any_grant_complete (q ∷ rs) r (inl e) p c =
      let here = (match_path_iff r.path path).1 p in
      let listed = (has_capability_iff r.capabilities cap).1 c in rw (← e) (rw (here, listed))
  any_grant_complete (q ∷ rs) r (inr m) p c = ground (arith, any_grant_complete rs r m p c)

  pub check_rules_sound :
      (rs : List Rule) → check_rules path cap false rs ≡ true → Grants path cap rs
  check_rules_sound rs h =
      let e : (not (any_deny rs) && (false || any_grant rs)) ≡ true =
        sym (check_rules_lem false rs) ∙ h in
      record {
        undenied = any_deny_sound rs (ground arith);
        granted = any_grant_sound rs (ground arith);
      }

  pub check_rules_complete :
      (rs : List Rule) → Grants path cap rs → check_rules path cap false rs ≡ true
  check_rules_complete rs g =
      let (r, m, p, c) = g.granted in
      rw (check_rules_lem false rs)
        (rw (any_deny_complete rs g.undenied) (rw (any_grant_complete rs r m p c)))

  any_deny_perm : {rs qs : List Rule} → Permᴰ rs qs → any_deny rs ≡ any_deny qs
  unfolding any_deny
  any_deny_perm Permᴰ.nil = refl
  any_deny_perm (Permᴰ.cons e p) = rw (e, any_deny_perm p)
  any_deny_perm (Permᴰ.swap e f) = rw (e, f) (ground arith)
  any_deny_perm (Permᴰ.trans p q) = any_deny_perm p ∙ any_deny_perm q

  any_grant_perm : {rs qs : List Rule} → Permᴰ rs qs → any_grant rs ≡ any_grant qs
  unfolding any_grant
  any_grant_perm Permᴰ.nil = refl
  any_grant_perm (Permᴰ.cons e p) = rw (e, any_grant_perm p)
  any_grant_perm (Permᴰ.swap e f) = rw (e, f) (ground arith)
  any_grant_perm (Permᴰ.trans p q) = any_grant_perm p ∙ any_grant_perm q

-- "root" is allowed everything; another name is allowed what its policy grants.
abbrev pub MayAccess : Engine → Bytes → Bytes → Capability → Type 0
MayAccess e name path cap =
    (name ≡ codes "root") ⊎ ((p : Policy) × (find_policy e name ≡ some p) × Grants path cap p.rules)

allowed_sound :
    (e : Engine) (name path : Bytes) (cap : Capability)
    → allowed e name path cap ≡ true
    → MayAccess e name path cap
unfolding allowed check_policy
allowed_sound e name path cap h = elim (Bool-cases (name == codes "root")) [
  | inl root ↦ inl (==_sound name (codes "root") root)
  | inr other ↦ elim (Option-cases (find_policy e name)) [
    | inl missing ↦ cc (rw (other, missing, check_policy) at h)
    | inr (p, found) ↦
        inr (p, found, check_rules_sound path cap p.rules (rw (other, found, check_policy) at h))
  ]
]

allowed_complete :
    (e : Engine) (name path : Bytes) (cap : Capability)
    → MayAccess e name path cap
    → allowed e name path cap ≡ true
unfolding allowed check_policy
allowed_complete e name path cap (inl root) = rw (==_complete name (codes "root") root)
allowed_complete e name path cap (inr (p, found, g)) =
    let granted = check_rules_complete path cap p.rules g in rw (found, check_policy) (ground arith)

-- Allowed answers true exactly if the policy name is "root", or the policy of that name exists (a
-- loaded one before a built-in one) and its rules grant the capability on the path: some matching
-- rule lists the capability and no matching rule denies.
pub allowed_iff :
    (e : Engine) (name path : Bytes) (cap : Capability)
    → (allowed e name path cap ≡ true) ↔ MayAccess e name path cap
allowed_iff e name path cap = (allowed_sound e name path cap, allowed_complete e name path cap)

-- The order of the rules of a policy does not matter to the decision.
pub check_rules-perm :
    (path : Bytes) (cap : Capability) (a : Bool) {rs qs : List Rule}
    → Perm rs qs
    → check_rules path cap a rs ≡ check_rules path cap a qs
check_rules-perm path cap a {rs} {qs} p = ∥∥₁_elim p (Bool-set _ _) λ d.
    rw (check_rules_lem path cap a rs) (
      rw (check_rules_lem path cap a qs)
        (rw (any_deny_perm path cap d) (rw (any_grant_perm path cap d))))
