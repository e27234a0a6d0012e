-- ===== src/Policy/Match.antt =====
-- Path patterns: the meaning of `matchPath` and `hasCapability`.
use lockr.Base.{
  true, false, Bool-cases, List, [], ◌∷◌, ◌++◌, ◌≡◌, refl, sym, ap, ◌↔◌, inl, inr, Mem, Bytes,
  codes, ◌||◌, has_prefix, ◌==◌, ==_sound, ==_complete, ==_refl, has_prefix_iff, has_suffix,
  has_suffix_iff, has_suffix-append, trim_suffix-append, arith,
}
use mathlib.Core.Bool.{or-true}
use lockr.Policy.{Capability, match_path, has_capability}

-- What a pattern means: itself, or with a trailing "/*" the prefix and every path beneath it.
pub data Matches : Bytes → Bytes → Type 0 where
  exact :
      {pattern path : Bytes}
      → has_suffix pattern (codes "/*") ≡ false
      → pattern ≡ path
      → Matches pattern path
  top : {pattern path : Bytes} → pattern ≡ path ++ codes "/*" → Matches pattern path
  below :
      {pattern path : Bytes} (prefix rest : Bytes)
      → pattern ≡ prefix ++ codes "/*"
      → path ≡ prefix ++ codes "/" ++ rest
      → Matches pattern path

match-wildcard :
    (prefix path : Bytes)
    → match_path (prefix ++ codes "/*") path
      ≡ (has_prefix path (prefix ++ codes "/") || path == prefix)
unfolding match_path
match-wildcard prefix path =
    rw (has_suffix-append prefix (codes "/*")) (rw (trim_suffix-append prefix (codes "/*")))

match-exact :
    (pattern path : Bytes)
    → has_suffix pattern (codes "/*") ≡ false
    → match_path pattern path ≡ (pattern == path)
unfolding match_path
match-exact pattern path h = rw h

wildcard_sound :
    (prefix path : Bytes)
    → (has_prefix path (prefix ++ codes "/") || path == prefix) ≡ true
    → Matches (prefix ++ codes "/*") path
wildcard_sound prefix path h = elim (Bool-cases (path == prefix)) [
  | inl e ↦ top (ap (λ p. p ++ codes "/*") (sym (==_sound path prefix e)))
  | inr n ↦
      let (rest, e) = (has_prefix_iff path (prefix ++ codes "/")).0 (ground arith) in
      below prefix rest refl e
]

match_path_sound : (pattern path : Bytes) → match_path pattern path ≡ true → Matches pattern path
match_path_sound pattern path h = elim (Bool-cases (has_suffix pattern (codes "/*"))) [
  | inl w ↦
      let (prefix, e) = (has_suffix_iff pattern (codes "/*")).0 w in
      rw e (wildcard_sound prefix path (rw (e, match-wildcard prefix path) at h))
  | inr n ↦ exact n (==_sound pattern path (rw (match-exact pattern path n) at h))
]

match_path_complete : {pattern path : Bytes} → Matches pattern path → match_path pattern path ≡ true
match_path_complete (exact {pattern} {path} n e) =
    rw (match-exact pattern path n) (==_complete pattern path e)
match_path_complete (top {path} e) =
    rw e (rw (match-wildcard path path) (rw (==_refl path) (or-true _)))
match_path_complete (below {path} prefix rest e q) =
    rw e (rw (match-wildcard prefix path) (rw ((has_prefix_iff path _).1 (rest, q))))

-- matchPath accepts a path exactly if the pattern is the path, or ends in "/*" and the path is what
-- stands before that, or begins with it and a "/".
pub match_path_iff :
    (pattern path : Bytes) → (match_path pattern path ≡ true) ↔ Matches pattern path
match_path_iff pattern path = (match_path_sound pattern path, match_path_complete)

has_capability_sound :
    (caps : List Capability) (target : Capability)
    → has_capability caps target ≡ true
    → Mem target caps
unfolding has_capability
has_capability_sound [] target h = cc
has_capability_sound (c ∷ caps) target h = elim (Bool-cases (c == target)) [
  | inl e ↦ inl (sym (==_sound c target e))
  | inr n ↦ inr (has_capability_sound caps target (ground arith))
]

has_capability_complete :
    (caps : List Capability) (target : Capability)
    → Mem target caps
    → has_capability caps target ≡ true
unfolding has_capability
has_capability_complete [] target m = elim m [ ]
has_capability_complete (c ∷ caps) target (inl e) = rw (==_complete c target (sym e))
has_capability_complete (c ∷ caps) target (inr m) =
    ground (arith, has_capability_complete caps target m)

-- `hasCapability` is membership.
pub has_capability_iff :
    (caps : List Capability) (target : Capability)
    → (has_capability caps target ≡ true) ↔ Mem target caps
has_capability_iff caps target =
    (has_capability_sound caps target, has_capability_complete caps target)
