-- ===== src/Base/Segments.antt =====
-- Paths with a last segment: `parent ++ "/" ++ segment` determines both, if the segment has no "/".
use lockr.Base.Text.{Bytes, cut}
use lockr.Base.Tests.{eqb, Bool-cases}
use mathlib.Core.Option.{none, some}
use native.Mathlib.Omega.{arith}
use lockr.Base.Decimal.{NoByte}
use Prim.Native.Nat.{ℕ}
use mathlib.Core.Path.{◌≡◌, refl, ap}
use mathlib.Core.Logic.{◌≢◌, ◌⊎◌, inl, inr}
use mathlib.Core.List.{[], ◌∷◌, ◌++◌}

NoByte-append_ne : (c : ℕ) (s t u : Bytes) → NoByte c u → u ≢ s ++ c ∷ t
NoByte-append_ne c [] t [] h e = cc
NoByte-append_ne c [] t (b ∷ u) h e = h.0 (cc)
NoByte-append_ne c (a ∷ s) t [] h e = cc
NoByte-append_ne c (a ∷ s) t (b ∷ u) h e = NoByte-append_ne c s t u h.1 (cc)

pub last_segment_inj :
    (c : ℕ) (s s' t t' : Bytes)
    → NoByte c t
    → NoByte c t'
    → s ++ c ∷ t ≡ s' ++ c ∷ t'
    → (s ≡ s') × (t ≡ t')
last_segment_inj c [] [] t t' h k e = (refl, cc)
last_segment_inj c [] (b ∷ s') t t' h k e = absurd (NoByte-append_ne c s' t' t h (cc))
last_segment_inj c (a ∷ s) [] t t' h k e = absurd (NoByte-append_ne c s t t' k (cc))
last_segment_inj c (a ∷ s) (b ∷ s') t t' h k e =
    let ih = last_segment_inj c s s' t t' h k (cc) in (cc (ih.0), ih.1)

-- A cut at the first separator after a text without one.
pub cut-append : (c : ℕ) (t r : Bytes) → NoByte c t → cut c (t ++ c ∷ r) ≡ (t, some r)
unfolding cut
cut-append c [] r h = ground arith
cut-append c (a ∷ t) r (n, h) = rw (cut-append c t r h) (ground arith)

-- The part before the cut has no separator.
pub NoByte-cut : (c : ℕ) (s : Bytes) → NoByte c (cut c s).0
unfolding cut
NoByte-cut c [] = tt
NoByte-cut c (a ∷ s) = elim (Bool-cases (eqb a c)) [
  | inl e ↦ rw e tt
  | inr n ↦ rw n ((λ q. ground arith), NoByte-cut c s)
]

-- A text without the separator is not cut.
pub cut_whole : (c : ℕ) (t : Bytes) → NoByte c t → cut c t ≡ (t, none)
unfolding cut
cut_whole c [] h = refl
cut_whole c (a ∷ t) (n, h) = rw (cut_whole c t h) (ground arith)

-- The two parts of a cut make up the text.
pub cut_cases :
    (c : ℕ) (s : Bytes)
    → (((cut c s).1 ≡ none) × (s ≡ (cut c s).0))
      ⊎ ((r : Bytes) × ((cut c s).1 ≡ some r) × (s ≡ (cut c s).0 ++ c ∷ r))
unfolding cut
cut_cases c [] = inl (refl, refl)
cut_cases c (a ∷ s) = elim (Bool-cases (eqb a c)) [
  | inl e ↦ inr (s, ground arith, ground arith)
  | inr n ↦ elim (cut_cases c s) [
    | inl (e, whole) ↦ inl (ground arith, rw n (ap (λ t. a ∷ t) whole))
    | inr (r, e, whole) ↦ inr (r, ground arith, rw n (ap (λ t. a ∷ t) whole))
  ]
]
