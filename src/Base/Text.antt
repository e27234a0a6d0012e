-- ===== src/Base/Text.antt =====
-- Go's strings and byte slices: sequences of bytes, with the functions of package `strings` that
-- the program calls.
use Prim.Native.Char.{code}
use Prim.Native.Nat.{ℕ, ◌-◌}
use Prim.Native.String.{String}
use mathlib.Core.Path.{◌≡◌, refl, sym}
use mathlib.Core.Logic.{◌↔◌}
use mathlib.Core.Bool.{Bool, true, false, ◌&&◌}
use mathlib.Core.Option.{Option, none, some}
use mathlib.Core.List.{List, [], ◌∷◌, ◌++◌}
use native.Mathlib.Omega.{arith}
use lockr.Base.Tests.{leb, eqb, if◌then◌else◌}
use lockr.Base.Lists.{
  length, take, drop, length-append, take-append-drop, take-length-append, drop-length-append,
}

abbrev pub Bytes : Type 0
Bytes = List ℕ

-- A text literal. All literals of the program are ASCII.
abbrev pub codes : String → Bytes
codes String.[] = []
codes (String.◌∷◌ c s) = code c ∷ codes s

infix 50 ◌==◌
unfoldable pub ◌==◌ : Bytes → Bytes → Bool
[] == [] = true
[] == (b ∷ t) = false
(a ∷ s) == [] = false
(a ∷ s) == (b ∷ t) = eqb a b && s == t

pub ==_sound : (s t : Bytes) → (s == t) ≡ true → s ≡ t
unfolding ◌==◌
==_sound [] [] h = refl
==_sound [] (b ∷ t) h = ground arith
==_sound (a ∷ s) [] h = ground arith
==_sound (a ∷ s) (b ∷ t) h = ground (arith, ==_sound s t)

pub ==_refl : (s : Bytes) → (s == s) ≡ true
unfolding ◌==◌
==_refl [] = refl
==_refl (a ∷ s) = ground (arith, ==_refl s)

pub ==_complete : (s t : Bytes) → s ≡ t → (s == t) ≡ true
==_complete s t e = rw (← e) (==_refl s)

pub ==_iff : (s t : Bytes) → ((s == t) ≡ true) ↔ (s ≡ t)
==_iff s t = (==_sound s t, ==_complete s t)

-- strings.HasPrefix(s, prefix)
unfoldable pub has_prefix : Bytes → Bytes → Bool
has_prefix s [] = true
has_prefix [] (c ∷ p) = false
has_prefix (a ∷ s) (c ∷ p) = eqb a c && has_prefix s p

-- strings.HasSuffix(s, suffix): the lengths are compared first.
unfoldable pub has_suffix : Bytes → Bytes → Bool
has_suffix s t = leb (length t) (length s) && drop (length s - length t) s == t

-- strings.TrimPrefix(s, prefix)
unfoldable pub trim_prefix : Bytes → Bytes → Bytes
trim_prefix s p = if has_prefix s p then drop (length p) s else s

-- strings.TrimSuffix(s, suffix)
unfoldable pub trim_suffix : Bytes → Bytes → Bytes
trim_suffix s t = if has_suffix s t then take (length s - length t) s else s

-- strings.Cut(s, c) for a one-byte separator: the part before the first `c`, and the rest if there
-- is a `c`. SplitN with a limit is a repeated cut.
unfoldable pub cut : ℕ → Bytes → Bytes × Option Bytes
cut c [] = ([], none)
cut c (a ∷ s) =
    let (before, after) = cut c s in if eqb a c then ([], some s) else (a ∷ before, after)

pub has_prefix-append : (p r : Bytes) → has_prefix (p ++ r) p ≡ true
unfolding has_prefix
has_prefix-append [] [] = refl
has_prefix-append [] (a ∷ r) = refl
has_prefix-append (c ∷ p) r = ground (arith, has_prefix-append p r)

pub has_prefix_sound : (s p : Bytes) → has_prefix s p ≡ true → p ++ drop (length p) s ≡ s
unfolding has_prefix
has_prefix_sound s [] h = refl
has_prefix_sound [] (c ∷ p) h = ground arith
has_prefix_sound (a ∷ s) (c ∷ p) h = ground (arith, has_prefix_sound s p)

-- HasPrefix holds exactly of an extension of the prefix.
pub has_prefix_iff : (s p : Bytes) → (has_prefix s p ≡ true) ↔ ((r : Bytes) × (s ≡ p ++ r))
has_prefix_iff s p =
    (λ h. (drop (length p) s, sym (has_prefix_sound s p h)), λ e. rw e.1 (has_prefix-append p e.0))

pub trim_prefix-append : (p r : Bytes) → trim_prefix (p ++ r) p ≡ r
unfolding trim_prefix
trim_prefix-append p r = rw has_prefix-append (drop-length-append p r)

drop-suffix : (r t : Bytes) → drop (length (r ++ t) - length t) (r ++ t) ≡ t
drop-suffix r t =
    let e : length (r ++ t) - length t ≡ length r = omega (arith, length-append {0} r t) in
    rw e (drop-length-append r t)

pub has_suffix-append : (r t : Bytes) → has_suffix (r ++ t) t ≡ true
unfolding has_suffix
has_suffix-append r t = rw drop-suffix (rw ==_refl (ground (arith, length-append {0} r t)))

pub has_suffix_sound : (s t : Bytes) → has_suffix s t ≡ true → take (length s - length t) s ++ t ≡ s
unfolding has_suffix
has_suffix_sound s t h =
    let n = length s - length t in
    let same : drop n s ≡ t = ==_sound (drop n s) t (ground arith) in
    rw same at (take-append-drop n s)

-- HasSuffix holds exactly of a text that ends in the suffix.
pub has_suffix_iff : (s t : Bytes) → (has_suffix s t ≡ true) ↔ ((r : Bytes) × (s ≡ r ++ t))
has_suffix_iff s t = (
  λ h. (take (length s - length t) s, sym (has_suffix_sound s t h)),
  λ e. rw e.1 (has_suffix-append e.0 t),
)

pub trim_suffix-append : (r t : Bytes) → trim_suffix (r ++ t) t ≡ r
unfolding trim_suffix
trim_suffix-append r t =
    let e : length (r ++ t) - length t ≡ length r = omega (arith, length-append {0} r t) in
    rw has_suffix-append (rw e (take-length-append r t))
