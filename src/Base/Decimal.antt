-- ===== src/Base/Decimal.antt =====
-- Decimal text, as fmt's %d and strconv write it.
use lockr.Base.Tests.{ltb, if◌then◌else◌}
use lockr.Base.Lists.{All}
use lockr.Base.Text.{Bytes}
use Prim.Native.Nat.{ℕ, zero, suc, ◌+◌, ◌-◌, ◌*◌, ◌/◌, ◌%◌, ◌<◌}
use mathlib.Core.Path.{◌≡◌, refl, sym, ap, ◌∙◌}
use mathlib.Core.Logic.{◌≢◌}
use mathlib.Core.List.{[], ◌∷◌}
use native.Mathlib.Omega.{arith}
use native.Mathlib.Decide.{dec_lt}

-- The digits of `n` in front of `out`; the fuel is above `n`, and each round divides by ten.
emit : ℕ → ℕ → Bytes → Bytes
emit zero n out = out
emit (suc f) n out =
    let rest = emit f (n / 10) ((b'0' + n % 10) ∷ out) in
    if ltb n 10 then (b'0' + n) ∷ out else rest

unfoldable pub decimal : ℕ → Bytes
unfolding emit
decimal n = emit (suc n) n []

-- The number that a text of digits stands for, after the digits of `acc`.
pub value : ℕ → Bytes → ℕ
value acc [] = acc
value acc (c ∷ s) = value (acc * 10 + (c - b'0')) s

value-emit : (f n : ℕ) (out : Bytes) → n < f → value 0 (emit f n out) ≡ value n out
unfolding emit value
value-emit zero n out h = absurd (omega arith)
value-emit (suc f) n out h =
    let back : n / 10 * 10 + (b'0' + n % 10 - b'0') ≡ n = omega arith in
    ground (arith, value-emit f (n / 10) ((b'0' + n % 10) ∷ out), ap (λ (k : ℕ). value k out) back)

-- Decimal text is read back to the number.
pub value-decimal : (n : ℕ) → value 0 (decimal n) ≡ n
unfolding decimal value
value-decimal n = value-emit (suc n) n [] (omega arith)

pub decimal-inj : (a b : ℕ) → decimal a ≡ decimal b → a ≡ b
decimal-inj a b e = sym (value-decimal a) ∙ ap (value 0) e ∙ value-decimal b

-- A byte does not occur in a text.
abbrev pub NoByte : ℕ → Bytes → Type 0
NoByte c s = All (λ b. b ≢ c) s

emit-NoByte : (c f n : ℕ) (out : Bytes) → c < b'0' → NoByte c out → NoByte c (emit f n out)
unfolding emit
emit-NoByte c zero n out h k = k
emit-NoByte c (suc f) n out h k =
    let here : b'0' + n % 10 ≢ c = omega arith in
    let last : b'0' + n ≢ c = omega arith in
    ground (arith, emit-NoByte c f (n / 10) ((b'0' + n % 10) ∷ out) h (here, k))

pub decimal-NoByte : (c n : ℕ) → c < b'0' → NoByte c (decimal n)
unfolding decimal
decimal-NoByte c n h = emit-NoByte c (suc n) n [] h tt

emit-NoByte_above : (c f n : ℕ) (out : Bytes) → b'9' < c → NoByte c out → NoByte c (emit f n out)
unfolding emit
emit-NoByte_above c zero n out h k = k
emit-NoByte_above c (suc f) n out h k =
    let here : b'0' + n % 10 ≢ c = omega arith in
    let rest = emit-NoByte_above c f (n / 10) ((b'0' + n % 10) ∷ out) h (here, k) in
    elim (dec_lt n 10) [
      | yes small ↦ let last : b'0' + n ≢ c = omega arith in ground arith
      | no large ↦ ground arith
    ]

pub decimal-NoByte_above : (c n : ℕ) → b'9' < c → NoByte c (decimal n)
unfolding decimal
decimal-NoByte_above c n h = emit-NoByte_above c (suc n) n [] h tt

decimal_test : decimal 1207 ≡ b'1' ∷ b'2' ∷ b'0' ∷ b'7' ∷ []
unfolding decimal
decimal_test = refl
