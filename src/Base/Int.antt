-- ===== src/Base/Int.antt =====
-- Go's `int`, 64 bits wide, as its two's complement bit pattern: a number below 2 ^ 64. The order is
-- the signed one, and increments and differences wrap around.
use lockr.Base.Tests.{ltb, if◌then◌else◌}
use lockr.Base.Text.{Bytes}
use lockr.Base.Decimal.{decimal, decimal-inj, NoByte, decimal-NoByte, decimal-NoByte_above}
use Prim.Native.Nat.{ℕ, ◌+◌, ◌-◌, ◌%◌, ◌^◌, ◌<◌, ◌≤◌}
use mathlib.Core.Path.{◌≡◌, sym, ◌∙◌}
use mathlib.Core.Logic.{◌≢◌}
use mathlib.Core.Bool.{Bool}
use mathlib.Core.List.{◌∷◌}
use native.Mathlib.Omega.{arith}

abbrev pub Int64 : Type 0
Int64 = ℕ

-- a < b for signed values
unfoldable pub int_lt : Int64 → Int64 → Bool
int_lt a b = ltb ((a + 2 ^ 63) % 2 ^ 64) ((b + 2 ^ 63) % 2 ^ 64)

-- a++
unfoldable pub int_incr : Int64 → Int64
int_incr a = (a + 1) % 2 ^ 64

-- a - b
unfoldable pub int_sub : Int64 → Int64 → Int64
int_sub a b = (a + 2 ^ 64 - b % 2 ^ 64) % 2 ^ 64

-- fmt.Sprintf("%d", a)
unfoldable pub format_int : Int64 → Bytes
format_int a = if ltb a (2 ^ 63) then decimal a else b'-' ∷ decimal (2 ^ 64 - a)

-- The values from 0 up: those below 2 ^ 63.
abbrev pub IsNat : Int64 → Type 0
IsNat a = a < 2 ^ 63

pub int_lt_nat : (a b : Int64) → IsNat a → IsNat b → int_lt a b ≡ ltb a b
unfolding int_lt
int_lt_nat a b h k = ground arith

pub int_incr_nat : (a : Int64) → a + 1 < 2 ^ 63 → int_incr a ≡ a + 1
unfolding int_incr
int_incr_nat a h = omega arith

pub int_sub_nat : (a b : Int64) → IsNat a → b ≤ a → int_sub a b ≡ a - b
unfolding int_sub
int_sub_nat a b h k = omega arith

pub format_int_nat : (a : Int64) → IsNat a → format_int a ≡ decimal a
unfolding format_int
format_int_nat a h = ground arith

-- Different values from 0 up are written differently.
pub format_int-inj : (a b : Int64) → IsNat a → IsNat b → format_int a ≡ format_int b → a ≡ b
format_int-inj a b h k e = decimal-inj a b (sym (format_int_nat a h) ∙ e ∙ format_int_nat b k)

-- The text of a number holds only digits and a minus sign.
pub format_int-NoByte : (c a : ℕ) → c ≢ b'-' → (c < b'0') → NoByte c (format_int a)
unfolding format_int
format_int-NoByte c a h k = ground (arith, decimal-NoByte c a k, decimal-NoByte c (2 ^ 64 - a) k)

pub format_int-NoByte_above : (c a : ℕ) → (b'9' < c) → NoByte c (format_int a)
unfolding format_int
format_int-NoByte_above c a h =
    ground (arith, decimal-NoByte_above c a h, decimal-NoByte_above c (2 ^ 64 - a) h)
