-- ===== src/Storage/Crypto/Compare.antt =====
-- `subtle32Equal` compares in constant time, and decides equality.
use lockr.Base.{
  ℕ, zero, suc, ◌/◌, ◌%◌, ◌≤◌, ◌≡◌, refl, sym, ◌∙◌, ap, true, [], ◌∷◌, ◌↔◌, length, Bytes, arith,
}
use Prim.Native.Nat.{bit_or, bit_xor, digits, differ, max, bit_or-bitwise, bit_xor-bitwise}
use lockr.Storage.Crypto.{diff_from, subtle32_equal}

or_digits_zero : (n a b : ℕ) → a ≤ n → digits (λ b. b) max n a b ≡ 0 → (a ≡ 0) × (b ≡ 0)
or_digits_zero zero a b h e = (omega arith, e)
or_digits_zero (suc n) zero b h e = (refl, e)
or_digits_zero (suc n) (suc a) b h e =
    absurd (omega (arith, or_digits_zero n (suc a / 2) (b / 2) (omega arith) (omega arith)))

bit_or-zero : (a b : ℕ) → bit_or a b ≡ 0 → (a ≡ 0) × (b ≡ 0)
bit_or-zero a b h = or_digits_zero a a b (omega arith) (sym (bit_or-bitwise a b) ∙ h)

differ-zero : (x y : ℕ) → differ x y ≡ 0 → x ≡ y
differ-zero zero y h = sym h
differ-zero (suc x) zero h = h
differ-zero (suc x) (suc y) h = ap suc (differ-zero x y h)

differ_self : (x : ℕ) → differ x x ≡ 0
differ_self zero = refl
differ_self (suc x) = differ_self x

xor_digits_zero : (n a b : ℕ) → a ≤ n → digits (λ b. b) differ n a b ≡ 0 → a ≡ b
xor_digits_zero zero a b h e = omega arith
xor_digits_zero (suc n) zero b h e = sym e
xor_digits_zero (suc n) (suc a) b h e = omega (
  arith,
  xor_digits_zero n (suc a / 2) (b / 2) (omega arith) (omega arith),
  differ-zero (suc a % 2) (b % 2) (omega arith),
)

xor_digits_self : (n a : ℕ) → a ≤ n → digits (λ b. b) differ n a a ≡ 0
xor_digits_self zero a h = omega arith
xor_digits_self (suc n) zero h = refl
xor_digits_self (suc n) (suc a) h =
    omega (arith, xor_digits_self n (suc a / 2) (omega arith), differ_self (suc a % 2))

bit_xor-zero : (a b : ℕ) → bit_xor a b ≡ 0 → a ≡ b
bit_xor-zero a b h = xor_digits_zero a a b (omega arith) (sym (bit_xor-bitwise a b) ∙ h)

bit_xor_self : (a : ℕ) → bit_xor a a ≡ 0
bit_xor_self a = bit_xor-bitwise a a ∙ xor_digits_self a a (omega arith)

diff_from_self : (s : Bytes) → diff_from 0 s s ≡ 0
unfolding diff_from
diff_from_self [] = refl
diff_from_self (a ∷ s) = rw (bit_xor_self a) (diff_from_self s)

diff_from-zero :
    (d : ℕ) (s t : Bytes) → length s ≡ length t → diff_from d s t ≡ 0 → (d ≡ 0) × (s ≡ t)
unfolding diff_from
diff_from-zero d [] [] l h = (h, refl)
diff_from-zero d [] (b ∷ t) l h = absurd (omega arith)
diff_from-zero d (a ∷ s) [] l h = absurd (omega arith)
diff_from-zero d (a ∷ s) (b ∷ t) l h =
    let (now, rest) = diff_from-zero (bit_or d (bit_xor a b)) s t (omega arith) h in
    let (before, here) = bit_or-zero d (bit_xor a b) now in
    (before, cc (bit_xor-zero a b here, rest))

-- The comparison without an early exit, over the exclusive or of all bytes, decides equality of any
-- two byte sequences.
pub subtle32_equal_iff : (a b : Bytes) → (subtle32_equal a b ≡ true) ↔ (a ≡ b)
unfolding subtle32_equal
subtle32_equal_iff a b = (sound, complete)
  where
    sound : subtle32_equal a b ≡ true → a ≡ b
    sound h = (diff_from-zero 0 a b (ground arith) (ground arith)).1

    complete : a ≡ b → subtle32_equal a b ≡ true
    complete e = rw (← e) (ground (arith, diff_from_self a))
