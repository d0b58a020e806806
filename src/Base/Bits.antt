-- ===== src/Base/Bits.antt =====
-- Bitwise or and exclusive or: when they are zero.
use Prim.Native.Nat.{
  ℕ, zero, suc, ◌/◌, ◌%◌, ◌≤◌, max, bit_or, bit_xor, digits, differ, bit_or-bitwise,
  bit_xor-bitwise,
}
use mathlib.Core.Path.{◌≡◌, refl, ap, sym, ◌∙◌}
use native.Mathlib.Omega.{arith}

abbrev or_digits : ℕ → ℕ → ℕ → ℕ
or_digits n a b = digits (λ b. b) max n a b

abbrev xor_digits : ℕ → ℕ → ℕ → ℕ
xor_digits n a b = digits (λ b. b) differ n a b

-- A zero has zero parts.
or_digits-zero : (n a b : ℕ) → a ≤ n → or_digits n a b ≡ 0 → (a ≡ 0) × (b ≡ 0)
or_digits-zero zero a b h e = (omega arith, e)
or_digits-zero (suc n) zero b h e = (refl, e)
or_digits-zero (suc n) (suc a) b h e =
    let (low, high) = or_digits-zero n (suc a / 2) (b / 2) (omega arith) (omega (arith, e)) in
    (omega (arith, e, low, high), omega (arith, e, low, high))

pub bit_or-zero : (a b : ℕ) → bit_or a b ≡ 0 → (a ≡ 0) × (b ≡ 0)
bit_or-zero a b e = or_digits-zero a a b (omega arith) (sym (bit_or-bitwise a b) ∙ e)

differ-zero : (x y : ℕ) → differ x y ≡ 0 → x ≡ y
differ-zero zero y e = sym e
differ-zero (suc x) zero e = e
differ-zero (suc x) (suc y) e = ap suc (differ-zero x y e)

differ_self : (x : ℕ) → differ x x ≡ 0
differ_self zero = refl
differ_self (suc x) = differ_self x

xor_digits-zero : (n a b : ℕ) → a ≤ n → xor_digits n a b ≡ 0 → a ≡ b
xor_digits-zero zero a b h e = omega (arith, e)
xor_digits-zero (suc n) zero b h e = sym e
xor_digits-zero (suc n) (suc a) b h e =
    let high = xor_digits-zero n (suc a / 2) (b / 2) (omega arith) (omega (arith, e)) in
    let low = differ-zero (suc a % 2) (b % 2) (omega (arith, e)) in omega (arith, high, low)

xor_digits_self : (n a : ℕ) → a ≤ n → xor_digits n a a ≡ 0
xor_digits_self zero a h = omega arith
xor_digits_self (suc n) zero h = refl
xor_digits_self (suc n) (suc a) h =
    omega (arith, xor_digits_self n (suc a / 2) (omega arith), differ_self (suc a % 2))

pub bit_xor-zero : (a b : ℕ) → bit_xor a b ≡ 0 → a ≡ b
bit_xor-zero a b e = xor_digits-zero a a b (omega arith) (sym (bit_xor-bitwise a b) ∙ e)

pub bit_xor_self : (a : ℕ) → bit_xor a a ≡ 0
bit_xor_self a = bit_xor-bitwise a a ∙ xor_digits_self a a (omega arith)
