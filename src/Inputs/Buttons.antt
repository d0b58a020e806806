-- ===== src/Inputs/Buttons.antt =====
-- The bits of a mask.
use Prim.Native.Nat.{max, digits, bit_or-bitwise}
use openwrt_nes_emulator.Base.{
  ℕ, zero, suc, ◌%◌, ◌/◌, ◌≤◌, ◌≡◌, refl, ap, ◌∙◌, Bool, false, ◌||◌, ◌==◌, arith, bit_or,
}

-- The bit of a button.
abbrev pub button : ℕ → ℕ → Bool
button mask zero = mask % 2 == 1
button mask (suc k) = button (mask / 2) k

pub button-zero : (k : ℕ) → button 0 k ≡ false
button-zero zero = refl
button-zero (suc k) = button-zero k

abbrev or_digits : ℕ → ℕ → ℕ → ℕ
or_digits n a b = digits (λ b. b) max n a b

button-or_digits : (n a b k : ℕ) → a ≤ n → button (or_digits n a b) k ≡ (button a k || button b k)
button-or_digits zero zero b k h = rw (button-zero k) refl
button-or_digits zero (suc a) b k h = absurd (omega arith)
button-or_digits (suc n) zero b k h = rw (button-zero k) refl
button-or_digits (suc n) (suc a) b zero h = ground arith
button-or_digits (suc n) (suc a) b (suc k) h =
    let e : or_digits (suc n) (suc a) b / 2 ≡ or_digits n (suc a / 2) (b / 2) = omega arith in
    ap (λ m. button m k) e ∙ button-or_digits n (suc a / 2) (b / 2) k (omega arith)

pub button-bit_or : (a b k : ℕ) → button (bit_or a b) k ≡ (button a k || button b k)
button-bit_or a b k =
    ap (λ m. button m k) (bit_or-bitwise a b) ∙ button-or_digits a a b k (omega arith)
