-- ===== src/Base/Printed.antt =====
-- What `%llu` prints, read back.
use Prim.Native.Nat.{ℕ, zero, suc, ◌+◌, ◌-◌, ◌*◌, ◌/◌, ◌%◌, ◌^◌, ◌<◌}
use mathlib.Core.Path.{◌≡◌, refl, ◌∙◌}
use mathlib.Core.Logic.{◌≢◌, inl, inr}
use mathlib.Core.Bool.{true}
use mathlib.Core.List.{[], ◌∷◌, ◌++◌}
use mathlib.Core.Option.{some}
use native.Mathlib.Omega.{arith}
use openwrt_nes_emulator.Base.Tests.{ltb, Bool-cases, ltb→lt}
use openwrt_nes_emulator.Base.Lists.{Bytes}
use openwrt_nes_emulator.Base.Words.{u64_mod}
use openwrt_nes_emulator.Base.Decimal.{decimal_digits, decimal}
use openwrt_nes_emulator.Base.Unsigned.{
  is_digit, parse_decimal, parse_decimal_iff, AreDigits, decimal_value,
}

decimal_value-end :
    (v c : ℕ) (s : Bytes) → decimal_value v (s ++ c ∷ []) ≡ decimal_value v s * 10 + (c - 48)
unfolding decimal_value
decimal_value-end v c [] = refl
decimal_value-end v c (d ∷ s) = decimal_value-end (v * 10 + (d - 48)) c s

AreDigits-end : (c : ℕ) (s : Bytes) → AreDigits s → is_digit c ≡ true → AreDigits (s ++ c ∷ [])
AreDigits-end c [] hs hc = (hc, tt)
AreDigits-end c (d ∷ s) hs hc = (hs.0, AreDigits-end c s hs.1 hc)

end-some : (c : ℕ) (s : Bytes) → (s ++ c ∷ []) ≢ []
end-some c [] e = cc
end-some c (d ∷ s) e = cc

one : (n : ℕ) → n < 10 → decimal_value 0 ((48 + n) ∷ []) ≡ n
unfolding decimal_value
one n h = omega arith

digits-read :
    (fuel n : ℕ)
    → n < 10 ^ suc fuel
    → AreDigits (decimal_digits (suc fuel) n)
      × (decimal_value 0 (decimal_digits (suc fuel) n) ≡ n)
      × (decimal_digits (suc fuel) n ≢ [])
unfolding decimal_digits
digits-read zero n h =
    let e : ltb n 10 ≡ true = ground arith in
    rw (decimal_digits, e) ((ground arith, tt), one n (omega arith), end-some (48 + n) [])
digits-read (suc fuel) n h = elim (Bool-cases (ltb n 10)) [
  | inl e ↦ rw (decimal_digits, e) ((ground arith, tt), one n (ltb→lt n 10 e), end-some (48 + n) [])
  | inr e ↦
      let (digits, value, _) = digits-read fuel (n / 10) (omega arith) in
      let more = decimal_digits (suc fuel) (n / 10) in
      let last : 48 + n % 10 - 48 ≡ n % 10 = omega arith in
      let whole : n / 10 * 10 + n % 10 ≡ n = omega arith in
      rw (decimal_digits, e)
        (
          AreDigits-end (48 + n % 10) more digits (ground arith),
          decimal_value-end 0 (48 + n % 10) more ∙ rw (value, last) whole,
          end-some (48 + n % 10) more,
        )
]

-- A 64-bit number that is printed is read back.
pub parse_decimal-decimal : (n : ℕ) → n < u64_mod → parse_decimal (decimal n) ≡ some n
unfolding decimal
parse_decimal-decimal n h =
    let (digits, value, some_text) = digits-read 19 n (omega arith) in
    (parse_decimal_iff (decimal_digits 20 n) n).1 (some_text, digits, value, h)
