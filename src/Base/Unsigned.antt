-- ===== src/Base/Unsigned.antt =====
-- Decimal text to a 64-bit number: the loop that `parse_uint64_decimal` (rpc_client.c) and
-- `parse_content_length_value` (http.c) of package/nes-emulator/src share.
use Prim.Native.Nat.{ℕ, ◌+◌, ◌-◌, ◌*◌, ◌/◌, ◌≤◌, ◌<◌}
use mathlib.Core.Path.{◌≡◌, refl, ap, ◌∙◌}
use mathlib.Core.Logic.{◌≢◌, ◌↔◌}
use mathlib.Core.Bool.{Bool, true, not}
use mathlib.Core.List.{[], ◌∷◌}
use mathlib.Core.Option.{Option, none, some}
use native.Mathlib.Omega.{arith}
use openwrt_nes_emulator.Base.Tests.{ltb, if◌then◌else◌, within}
use openwrt_nes_emulator.Base.Lists.{Bytes, All}
use openwrt_nes_emulator.Base.Words.{u64_mod}

-- `isdigit` in the C locale
abbrev pub is_digit : ℕ → Bool
is_digit = within 48 57

unfoldable pub decimal_loop : ℕ → Bytes → Option ℕ
decimal_loop value [] = some value
decimal_loop value (c ∷ s) =
    let rest = decimal_loop (value * 10 + (c - 48)) s in
    if not (is_digit c)
    then none
    else if ltb ((u64_mod - 1 - (c - 48)) / 10) value
    then none
    else rest

unfoldable pub parse_decimal : Bytes → Option ℕ
parse_decimal [] = none
parse_decimal (c ∷ s) = decimal_loop 0 (c ∷ s)

abbrev pub AreDigits : Bytes → Type 0
AreDigits = All (λ c. is_digit c ≡ true)

-- The number that digits stand for, behind a number read before them.
unfoldable pub decimal_value : ℕ → Bytes → ℕ
decimal_value value [] = value
decimal_value value (c ∷ s) = decimal_value (value * 10 + (c - 48)) s

decimal_value-grows : (value : ℕ) (s : Bytes) → value ≤ decimal_value value s
unfolding decimal_value
decimal_value-grows value [] = omega arith
decimal_value-grows value (c ∷ s) = omega (arith, decimal_value-grows (value * 10 + (c - 48)) s)

decimal_loop-value :
    (value : ℕ) (s : Bytes)
    → AreDigits s
    → value < u64_mod
    → decimal_value value s < u64_mod
    → decimal_loop value s ≡ some (decimal_value value s)
unfolding decimal_loop decimal_value
decimal_loop-value value [] h small fits = refl
decimal_loop-value value (c ∷ s) h small fits =
    let grows = decimal_value-grows (value * 10 + (c - 48)) s in
    ground (arith, h.0, decimal_loop-value (value * 10 + (c - 48)) s h.1)

decimal_loop-some :
    (value : ℕ) (s : Bytes) (n : ℕ)
    → value < u64_mod
    → decimal_loop value s ≡ some n
    → AreDigits s × (decimal_value value s ≡ n) × (n < u64_mod)
unfolding decimal_loop decimal_value
decimal_loop-some value [] n small e = ground arith
decimal_loop-some value (c ∷ s) n small e =
    ground (arith, decimal_loop-some (value * 10 + (c - 48)) s n)

-- Exactly the digits that stand for a number below 2 ^ 64, one digit at least, are read, as that
-- number.
pub parse_decimal_iff :
    (s : Bytes) (n : ℕ)
    → (parse_decimal s ≡ some n)
      ↔ ((s ≢ []) × AreDigits s × (decimal_value 0 s ≡ n) × (n < u64_mod))
unfolding parse_decimal
parse_decimal_iff [] n = ((λ e. cc), (λ h. absurd (h.0 refl)))
parse_decimal_iff (c ∷ s) n = (
  (λ e.
      let (all_digits, value, small) = decimal_loop-some 0 (c ∷ s) n (omega arith) e in
      ((λ no_text. cc), all_digits, value, small)),
  (λ (some_text, all_digits, value, small).
      decimal_loop-value 0 (c ∷ s) all_digits (omega arith) (omega arith) ∙ ap some value),
)
