-- ===== src/Base/Decimal.antt =====
-- The digits of a number in base ten, as `%llu` prints a `uint64_t` (below 2 ^ 64, so at most
-- twenty digits, which is the fuel).
use Prim.Native.Nat.{ℕ, zero, suc, ◌+◌, ◌/◌, ◌%◌, ◌≤◌}
use mathlib.Core.List.{[], ◌∷◌, ◌++◌}
use native.Mathlib.Omega.{arith}
use openwrt_nes_emulator.Base.Tests.{ltb, if◌then◌else◌}
use openwrt_nes_emulator.Base.Lists.{Bytes, length, length-append}

unfoldable pub decimal_digits : ℕ → ℕ → Bytes
decimal_digits zero n = []
decimal_digits (suc fuel) n =
    let more = decimal_digits fuel (n / 10) in
    if ltb n 10 then (48 + n) ∷ [] else more ++ (48 + n % 10) ∷ []

unfoldable pub decimal : ℕ → Bytes
unfolding decimal_digits
decimal = decimal_digits 20

length-decimal_digits : (fuel n : ℕ) → length (decimal_digits fuel n) ≤ fuel
unfolding decimal_digits
length-decimal_digits zero n = omega arith
length-decimal_digits (suc fuel) n = ground (
  arith,
  length-decimal_digits fuel (n / 10),
  length-append (decimal_digits fuel (n / 10)) ((48 + n % 10) ∷ []),
)

pub length-decimal : (n : ℕ) → length (decimal n) ≤ 20
unfolding decimal
length-decimal = length-decimal_digits 20
