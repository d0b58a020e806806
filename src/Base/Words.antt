-- ===== src/Base/Words.antt =====
-- Machine words as native numbers: wrap by `%`, and the masking of a byte undone.
use Prim.Native.Nat.{ℕ, zero, suc, ◌+◌, ◌-◌, ◌%◌, ◌^◌, ◌<◌, bit_xor}
use mathlib.Core.Path.{◌≡◌, refl}
use mathlib.Core.Bool.{Bool, true, false}
use native.Mathlib.Omega.{arith}
use openwrt_nes_emulator.Base.Tests.{◌==◌, ==_iff}

-- One more than the largest `uint64_t`, and than the largest `size_t` of a 64-bit target.
abbrev pub u64_mod : ℕ
u64_mod = 2 ^ 64

-- `a - b` and `a + b` on `uint64_t`
abbrev pub sub64 : ℕ → ℕ → ℕ
sub64 a b = (a + u64_mod - b) % u64_mod

abbrev pub add64 : ℕ → ℕ → ℕ
add64 a b = (a + b) % u64_mod

-- The test holds of every number below the bound; it stops at the first that fails.
every : (ℕ → Bool) → ℕ → Bool
every test zero = true
every test (suc k) = elim (test k) [ false ↦ false | true ↦ every test k ]

every_at : (test : ℕ → Bool) (k x : ℕ) → x < k → every test k ≡ true → test x ≡ true
unfolding every
every_at test zero x below holds = elim below [ ]
every_at test (suc k) x below holds = ground (arith, every_at test k x)

unmasks : ℕ → ℕ → Bool
unmasks key b = bit_xor (bit_xor b key) key == b

unmask_square : every (λ key. every (unmasks key) 256) 256 ≡ true
unfolding every unmasks
unmask_square = refl

-- Masking a byte twice with one key byte leaves it as it was.
pub bit_xor_twice : (b key : ℕ) → b < 256 → key < 256 → bit_xor (bit_xor b key) key ≡ b
unfolding unmasks
bit_xor_twice b key hb hk = (==_iff _ b).0 (
    every_at (unmasks key) 256 b hb
      (every_at (λ k. every (unmasks k) 256) 256 key hk unmask_square))
