-- ===== src/Http/Auth/Equal.antt =====
-- `constant_time_equal` beside equality.
use openwrt_nes_emulator.Base.{
  IsText, ℕ, ◌%◌, ◌^◌, ◌≡◌, ◌↔◌, refl, ap₂, true, [], ◌∷◌, Bytes, length, arith, ==_iff, bit_or,
  bit_xor, bit_or-zero, bit_xor-zero, bit_xor_self,
}
use openwrt_nes_emulator.Http.Auth.{diff_loop, constant_time_equal}

-- A loop that ends with 0 began with 0.
loop-zero :
    (diff : ℕ) (a b : Bytes) → IsText a → IsText b → diff_loop diff a b ≡ 0 → (diff ≡ 0) × (a ≡ b)
unfolding diff_loop
loop-zero diff [] [] ha hb e = (e, refl)
loop-zero diff (x ∷ a) [] ha hb e =
    let (before, _) = loop-zero (bit_or diff (bit_xor x 0)) a [] ha.1 tt e in
    absurd (ha.0 (bit_xor-zero x 0 (bit_or-zero diff (bit_xor x 0) before).1))
loop-zero diff [] (y ∷ b) ha hb e =
    let (before, _) = loop-zero (bit_or diff (bit_xor 0 y)) [] b tt hb.1 e in
    let same = bit_xor-zero 0 y (bit_or-zero diff (bit_xor 0 y) before).1 in
    absurd (hb.0 (omega arith))
loop-zero diff (x ∷ a) (y ∷ b) ha hb e =
    let (before, rest) = loop-zero (bit_or diff (bit_xor x y)) a b ha.1 hb.1 e in
    let (zero_diff, same) = bit_or-zero diff (bit_xor x y) before in
    (zero_diff, ap₂ ◌∷◌ (bit_xor-zero x y same) rest)

loop_self : (a : Bytes) → diff_loop 0 a a ≡ 0
unfolding diff_loop
loop_self [] = refl
loop_self (x ∷ a) = rw (bit_xor_self x) (loop_self a)

-- Two C strings compare as equal exactly if they are the same text.
pub constant_time_equal_iff :
    (a b : Bytes) → IsText a → IsText b → (constant_time_equal a b ≡ true) ↔ (a ≡ b)
unfolding constant_time_equal
constant_time_equal_iff a b ha hb = (
  (λ e. (loop-zero (bit_xor (length a) (length b) % 2 ^ 32) a b ha hb ((==_iff _ 0).0 e)).1),
  (λ same. rw (← same) (rw (bit_xor_self (length a), loop_self a) refl)),
)
