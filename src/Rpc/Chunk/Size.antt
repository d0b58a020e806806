-- ===== src/Rpc/Chunk/Size.antt =====
-- The line with the size of a chunk, as RFC 9112 (section 7.1) writes it: hexadecimal digits, and an
-- extension or none.
use openwrt_nes_emulator.Base.{
  ℕ, ◌+◌, ◌-◌, ◌*◌, ◌/◌, ◌≤◌, ◌<◌, ◌≡◌, ◌≢◌, ◌⊎◌, inl, inr, refl, ap, ◌∙◌, Bool, true, false, ◌||◌,
  [], ◌∷◌, ◌++◌, some, Bytes, length, ltb, ◌==◌, u64_mod, arith, All,
}
use openwrt_nes_emulator.Rpc.Chunk.{
  is_xdigit, xdigit_value, chunk_rest, chunk_loop, parse_chunk_size, extension_valid,
}
use openwrt_nes_emulator.Rpc.Reader.Stream.{InLine}

-- A hexadecimal digit for a number: `0` to `9`, `A` to `F`, `a` to `f`.
abbrev pub IsDigit : ℕ → ℕ → Type 0
IsDigit c n =
    ((n < 10) × (c ≡ 48 + n))
    ⊎ (((10 ≤ n) × (n < 16) × (c ≡ 55 + n)) ⊎ ((10 ≤ n) × (n < 16) × (c ≡ 87 + n)))

-- Digits that, behind the number `value`, give the number `n`.
abbrev pub Gives : ℕ → Bytes → ℕ → Type 0
Gives value [] n = value ≡ n
Gives value (c ∷ s) n = (d : ℕ) × IsDigit c d × Gives (value * 16 + d) s n

-- Nothing, or what begins with a `;`; no control characters.
abbrev pub IsExtension : Bytes → Type 0
IsExtension [] = Unit
IsExtension (c ∷ s) = (c ≡ 59) × All (λ b. (0x20 ≤ b) × (b ≢ 0x7f)) s

IsDigit-xdigit :
    (c n : ℕ) → IsDigit c n → (is_xdigit c ≡ true) × (xdigit_value c ≡ n) × InLine c × (n < 16)
IsDigit-xdigit c n (inl h) = ground arith
IsDigit-xdigit c n (inr (inl h)) = ground arith
IsDigit-xdigit c n (inr (inr h)) = ground arith

Gives-le : (value : ℕ) (s : Bytes) (n : ℕ) → Gives value s n → value ≤ n
Gives-le value [] n h = omega arith
Gives-le value (c ∷ s) n (d, _, rest) = omega (arith, Gives-le (value * 16 + d) s n rest)

-- One digit.
loop-digit :
    (saw : Bool) (value c d : ℕ) (s : Bytes)
    → IsDigit c d
    → value * 16 + d < u64_mod
    → chunk_loop saw value (c ∷ s) ≡ chunk_loop true (value * 16 + d) s
unfolding chunk_loop
loop-digit saw value c d s h fits =
    let (digit, is, _, _) = IsDigit-xdigit c d h in
    let small : ltb ((u64_mod - 1 - d) / 16) value ≡ false = ground arith in
    rw (chunk_loop, is, digit, small) refl

loop-digits :
    (value : ℕ) (digits : Bytes) (n : ℕ) (s : Bytes)
    → Gives value digits n
    → n < u64_mod
    → chunk_loop true value (digits ++ s) ≡ chunk_loop true n s
loop-digits value [] n s h small = ap (λ v. chunk_loop true v s) h
loop-digits value (c ∷ digits) n s (d, digit, rest) small =
    loop-digit true value c d (digits ++ s) digit
      (omega (arith, Gives-le (value * 16 + d) digits n rest))
    ∙ loop-digits (value * 16 + d) digits n s rest small

extension_valid_lem : (s : Bytes) → All (λ b. (0x20 ≤ b) × (b ≢ 0x7f)) s → extension_valid s ≡ true
unfolding extension_valid
extension_valid_lem [] h = refl
extension_valid_lem (c ∷ s) h =
    let here : (ltb c 0x20 || c == 0x7f) ≡ false = ground arith in
    rw (here, extension_valid_lem s h.1) refl

chunk_loop-extension :
    (n : ℕ) (extension : Bytes) → IsExtension extension → chunk_loop true n extension ≡ some n
unfolding chunk_loop chunk_rest
chunk_loop-extension n [] h = unfold extension_valid in refl
chunk_loop-extension n (c ∷ s) (first, rest) =
    let e : (c == 59) ≡ true = ground arith in
    let other : is_xdigit c ≡ false = ground arith in
    let valid = extension_valid_lem (c ∷ s) ((omega arith, omega arith), rest) in
    rw (chunk_loop, other, e, valid) (ground arith)

-- A size in hexadecimal, with an extension or without, is read as that size.
pub parse_chunk_size-digits :
    (n : ℕ) (digits extension : Bytes)
    → 0 < length digits
    → Gives 0 digits n
    → n < u64_mod
    → IsExtension extension
    → parse_chunk_size (digits ++ extension) ≡ some n
unfolding parse_chunk_size
parse_chunk_size-digits n [] extension some_digit h small ext = absurd (omega arith)
parse_chunk_size-digits n (c ∷ digits) extension some_digit (d, digit, rest) small ext =
    loop-digit false 0 c d (digits ++ extension) digit
      (omega (arith, Gives-le (0 * 16 + d) digits n rest))
    ∙ loop-digits (0 * 16 + d) digits n extension rest small
    ∙ chunk_loop-extension n extension ext

pub InLine-append : (xs ys : Bytes) → All InLine xs → All InLine ys → All InLine (xs ++ ys)
InLine-append [] ys hx hy = hy
InLine-append (x ∷ xs) ys hx hy = (hx.0, InLine-append xs ys hx.1 hy)

Gives-InLine : (value : ℕ) (s : Bytes) (n : ℕ) → Gives value s n → All InLine s
Gives-InLine value [] n h = tt
Gives-InLine value (c ∷ s) n (d, digit, rest) =
    ((IsDigit-xdigit c d digit).2, Gives-InLine (value * 16 + d) s n rest)

visible-InLine : (s : Bytes) → All (λ b. (0x20 ≤ b) × (b ≢ 0x7f)) s → All InLine s
visible-InLine [] h = tt
visible-InLine (c ∷ s) h = (omega arith, visible-InLine s h.1)

IsExtension-InLine : (s : Bytes) → IsExtension s → All InLine s
IsExtension-InLine [] h = tt
IsExtension-InLine (c ∷ s) (first, rest) = (omega arith, visible-InLine s rest)

-- Such a line has no character that a line cannot have.
pub digits-InLine :
    (n : ℕ) (digits extension : Bytes)
    → Gives 0 digits n
    → IsExtension extension
    → All InLine (digits ++ extension)
digits-InLine n digits extension h ext =
    InLine-append digits extension (Gives-InLine 0 digits n h) (IsExtension-InLine extension ext)
