-- ===== src/Text/Buffer/Repair.antt =====
-- The text that `sb_append_json_string` stands for, and its rounds beside it.
use openwrt_nes_emulator.Base.{
  ℕ, zero, suc, ◌*◌, ◌/◌, ◌%◌, ◌≤◌, ◌<◌, ◌≡◌, refl, ap, sym, ◌∙◌, inl, inr, Bool, true, false, ◌||◌,
  [], ◌∷◌, ◌++◌, none, some, Bytes, length, take, drop, get_or, take-append-drop, length-drop, ltb,
  leb, ◌==◌, ==_iff, if◌then◌else◌, arith, Bool-cases, Option-cases, IsText,
}
use openwrt_nes_emulator.Text.Utf8.{
  utf8_sequence_length, utf8_encode, string_item, valid_string_rounds,
}
use openwrt_nes_emulator.Text.Utf8.Agree.{string_item-IsText}
use openwrt_nes_emulator.Text.Buffer.{hex_digit, json_piece}
use openwrt_nes_emulator.Text.Buffer.Reader.{
  escape, gives, hex_number, character, four_digits, scan_step, High, take-Plain, sequence-High,
  hex_digit-hex, body-gives, Piece, letter, code, high, plain,
}

-- What a round over this text stands for: a byte below 0x80 is itself, a UTF-8 sequence is itself,
-- and any other byte is U+FFFD; and how many bytes that is about.
unfoldable pub repair_item : Bytes → Bytes × ℕ
repair_item p =
    let c = get_or p 0 0 in
    let n = utf8_sequence_length p in
    if ltb c 0x80
    then (c ∷ [], 1)
    else if n == 0
    then (0xef ∷ 0xbf ∷ 0xbd ∷ [], 1)
    else (take n p, n)

unfoldable pub repair_rounds : ℕ → Bytes → Bytes
repair_rounds zero p = []
repair_rounds (suc fuel) [] = []
repair_rounds (suc fuel) (c ∷ p) =
    (repair_item (c ∷ p)).0 ++ repair_rounds fuel (drop (repair_item (c ∷ p)).1 (c ∷ p))

-- A text with U+FFFD in place of each byte that is not UTF-8.
unfoldable pub repair : Bytes → Bytes
unfolding repair_rounds
repair text = repair_rounds (length text) text

repair_item-ascii :
    (p : Bytes) → ltb (get_or p 0 0) 0x80 ≡ true → repair_item p ≡ (get_or p 0 0 ∷ [], 1)
unfolding repair_item
repair_item-ascii p e = rw (repair_item, e) refl

repair_item-stray :
    (p : Bytes)
    → ltb (get_or p 0 0) 0x80 ≡ false
    → (utf8_sequence_length p == 0) ≡ true
    → repair_item p ≡ (0xef ∷ 0xbf ∷ 0xbd ∷ [], 1)
unfolding repair_item
repair_item-stray p e f = rw (repair_item, e, f) refl

repair_item-sequence :
    (p : Bytes)
    → ltb (get_or p 0 0) 0x80 ≡ false
    → (utf8_sequence_length p == 0) ≡ false
    → repair_item p ≡ (take (utf8_sequence_length p) p, utf8_sequence_length p)
unfolding repair_item
repair_item-sequence p e f = rw (repair_item, e, f) refl

-- A piece that stands for what the text should, and how many of the bytes are dealt with.
abbrev pub Fine : Bytes → Bytes × ℕ → Type 0
Fine p x =
    Piece x.0 (repair_item p).0
    × (x.1 ≡ (repair_item p).1)
    × (1 ≤ x.1)
    × (x.1 ≤ length p)
    × (length x.0 ≤ 6 * x.1)

High-length : (n : ℕ) (p : Bytes) → High n p → n ≤ length p
unfolding High
High-length zero p h = omega arith
High-length (suc n) [] h = omega arith
High-length (suc n) (c ∷ p) h = omega (arith, High-length n p h.1)

take_within : (n : ℕ) (p : Bytes) → length (take n p) ≤ n
take_within zero p = omega arith
take_within (suc n) [] = omega arith
take_within (suc n) (c ∷ p) = omega (arith, take_within n p)

if-Fine :
    (p : Bytes) (b : Bool) (x y : Bytes × ℕ)
    → (b ≡ true → Fine p x)
    → (b ≡ false → Fine p y)
    → Fine p (if b then x else y)
if-Fine p true x y h k = h refl
if-Fine p false x y h k = k refl

-- A byte below 0x80 in one round.
ascii-Fine :
    (a : ℕ) (q x : Bytes) → a < 0x80 → Piece x (a ∷ []) → length x ≤ 6 → Fine (a ∷ q) (x, 1)
ascii-Fine a q x low piece few =
    let e : ltb a 0x80 ≡ true = ground arith in
    rw (repair_item-ascii (a ∷ q) e) (piece, refl, omega arith, omega arith, omega arith)

letter-Fine :
    (a d l : ℕ) (q : Bytes)
    → d < 0x80
    → scan_step escape l ≡ gives (d ∷ [])
    → (a == d) ≡ true
    → Fine (a ∷ q) (92 ∷ l ∷ [], 1)
letter-Fine a d l q low is e =
    let same : a ≡ d = (==_iff a d).0 e in
    ascii-Fine a q (92 ∷ l ∷ []) (omega arith)
      (letter l (a ∷ []) (is ∙ ap (λ c. gives (c ∷ [])) (sym same))) (omega arith)

hex_number-hex_digit : (n : ℕ) → n < 16 → hex_number (hex_digit n) ≡ n
hex_number-hex_digit n h = ground arith

character-low : (c : ℕ) → c < 0x80 → character c ≡ gives (c ∷ [])
unfolding character utf8_encode
character-low c h = let e : leb c 0x7f ≡ true = ground arith in rw (character, utf8_encode, e) refl

control-Fine :
    (a : ℕ) (q : Bytes)
    → (ltb a 0x20 || a == 0x7f) ≡ true
    → Fine (a ∷ q) (92 ∷ 117 ∷ 48 ∷ 48 ∷ hex_digit (a / 16) ∷ hex_digit (a % 16) ∷ [], 1)
control-Fine a q e =
    let small : a < 0x80 = ground arith in
    let high_digit = hex_number-hex_digit (a / 16) (omega arith) in
    let low_digit = hex_number-hex_digit (a % 16) (omega arith) in
    let number : four_digits 48 48 (hex_digit (a / 16)) (hex_digit (a % 16)) ≡ a =
      rw (high_digit, low_digit) (omega arith) in
    ascii-Fine a q _ small
      (code 48 48 (hex_digit (a / 16)) (hex_digit (a % 16)) (a ∷ []) refl refl
        (hex_digit-hex (a / 16) (omega arith)) (hex_digit-hex (a % 16) (omega arith))
        (ap character number ∙ character-low a small))
      (omega arith)

-- A byte from 0x80 on.
high-Fine :
    (a : ℕ) (q : Bytes)
    → 0x80 ≤ a
    → let p = a ∷ q in
      let n = utf8_sequence_length p in
      Fine p (if n == 0 then (92 ∷ 117 ∷ 102 ∷ 102 ∷ 102 ∷ 100 ∷ [], 1) else (take n p, n))
unfolding character utf8_encode
high-Fine a q h =
    let p = a ∷ q in
    let n = utf8_sequence_length p in
    let e : ltb a 0x80 ≡ false = ground arith in
    elim (Bool-cases (n == 0)) [
      | inl none_there ↦
          rw (none_there, repair_item-stray p e none_there)
            (
              code 102 102 102 100 _ refl refl refl refl refl,
              refl,
              omega arith,
              omega arith,
              omega arith,
            )
      | inr some_bytes ↦
          rw (some_bytes, repair_item-sequence p e some_bytes)
            (
              high (take n p) (take-Plain n p (sequence-High p)),
              refl,
              ground arith,
              High-length n p (sequence-High p),
              omega (arith, take_within n p),
            )
    ]

pub json_piece-Fine : (a : ℕ) (q : Bytes) → Fine (a ∷ q) (json_piece (a ∷ q))
unfolding json_piece scan_step
json_piece-Fine a q =
    let p = a ∷ q in
    if-Fine p (a == 34) _ _ (letter-Fine a 34 34 q (omega arith) refl) (λ no_quote.
      if-Fine p (a == 92) _ _ (letter-Fine a 92 92 q (omega arith) refl) (λ no_backslash.
        if-Fine p (a == 8) _ _ (letter-Fine a 8 98 q (omega arith) refl) (λ _.
          if-Fine p (a == 12) _ _ (letter-Fine a 12 102 q (omega arith) refl) (λ _.
            if-Fine p (a == 10) _ _ (letter-Fine a 10 110 q (omega arith) refl) (λ _.
              if-Fine p (a == 13) _ _ (letter-Fine a 13 114 q (omega arith) refl) (λ _.
                if-Fine p (a == 9) _ _ (letter-Fine a 9 116 q (omega arith) refl) (λ _.
                  if-Fine p (ltb a 0x20 || a == 0x7f) _ _ (control-Fine a q) (λ printable.
                    if-Fine p (leb 0x80 a) _ _ (λ e. high-Fine a q (ground arith))
                      (λ low.
                        ascii-Fine a q (a ∷ []) (ground arith)
                          (plain a (body-gives a (ground arith) no_quote no_backslash))
                          (omega arith))))))))))

-- A character that `utf8_valid_string` takes off is kept.
repair_item-kept :
    (c : ℕ) (p rest : Bytes)
    → string_item (c ∷ p) ≡ some rest
    → let (out, n) = repair_item (c ∷ p) in
      (drop n (c ∷ p) ≡ rest) × (out ++ rest ≡ c ∷ p) × (length rest ≤ length p)
unfolding string_item
repair_item-kept c p rest e =
    let q = c ∷ p in
    let n = utf8_sequence_length q in
    elim (Bool-cases (ltb c 0x80)) [
      | inl low ↦ rw (repair_item-ascii q low) (ground arith, ground arith, ground arith)
      | inr h ↦ elim (Bool-cases (n == 0)) [
        | inl zero_bytes ↦ absurd (ground arith)
        | inr some_bytes ↦
            let is : rest ≡ drop n q = ground arith in
            let left = length-drop n q in
            let positive : 0 < n = ground arith in
            rw (repair_item-sequence q h some_bytes) (
              sym is,
              ap (λ t. take n q ++ t) is ∙ take-append-drop n q,
              omega (arith, ap length is),
            )
      ]
    ]

module _ (fuel c : ℕ) (p : Bytes) where
  valid_string_rounds-refuses :
      (c == 0) ≡ false → string_item (c ∷ p) ≡ none → valid_string_rounds (suc fuel) (c ∷ p) ≡ false
  unfolding valid_string_rounds
  valid_string_rounds-refuses some_byte e = rw (valid_string_rounds, some_byte, e) refl

  valid_string_rounds-goes :
      (rest : Bytes)
      → (c == 0) ≡ false
      → string_item (c ∷ p) ≡ some rest
      → valid_string_rounds (suc fuel) (c ∷ p) ≡ valid_string_rounds fuel rest
  unfolding valid_string_rounds
  valid_string_rounds-goes rest some_byte e = rw (valid_string_rounds, some_byte, e) refl

true-not-false : ¬ (true ≡ false)
true-not-false e = cc

-- A text that `utf8_valid_string` accepts needs no repair.
pub repair_rounds-valid :
    (fuel : ℕ) (p : Bytes)
    → length p ≤ fuel
    → IsText p
    → valid_string_rounds fuel p ≡ true
    → repair_rounds fuel p ≡ p
unfolding repair_rounds
repair_rounds-valid zero [] few text valid = refl
repair_rounds-valid zero (c ∷ p) few text valid = absurd (omega arith)
repair_rounds-valid (suc fuel) [] few text valid = refl
repair_rounds-valid (suc fuel) (c ∷ p) few text valid =
    let some_byte : (c == 0) ≡ false = let z = text.0 in ground arith in
    elim (Option-cases (string_item (c ∷ p))) [
      | inl e ↦
          absurd (true-not-false (sym valid ∙ valid_string_rounds-refuses fuel c p some_byte e))
      | inr (rest, e) ↦
          let (left, whole, shorter) = repair_item-kept c p rest e in
          let is = valid_string_rounds-goes fuel c p rest some_byte e in
          rw
            (
              left,
              repair_rounds-valid fuel rest (omega arith) (string_item-IsText c p rest text e)
                  (sym is ∙ valid),
            )
            whole
    ]
