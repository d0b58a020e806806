-- ===== src/Text/Buffer/Reader.antt =====
-- A reader of JSON strings (RFC 8259, section 7; no surrogate pairs), which gives the text that a
-- string stands for, and the pieces that leave it between characters.
use mathlib.Core.List.{append_assoc}
use openwrt_nes_emulator.Base.{
  ℕ, zero, suc, ◌+◌, ◌-◌, ◌*◌, ◌≤◌, ◌<◌, ◌≡◌, refl, ap, sym, ◌∙◌, inl, inr, Bool, true, false, ◌||◌,
  [], ◌∷◌, ◌++◌, Option, none, some, Bytes, length, take, drop, get_or, ltb, ◌==◌, within,
  if◌then◌else◌, arith, Bool-cases, All,
}
use openwrt_nes_emulator.Text.Utf8.{
  utf8_sequence_length, two_bytes, three_bytes, four_bytes, utf8_encode,
}
use openwrt_nes_emulator.Text.Buffer.{hex_digit}

-- Inside a string: between characters, after a backslash, or with so many digits to come, less one,
-- and the number that those before them give.
pub data Mode : Type 0 where
  body : Mode
  escape : Mode
  digits : ℕ → ℕ → Mode

-- What a byte does: it goes on in a mode, it gives bytes of the text, it closes the string, or it
-- must not stand there.
pub data Scan : Type 0 where
  goes : Mode → Scan
  gives : Bytes → Scan
  closes : Scan
  bad : Scan

abbrev pub is_hex : ℕ → Bool
is_hex c = within 48 57 c || within 65 70 c || within 97 102 c

abbrev pub hex_number : ℕ → ℕ
hex_number c = if within 48 57 c then c - 48 else if within 65 70 c then c - 55 else c - 87

-- The character with this number, if there is one.
unfoldable pub character : ℕ → Scan
character value = if length (utf8_encode value) == 0 then bad else gives (utf8_encode value)

unfoldable pub scan_step : Mode → ℕ → Scan
scan_step body c =
    if c == 34
    then closes
    else if c == 92
    then goes escape
    else if ltb c 0x20
    then bad
    else gives (c ∷ [])
scan_step escape c =
    if c == 34 || c == 92 || c == 47
    then gives (c ∷ [])
    else if c == 98
    then gives (8 ∷ [])
    else if c == 102
    then gives (12 ∷ [])
    else if c == 110
    then gives (10 ∷ [])
    else if c == 114
    then gives (13 ∷ [])
    else if c == 116
    then gives (9 ∷ [])
    else if c == 117
    then goes (digits 3 0)
    else bad
scan_step (digits zero value) c = if is_hex c then character (value * 16 + hex_number c) else bad
scan_step (digits (suc k) value) c =
    if is_hex c then goes (digits k (value * 16 + hex_number c)) else bad

abbrev pub prefix : Bytes → Option (Bytes × Bytes) → Option (Bytes × Bytes)
prefix out none = none
prefix out (some (text, rest)) = some (out ++ text, rest)

pub prefix-prefix :
    (a b : Bytes) (o : Option (Bytes × Bytes)) → prefix a (prefix b o) ≡ prefix (a ++ b) o
prefix-prefix a b none = refl
prefix-prefix a b (some (text, rest)) = ap (λ t. some (t, rest)) (sym (append_assoc a b text))

pub prefix-nil : (o : Option (Bytes × Bytes)) → prefix [] o ≡ o
prefix-nil none = refl
prefix-nil (some (text, rest)) = refl

-- The text of a string and what follows its closing quote, if the string is well formed.
unfoldable pub scan_string : Mode → Bytes → Option (Bytes × Bytes)
scan_string m [] = none
scan_string m (c ∷ s) = elim (scan_step m c) [
  | goes m' ↦ scan_string m' s
  | gives out ↦ prefix out (scan_string body s)
  | closes ↦ some ([], s)
  | bad ↦ none
]

pub scan-goes :
    (m m' : Mode) (c : ℕ) (s : Bytes)
    → scan_step m c ≡ goes m'
    → scan_string m (c ∷ s) ≡ scan_string m' s
unfolding scan_string
scan-goes m m' c s e = rw (scan_string, e) refl

pub scan-gives :
    (m : Mode) (out : Bytes) (c : ℕ) (s : Bytes)
    → scan_step m c ≡ gives out
    → scan_string m (c ∷ s) ≡ prefix out (scan_string body s)
unfolding scan_string
scan-gives m out c s e = rw (scan_string, e) refl

pub body-gives :
    (c : ℕ) → (0x20 ≤ c) → (c == 34) ≡ false → (c == 92) ≡ false → scan_step body c ≡ gives (c ∷ [])
unfolding scan_step
body-gives c h q b = ground arith

-- Characters that stand for themselves.
abbrev pub Plain : Bytes → Type 0
Plain = All (λ c. 0x80 ≤ c)

pub scan-Plain :
    (bs s : Bytes) → Plain bs → scan_string body (bs ++ s) ≡ prefix bs (scan_string body s)
scan-Plain [] s h = sym (prefix-nil (scan_string body s))
scan-Plain (b ∷ bs) s h =
    scan-gives body (b ∷ []) b (bs ++ s) (body-gives b (omega arith) (ground arith) (ground arith))
    ∙ ap (prefix (b ∷ [])) (scan-Plain bs s h.1)
    ∙ prefix-prefix (b ∷ []) bs (scan_string body s)

-- The first `n` bytes are at least 0x80.
unfoldable pub High : ℕ → Bytes → Type 0
High zero p = Unit
High (suc n) p = (0x80 ≤ get_or p 0 0) × High n (drop 1 p)

pub take-Plain : (n : ℕ) (p : Bytes) → High n p → Plain (take n p)
unfolding High
take-Plain zero p h = tt
take-Plain (suc n) [] h = tt
take-Plain (suc n) (c ∷ p) h = (h.0, take-Plain n p h.1)

two_bytes-high : (a b : ℕ) → two_bytes a b ≡ true → (0x80 ≤ a) × (0x80 ≤ b)
unfolding two_bytes
two_bytes-high a b h = ground arith

three_bytes-high : (a b c : ℕ) → three_bytes a b c ≡ true → (0x80 ≤ a) × (0x80 ≤ b) × (0x80 ≤ c)
unfolding three_bytes
three_bytes-high a b c h = ground arith

four_bytes-high :
    (a b c d : ℕ) → four_bytes a b c d ≡ true → (0x80 ≤ a) × (0x80 ≤ b) × (0x80 ≤ c) × (0x80 ≤ d)
unfolding four_bytes
four_bytes-high a b c d h = ground arith

get_or-drop : (p : Bytes) (i : ℕ) → get_or (drop 1 p) i 0 ≡ get_or p (suc i) 0
get_or-drop [] zero = refl
get_or-drop [] (suc i) = refl
get_or-drop (c ∷ p) i = refl

High-four :
    (p : Bytes)
    → 0x80 ≤ get_or p 0 0
    → 0x80 ≤ get_or p 1 0
    → ((0x80 ≤ get_or p 2 0) → (0x80 ≤ get_or p 3 0) → High 4 p)
      × ((0x80 ≤ get_or p 2 0) → High 3 p)
      × High 2 p
unfolding High
High-four [] a b = omega arith
High-four (x ∷ []) a b = omega arith
High-four (x ∷ y ∷ []) a b = omega arith
High-four (x ∷ y ∷ z ∷ []) a b = omega arith
High-four (x ∷ y ∷ z ∷ w ∷ p) a b = omega arith

pub sequence-High : (p : Bytes) → High (utf8_sequence_length p) p
unfolding utf8_sequence_length High
sequence-High p =
    let b0 = get_or p 0 0 in
    let b1 = get_or p 1 0 in
    let b2 = get_or p 2 0 in
    let b3 = get_or p 3 0 in
    elim (Bool-cases (two_bytes b0 b1)) [
      | inl e ↦
          let (h0, h1) = two_bytes-high b0 b1 e in
          rw (utf8_sequence_length, e) (High-four p h0 h1).2
      | inr e ↦ elim (Bool-cases (three_bytes b0 b1 b2)) [
        | inl e' ↦
            let (h0, h1, h2) = three_bytes-high b0 b1 b2 e' in
            rw (utf8_sequence_length, e, e') ((High-four p h0 h1).1 h2)
        | inr e' ↦ elim (Bool-cases (four_bytes b0 b1 b2 b3)) [
          | inl e'' ↦
              let (h0, h1, h2, h3) = four_bytes-high b0 b1 b2 b3 e'' in
              rw (utf8_sequence_length, e, e', e'') ((High-four p h0 h1).0 h2 h3)
          | inr e'' ↦ rw (utf8_sequence_length, e, e', e'', High) tt
        ]
      ]
    ]

pub hex_digit-hex : (n : ℕ) → n < 16 → is_hex (hex_digit n) ≡ true
hex_digit-hex n h = ground arith

two :
    (l : ℕ) (out s : Bytes)
    → scan_step escape l ≡ gives out
    → scan_string body (92 ∷ l ∷ s) ≡ prefix out (scan_string body s)
two l out s e =
    scan-goes body escape 92 (l ∷ s) (unfold scan_step in refl) ∙ scan-gives escape out l s e

-- The number that four digits give.
abbrev pub four_digits : ℕ → ℕ → ℕ → ℕ → ℕ
four_digits a b c d =
    (((0 * 16 + hex_number a) * 16 + hex_number b) * 16 + hex_number c) * 16 + hex_number d

unicode :
    (a b c d : ℕ) (out s : Bytes)
    → is_hex a ≡ true
    → is_hex b ≡ true
    → is_hex c ≡ true
    → is_hex d ≡ true
    → character (four_digits a b c d) ≡ gives out
    → scan_string body (92 ∷ 117 ∷ a ∷ b ∷ c ∷ d ∷ s) ≡ prefix out (scan_string body s)
unicode a b c d out s ha hb hc hd e =
    let n1 = 0 * 16 + hex_number a in
    let n2 = n1 * 16 + hex_number b in
    let n3 = n2 * 16 + hex_number c in
    scan-goes body escape 92 (117 ∷ a ∷ b ∷ c ∷ d ∷ s) (unfold scan_step in refl)
    ∙ scan-goes escape (digits 3 0) 117 (a ∷ b ∷ c ∷ d ∷ s) (unfold scan_step in refl)
    ∙ scan-goes (digits 3 0) (digits 2 n1) a (b ∷ c ∷ d ∷ s) (unfold scan_step in rw ha refl)
    ∙ scan-goes (digits 2 n1) (digits 1 n2) b (c ∷ d ∷ s) (unfold scan_step in rw hb refl)
    ∙ scan-goes (digits 1 n2) (digits 0 n3) c (d ∷ s) (unfold scan_step in rw hc refl)
    ∙ scan-gives (digits 0 n3) out d s (unfold scan_step in rw hd e)

-- The pieces that a round appends, and the text that each is read as.
pub data Piece : Bytes → Bytes → Type 0 where
  letter : (l : ℕ) (out : Bytes) → scan_step escape l ≡ gives out → Piece (92 ∷ l ∷ []) out
  code :
      (a b c d : ℕ) (out : Bytes)
      → is_hex a ≡ true
      → is_hex b ≡ true
      → is_hex c ≡ true
      → is_hex d ≡ true
      → character (four_digits a b c d) ≡ gives out
      → Piece (92 ∷ 117 ∷ a ∷ b ∷ c ∷ d ∷ []) out
  high : (bs : Bytes) → Plain bs → Piece bs bs
  plain : (c : ℕ) → scan_step body c ≡ gives (c ∷ []) → Piece (c ∷ []) (c ∷ [])

pub scan-Piece :
    (bs out s : Bytes) → Piece bs out → scan_string body (bs ++ s) ≡ prefix out (scan_string body s)
scan-Piece _ _ s (letter l out e) = two l out s e
scan-Piece _ _ s (code a b c d out ha hb hc hd e) = unicode a b c d out s ha hb hc hd e
scan-Piece _ _ s (high bs h) = scan-Plain bs s h
scan-Piece _ _ s (plain c e) = scan-gives body (c ∷ []) c s e
