-- ===== src/Text/Utf8/Agree.antt =====
-- `utf8_valid` beside `utf8_valid_string`.
use native.Mathlib.Decide.{dec_lt}
use openwrt_nes_emulator.Base.{
  IsText, drop-IsText, false, ◌==◌, ℕ, zero, suc, ◌<◌, ◌≤◌, ◌≡◌, ◌⊎◌, inl, inr, refl, sym, ◌∙◌, [],
  ◌∷◌, none, some, arith, Bytes, length, drop, get_or, ltb, Option-cases, Bool-cases, length-drop,
}
use openwrt_nes_emulator.Text.Utf8.{
  utf8_sequence_length, string_item, valid_string_rounds, utf8_valid_string, continue_value,
  finish_value, valid_item, valid_rounds, utf8_valid,
}
use openwrt_nes_emulator.Text.Utf8.Item.{
  IsBytes, no_two, no_three, no_four, two_bytes_lem, three_bytes_lem, four_bytes_lem,
  string_item-two, string_item-three, string_item-four, string_item-no_lead, valid_item-no_lead,
  valid_item-two, valid_item-three, valid_item-four,
}

-- The class of a first byte.
pub data Lead (c : ℕ) : Type 0 where
  ascii : c < 0x80 → Lead c
  stray : 0x80 ≤ c → (c ≤ 0xbf) ⊎ (0xf8 ≤ c) → Lead c
  two : 0xc0 ≤ c → c ≤ 0xdf → Lead c
  three : 0xe0 ≤ c → c ≤ 0xef → Lead c
  four : 0xf0 ≤ c → c ≤ 0xf7 → Lead c

pub Lead-of : (c : ℕ) → Lead c
Lead-of c = elim (dec_lt c 0x80) [
  | yes h ↦ ascii h
  | no h ↦ elim (dec_lt c 0xc0) [
    | yes k ↦ stray (omega arith) (inl (omega arith))
    | no k ↦ elim (dec_lt c 0xe0) [
      | yes l ↦ two (omega arith) (omega arith)
      | no l ↦ elim (dec_lt c 0xf0) [
        | yes m ↦ three (omega arith) (omega arith)
        | no m ↦ elim (dec_lt c 0xf8) [
          | yes n ↦ four (omega arith) (omega arith)
          | no n ↦ stray (omega arith) (inr (omega arith))
        ]
      ]
    ]
  ]
]

valid_item-ascii : (c : ℕ) (rest : Bytes) → c < 0x80 → valid_item c rest ≡ string_item (c ∷ rest)
unfolding valid_item string_item
valid_item-ascii c rest h = ground arith

-- Too few bytes behind the lead byte.
module _ (c : ℕ) where
  pub short_two : 0xc0 ≤ c → c ≤ 0xdf → (valid_item c [] ≡ none) × (string_item (c ∷ []) ≡ none)
  unfolding string_item utf8_sequence_length valid_item continue_value finish_value
  short_two lo hi =
      (ground arith, ground (arith, two_bytes_lem c 0, no_three c 0 0, no_four c 0 0 0))

  pub short_three :
      (rest : Bytes)
      → 0xe0 ≤ c
      → c ≤ 0xef
      → length rest < 2
      → (valid_item c rest ≡ none) × (string_item (c ∷ rest) ≡ none)
  unfolding string_item utf8_sequence_length valid_item continue_value finish_value
  short_three [] lo hi h =
      (ground arith, ground (arith, no_two c 0, three_bytes_lem c 0 0, no_four c 0 0 0))
  short_three (b ∷ []) lo hi h =
      (ground arith, ground (arith, no_two c b, three_bytes_lem c b 0, no_four c b 0 0))
  short_three (b ∷ d ∷ rest) lo hi h = absurd (omega arith)

  pub short_four :
      (rest : Bytes)
      → 0xf0 ≤ c
      → c ≤ 0xf7
      → length rest < 3
      → (valid_item c rest ≡ none) × (string_item (c ∷ rest) ≡ none)
  unfolding string_item utf8_sequence_length valid_item continue_value finish_value
  short_four [] lo hi h =
      (ground arith, ground (arith, no_two c 0, no_three c 0 0, four_bytes_lem c 0 0 0))
  short_four (b ∷ []) lo hi h =
      (ground arith, ground (arith, no_two c b, no_three c b 0, four_bytes_lem c b 0 0))
  short_four (b ∷ d ∷ []) lo hi h =
      (ground arith, ground (arith, no_two c b, no_three c b d, four_bytes_lem c b d 0))
  short_four (b ∷ d ∷ e ∷ rest) lo hi h = absurd (omega arith)

-- The two validators take the same character off a text of bytes, or both refuse it.
pub valid_item-eq-string_item :
    (c : ℕ) (rest : Bytes) → c < 256 → IsBytes rest → valid_item c rest ≡ string_item (c ∷ rest)
valid_item-eq-string_item c rest h bytes = by_lead c rest h bytes (Lead-of c)
  where
    by_lead :
        (c : ℕ) (rest : Bytes)
        → c < 256
        → IsBytes rest
        → Lead c
        → valid_item c rest ≡ string_item (c ∷ rest)
    by_lead c rest h bytes (ascii lt) = valid_item-ascii c rest lt
    by_lead c rest h bytes (stray lo k) =
        valid_item-no_lead c rest h lo k ∙ sym (string_item-no_lead c rest lo k)
    by_lead c [] h bytes (two lo hi) = let (a, b) = short_two c lo hi in a ∙ sym b
    by_lead c (b1 ∷ rest) h bytes (two lo hi) =
        valid_item-two c b1 rest lo hi bytes.0 ∙ sym (string_item-two c b1 rest lo hi)
    by_lead c [] h bytes (three lo hi) =
        let (a, b) = short_three c [] lo hi (omega arith) in a ∙ sym b
    by_lead c (b1 ∷ []) h bytes (three lo hi) =
        let (a, b) = short_three c (b1 ∷ []) lo hi (omega arith) in a ∙ sym b
    by_lead c (b1 ∷ b2 ∷ rest) h bytes (three lo hi) =
        valid_item-three c b1 b2 rest lo hi bytes.0 bytes.1.0
        ∙ sym (string_item-three c b1 b2 rest lo hi)
    by_lead c [] h bytes (four lo hi) =
        let (a, b) = short_four c [] lo hi (omega arith) in a ∙ sym b
    by_lead c (b1 ∷ []) h bytes (four lo hi) =
        let (a, b) = short_four c (b1 ∷ []) lo hi (omega arith) in a ∙ sym b
    by_lead c (b1 ∷ b2 ∷ []) h bytes (four lo hi) =
        let (a, b) = short_four c (b1 ∷ b2 ∷ []) lo hi (omega arith) in a ∙ sym b
    by_lead c (b1 ∷ b2 ∷ b3 ∷ rest) h bytes (four lo hi) =
        valid_item-four c b1 b2 b3 rest lo hi bytes.0 bytes.1.0 bytes.1.1.0
        ∙ sym (string_item-four c b1 b2 b3 rest lo hi)

drop-IsBytes : (n : ℕ) (p : Bytes) → IsBytes p → IsBytes (drop n p)
drop-IsBytes zero p h = h
drop-IsBytes (suc n) [] h = tt
drop-IsBytes (suc n) (c ∷ p) h = drop-IsBytes n p h.1

-- What is left after a character is the text without its first bytes.
string_item-drop :
    (p : Bytes) (rest : Bytes) → string_item p ≡ some rest → (k : ℕ) × (0 < k) × (rest ≡ drop k p)
unfolding string_item
string_item-drop p rest e = elim (Bool-cases (ltb (get_or p 0 0) 0x80)) [
  | inl a ↦ (1, omega arith, ground arith)
  | inr a ↦ (utf8_sequence_length p, ground arith, ground arith)
]

-- A character taken leaves a shorter text of bytes.
pub string_item-shorter :
    (c : ℕ) (p : Bytes) (rest : Bytes)
    → IsBytes (c ∷ p)
    → string_item (c ∷ p) ≡ some rest
    → IsBytes rest × (length rest ≤ length p)
string_item-shorter c p rest h e =
    let (k, pos, is) = string_item-drop (c ∷ p) rest e in
    rw is (drop-IsBytes k (c ∷ p) h, omega (arith, length-drop k (c ∷ p)))

pub string_item-IsText :
    (c : ℕ) (p : Bytes) (rest : Bytes)
    → IsText (c ∷ p)
    → string_item (c ∷ p) ≡ some rest
    → IsText rest
string_item-IsText c p rest h e =
    let (k, pos, is) = string_item-drop (c ∷ p) rest e in rw is (drop-IsText k (c ∷ p) h)

valid_rounds-eq :
    (fuel : ℕ) (p : Bytes) → IsBytes p → IsText p → valid_rounds fuel p ≡ valid_string_rounds fuel p
unfolding valid_rounds valid_string_rounds
valid_rounds-eq zero p h text = refl
valid_rounds-eq (suc fuel) [] h text = refl
valid_rounds-eq (suc fuel) (c ∷ p) h text =
    let some_byte : (c == 0) ≡ false = let z = text.0 in ground arith in
    let same = valid_item-eq-string_item c p h.0 h.1 in
    elim (Option-cases (string_item (c ∷ p))) [
      | inl e ↦ rw (valid_rounds, valid_string_rounds, some_byte, same, e) refl
      | inr (rest, e) ↦
          rw (valid_rounds, valid_string_rounds, some_byte, same, e)
            (valid_rounds-eq fuel rest (string_item-shorter c p rest h e).0
              (string_item-IsText c p rest text e))
    ]

-- On a text of bytes without a byte 0, which ends a C string, the two validators agree.
pub utf8_valid-eq-utf8_valid_string :
    (p : Bytes) → IsBytes p → IsText p → utf8_valid p ≡ utf8_valid_string p
unfolding utf8_valid utf8_valid_string
utf8_valid-eq-utf8_valid_string p h text = valid_rounds-eq (length p) p h text
