-- ===== src/Text/Utf8.antt =====
-- The UTF-8 routines of package/nes-emulator/src/http.c (`utf8_sequence_length`,
-- `utf8_valid_string`, `utf8_encode`, `utf8_valid`) and host.c (`state_label_valid_n`). A text is
-- the list of its bytes; a read past the end of a C string finds its terminator, which is 0. Masks
-- and shifts are written as remainders, quotients and sums: `(c & 0xe0) == 0xc0` at a byte is
-- `c / 32 == 6`. A loop has a round for each byte at most, which is its fuel.
pub mod Item
pub mod Encode
pub mod Agree
pub mod Decode
use openwrt_nes_emulator.Base.{
  ℕ, zero, suc, ◌+◌, ◌-◌, ◌*◌, ◌/◌, ◌%◌, Bool, true, false, not, ◌&&◌, ◌||◌, List, [], ◌∷◌, Option,
  none, some, Bytes, length, drop, get_or, ltb, leb, ◌==◌, within, if◌then◌else◌,
}

-- `codepoint >= 0xd800 && codepoint <= 0xdfff`
abbrev pub surrogate : ℕ → Bool
surrogate = within 0xd800 0xdfff

abbrev continuation : ℕ → Bool
continuation = within 0x80 0xbf

-- The conditions of `utf8_sequence_length` under which it returns 2, 3 and 4, in their order.
unfoldable pub two_bytes : ℕ → ℕ → Bool
two_bytes b0 b1 = within 0xc2 0xdf b0 && continuation b1

unfoldable pub three_bytes : ℕ → ℕ → ℕ → Bool
three_bytes b0 b1 b2 =
    (b0 == 0xe0 && within 0xa0 0xbf b1 && continuation b2)
    || ((within 0xe1 0xec b0 || within 0xee 0xef b0) && continuation b1 && continuation b2)
    || (b0 == 0xed && within 0x80 0x9f b1 && continuation b2)

unfoldable pub four_bytes : ℕ → ℕ → ℕ → ℕ → Bool
four_bytes b0 b1 b2 b3 =
    (b0 == 0xf0 && within 0x90 0xbf b1 && continuation b2 && continuation b3)
    || (within 0xf1 0xf3 b0 && continuation b1 && continuation b2 && continuation b3)
    || (b0 == 0xf4 && within 0x80 0x8f b1 && continuation b2 && continuation b3)

unfoldable pub utf8_sequence_length : Bytes → ℕ
utf8_sequence_length p =
    let b0 = get_or p 0 0 in
    let b1 = get_or p 1 0 in
    let b2 = get_or p 2 0 in
    let b3 = get_or p 3 0 in
    if two_bytes b0 b1
    then 2
    else if three_bytes b0 b1 b2
    then 3
    else if four_bytes b0 b1 b2 b3
    then 4
    else 0

-- One round of `utf8_valid_string`: what is left, or the result 0.
unfoldable pub string_item : Bytes → Option Bytes
string_item p =
    if ltb (get_or p 0 0) 0x80
    then some (drop 1 p)
    else if utf8_sequence_length p == 0
    then none
    else some (drop (utf8_sequence_length p) p)

-- The loop, which a byte 0 ends.
unfoldable pub valid_string_rounds : ℕ → Bytes → Bool
valid_string_rounds zero p = true
valid_string_rounds (suc fuel) [] = true
valid_string_rounds (suc fuel) (c ∷ p) = elim (c == 0) [
  | true ↦ true
  | false ↦ elim (string_item (c ∷ p)) [ none ↦ false | some rest ↦ valid_string_rounds fuel rest ]
]

unfoldable pub utf8_valid_string : Bytes → Bool
unfolding valid_string_rounds
utf8_valid_string text = valid_string_rounds (length text) text

-- The result 0 is the empty list.
unfoldable pub utf8_encode : ℕ → Bytes
utf8_encode cp =
    if leb cp 0x7f
    then cp ∷ []
    else if leb cp 0x7ff
    then (0xc0 + cp / 64) ∷ (0x80 + cp % 64) ∷ []
    else if surrogate cp
    then []
    else if leb cp 0xffff
    then (0xe0 + cp / 4096) ∷ (0x80 + cp / 64 % 64) ∷ (0x80 + cp % 64) ∷ []
    else if leb cp 0x10ffff
    then (0xf0 + cp / 262144)
      ∷ (0x80 + cp / 4096 % 64)
      ∷ (0x80 + cp / 64 % 64)
      ∷ (0x80 + cp % 64)
      ∷ []
    else []

-- The inner loop of `utf8_valid`: `need` continuation bytes, and the value so far. The test
-- `need > length - i` before it is the length test here.
unfoldable pub continue_value : ℕ → ℕ → Bytes → Option (ℕ × Bytes)
continue_value zero value rest = some (value, rest)
continue_value (suc need) value [] = none
continue_value (suc need) value (b ∷ rest) =
    if not (b / 64 == 2) then none else continue_value need (value * 64 + b % 64) rest

-- The tests after the inner loop.
unfoldable pub finish_value : ℕ → Option (ℕ × Bytes) → Option Bytes
finish_value minimum none = none
finish_value minimum (some (value, rest)) =
    if ltb value minimum || ltb 0x10ffff value || surrogate value then none else some rest

-- One round of `utf8_valid`: the bytes left, or the result 0.
unfoldable pub valid_item : ℕ → Bytes → Option Bytes
unfolding continue_value finish_value
valid_item c rest =
    if ltb c 0x80
    then some rest
    else if c / 32 == 6
    then finish_value 0x80 (continue_value 1 (c % 32) rest)
    else if c / 16 == 14
    then finish_value 0x800 (continue_value 2 (c % 16) rest)
    else if c / 8 == 30
    then finish_value 0x10000 (continue_value 3 (c % 8) rest)
    else none

unfoldable pub valid_rounds : ℕ → Bytes → Bool
valid_rounds zero p = true
valid_rounds (suc fuel) [] = true
valid_rounds (suc fuel) (c ∷ p) = elim (valid_item c p) [
  | none ↦ false
  | some rest ↦ valid_rounds fuel rest
]

unfoldable pub utf8_valid : Bytes → Bool
unfolding valid_rounds
utf8_valid bytes = valid_rounds (length bytes) bytes

-- The length that a lead byte of a label announces; 0 is `return false`.
unfoldable pub label_sequence : ℕ → ℕ
label_sequence first =
    if within 0xc2 0xdf first
    then 2
    else if within 0xe0 0xef first
    then 3
    else if within 0xf0 0xf4 first
    then 4
    else 0

-- The tests on the bytes behind a lead byte, in the order of the source.
unfoldable pub label_tail_valid : ℕ → ℕ → ℕ → ℕ → ℕ → Bool
label_tail_valid sequence first b1 b2 b3 =
    not (leb 2 sequence && (ltb b1 0x80 || ltb 0xbf b1))
    && not (leb 3 sequence && (ltb b2 0x80 || ltb 0xbf b2))
    && not (sequence == 4 && (ltb b3 0x80 || ltb 0xbf b3))
    && not (
        (first == 0xe0 && ltb b1 0xa0)
        || (first == 0xed && ltb 0x9f b1)
        || (first == 0xf0 && ltb b1 0x90)
        || (first == 0xf4 && ltb 0x8f b1))

-- One round of `state_label_valid_n`.
unfoldable pub label_item : ℕ → Bytes → Option Bytes
unfolding label_sequence label_tail_valid
label_item first rest =
    let n = label_sequence first in
    if ltb first 0x80
    then (if ltb first 0x20 || first == 0x7f then none else some rest)
    else if n == 0
    then none
    else if ltb (suc (length rest)) n
    then none
    else if label_tail_valid n first (get_or rest 0 0) (get_or rest 1 0) (get_or rest 2 0)
    then some (drop (n - 1) rest)
    else none

unfoldable pub label_rounds : ℕ → Bytes → Bool
label_rounds zero p = true
label_rounds (suc fuel) [] = true
label_rounds (suc fuel) (c ∷ p) = elim (label_item c p) [
  | none ↦ false
  | some rest ↦ label_rounds fuel rest
]

unfoldable pub state_label_valid_n : Bytes → Bool
unfolding label_rounds
state_label_valid_n text = label_rounds (length text) text

-- `NES_STATE_LABEL_BYTES` is 96; a missing label is `none`.
unfoldable pub state_label_valid : Option Bytes → Bool
unfolding state_label_valid_n
state_label_valid none = true
state_label_valid (some label) = ltb (length label) 96 && state_label_valid_n label
