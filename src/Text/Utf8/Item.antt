-- ===== src/Text/Utf8/Item.antt =====
-- One character at a time, as the validators take it off a text.
use openwrt_nes_emulator.Base.{
  ℕ, suc, ◌+◌, ◌*◌, ◌/◌, ◌%◌, ◌<◌, ◌≤◌, ◌≡◌, ◌⊎◌, refl, Bool, true, false, not, ◌&&◌, ◌||◌, ◌∷◌,
  none, some, arith, Bytes, All, get_or, ltb, ◌==◌, within, if◌then◌else◌,
}
use openwrt_nes_emulator.Text.Utf8.{
  two_bytes, three_bytes, four_bytes, utf8_sequence_length, string_item, continue_value,
  finish_value, valid_item, surrogate,
}

-- Every entry is a byte.
abbrev pub IsBytes : Bytes → Type 0
IsBytes = All (λ b. b < 256)

-- The byte ranges that the masks of `utf8_valid` stand for.
continuation-range : (b : ℕ) → b < 256 → (b / 64 == 2) ≡ within 0x80 0xbf b
continuation-range b h = ground arith

-- What the shortest-form, range and surrogate tests on a value of two, three or four bytes say of
-- the first two bytes.
refused : ℕ → ℕ → Bool
refused minimum value = ltb value minimum || ltb 0x10ffff value || surrogate value

refused-two :
    (c b1 : ℕ)
    → 0xc0 ≤ c
    → c ≤ 0xdf
    → within 0x80 0xbf b1 ≡ true
    → refused 0x80 (c % 32 * 64 + b1 % 64) ≡ ltb c 0xc2
unfolding refused
refused-two c b1 lo hi h1 = ground arith

refused-three :
    (c b1 b2 : ℕ)
    → 0xe0 ≤ c
    → c ≤ 0xef
    → within 0x80 0xbf b1 ≡ true
    → within 0x80 0xbf b2 ≡ true
    → refused 0x800 ((c % 16 * 64 + b1 % 64) * 64 + b2 % 64)
      ≡ ((c == 0xe0 && ltb b1 0xa0) || (c == 0xed && ltb 0x9f b1))
unfolding refused
refused-three c b1 b2 lo hi h1 h2 = ground arith

refused-four :
    (c b1 b2 b3 : ℕ)
    → 0xf0 ≤ c
    → c ≤ 0xf7
    → within 0x80 0xbf b1 ≡ true
    → within 0x80 0xbf b2 ≡ true
    → within 0x80 0xbf b3 ≡ true
    → refused 0x10000 (((c % 8 * 64 + b1 % 64) * 64 + b2 % 64) * 64 + b3 % 64)
      ≡ ((c == 0xf0 && ltb b1 0x90) || ltb 0xf4 c || (c == 0xf4 && ltb 0x8f b1))
unfolding refused
refused-four c b1 b2 b3 lo hi h1 h2 h3 = ground arith

abbrev pub tail_byte : ℕ → Bool
tail_byte = within 0x80 0xbf

-- The three conditions at a lead byte of each class.
pub no_two : (c b1 : ℕ) → (c < 0xc0) ⊎ (0xe0 ≤ c) → two_bytes c b1 ≡ false
unfolding two_bytes
no_two c b1 h = ground arith

pub no_three : (c b1 b2 : ℕ) → (c < 0xe0) ⊎ (0xf0 ≤ c) → three_bytes c b1 b2 ≡ false
unfolding three_bytes
no_three c b1 b2 h = ground arith

pub no_four : (c b1 b2 b3 : ℕ) → (c < 0xf0) ⊎ (0xf8 ≤ c) → four_bytes c b1 b2 b3 ≡ false
unfolding four_bytes
no_four c b1 b2 b3 h = ground arith

pub two_bytes_lem :
    (c b1 : ℕ) → 0xc0 ≤ c → c ≤ 0xdf → two_bytes c b1 ≡ (tail_byte b1 && not (ltb c 0xc2))
unfolding two_bytes
two_bytes_lem c b1 lo hi = ground arith

pub three_bytes_lem :
    (c b1 b2 : ℕ)
    → 0xe0 ≤ c
    → c ≤ 0xef
    → three_bytes c b1 b2 ≡ (
        tail_byte b1
        && tail_byte b2
        && not ((c == 0xe0 && ltb b1 0xa0) || (c == 0xed && ltb 0x9f b1)))
unfolding three_bytes
three_bytes_lem c b1 b2 lo hi = ground arith

pub four_bytes_lem :
    (c b1 b2 b3 : ℕ)
    → 0xf0 ≤ c
    → c ≤ 0xf7
    → four_bytes c b1 b2 b3 ≡ (
        tail_byte b1
        && tail_byte b2
        && tail_byte b3
        && not ((c == 0xf0 && ltb b1 0x90) || ltb 0xf4 c || (c == 0xf4 && ltb 0x8f b1)))
unfolding four_bytes
four_bytes_lem c b1 b2 b3 lo hi = ground arith

pub string_item-two :
    (c b1 : ℕ) (rest : Bytes)
    → 0xc0 ≤ c
    → c ≤ 0xdf
    → string_item (c ∷ b1 ∷ rest) ≡ (if two_bytes c b1 then some rest else none)
unfolding string_item utf8_sequence_length
string_item-two c b1 rest lo hi =
    ground
      (arith, no_three c b1 (get_or rest 0 0), no_four c b1 (get_or rest 0 0) (get_or rest 1 0))

pub string_item-three :
    (c b1 b2 : ℕ) (rest : Bytes)
    → 0xe0 ≤ c
    → c ≤ 0xef
    → string_item (c ∷ b1 ∷ b2 ∷ rest) ≡ (if three_bytes c b1 b2 then some rest else none)
unfolding string_item utf8_sequence_length
string_item-three c b1 b2 rest lo hi =
    ground (arith, no_two c b1, no_four c b1 b2 (get_or rest 0 0))

pub string_item-four :
    (c b1 b2 b3 : ℕ) (rest : Bytes)
    → 0xf0 ≤ c
    → c ≤ 0xf7
    → string_item (c ∷ b1 ∷ b2 ∷ b3 ∷ rest) ≡ (if four_bytes c b1 b2 b3 then some rest else none)
unfolding string_item utf8_sequence_length
string_item-four c b1 b2 b3 rest lo hi = ground (arith, no_two c b1, no_three c b1 b2)

finish_value_lem :
    (minimum value : ℕ) (rest : Bytes)
    → finish_value minimum (some (value, rest))
      ≡ (if refused minimum value then none else some rest)
unfolding finish_value refused
finish_value_lem minimum value rest = ground arith

module _ (c : ℕ) (rest : Bytes) where
  pub valid_item-lead_two :
      0xc0 ≤ c → c ≤ 0xdf → valid_item c rest ≡ finish_value 0x80 (continue_value 1 (c % 32) rest)
  unfolding valid_item
  valid_item-lead_two lo hi = ground arith

  pub valid_item-lead_three :
      0xe0 ≤ c → c ≤ 0xef → valid_item c rest ≡ finish_value 0x800 (continue_value 2 (c % 16) rest)
  unfolding valid_item
  valid_item-lead_three lo hi = ground arith

  pub valid_item-lead_four :
      0xf0 ≤ c → c ≤ 0xf7 → valid_item c rest ≡ finish_value 0x10000 (continue_value 3 (c % 8) rest)
  unfolding valid_item
  valid_item-lead_four lo hi = ground arith

  -- A byte that leads nothing.
  pub valid_item-no_lead : c < 256 → 0x80 ≤ c → (c ≤ 0xbf) ⊎ (0xf8 ≤ c) → valid_item c rest ≡ none
  unfolding valid_item
  valid_item-no_lead h lo k = ground arith

  pub string_item-no_lead : 0x80 ≤ c → (c ≤ 0xbf) ⊎ (0xf8 ≤ c) → string_item (c ∷ rest) ≡ none
  unfolding string_item utf8_sequence_length
  string_item-no_lead lo k = ground (
    arith,
    no_two c (get_or rest 0 0),
    no_three c (get_or rest 0 0) (get_or rest 1 0),
    no_four c (get_or rest 0 0) (get_or rest 1 0) (get_or rest 2 0),
  )

continue_one :
    (value b1 : ℕ) (rest : Bytes)
    → b1 < 256
    → continue_value 1 value (b1 ∷ rest)
      ≡ (if tail_byte b1 then some (value * 64 + b1 % 64, rest) else none)
unfolding continue_value
continue_one value b1 rest h = ground (arith, continuation-range b1)

finish_none : (minimum : ℕ) → finish_value minimum none ≡ none
unfolding finish_value
finish_none minimum = refl

continue_more :
    (need value b1 : ℕ) (rest : Bytes)
    → b1 < 256
    → continue_value (suc need) value (b1 ∷ rest)
      ≡ (if tail_byte b1 then continue_value need (value * 64 + b1 % 64) rest else none)
unfolding continue_value
continue_more need value b1 rest h = ground (arith, continuation-range b1)

pub valid_item-two :
    (c b1 : ℕ) (rest : Bytes)
    → 0xc0 ≤ c
    → c ≤ 0xdf
    → b1 < 256
    → valid_item c (b1 ∷ rest) ≡ (if two_bytes c b1 then some rest else none)
valid_item-two c b1 rest lo hi h1 = ground (
  arith,
  valid_item-lead_two c (b1 ∷ rest),
  continue_one (c % 32) b1 rest,
  finish_none 0x80,
  finish_value_lem 0x80 (c % 32 * 64 + b1 % 64) rest,
  refused-two c b1,
  two_bytes_lem c b1,
)

pub valid_item-three :
    (c b1 b2 : ℕ) (rest : Bytes)
    → 0xe0 ≤ c
    → c ≤ 0xef
    → b1 < 256
    → b2 < 256
    → valid_item c (b1 ∷ b2 ∷ rest) ≡ (if three_bytes c b1 b2 then some rest else none)
valid_item-three c b1 b2 rest lo hi h1 h2 = ground (
  arith,
  valid_item-lead_three c (b1 ∷ b2 ∷ rest),
  continue_more 1 (c % 16) b1 (b2 ∷ rest),
  continue_one (c % 16 * 64 + b1 % 64) b2 rest,
  finish_none 0x800,
  finish_value_lem 0x800 ((c % 16 * 64 + b1 % 64) * 64 + b2 % 64) rest,
  refused-three c b1 b2,
  three_bytes_lem c b1 b2,
)

pub valid_item-four :
    (c b1 b2 b3 : ℕ) (rest : Bytes)
    → 0xf0 ≤ c
    → c ≤ 0xf7
    → b1 < 256
    → b2 < 256
    → b3 < 256
    → valid_item c (b1 ∷ b2 ∷ b3 ∷ rest) ≡ (if four_bytes c b1 b2 b3 then some rest else none)
valid_item-four c b1 b2 b3 rest lo hi h1 h2 h3 = ground (
  arith,
  valid_item-lead_four c (b1 ∷ b2 ∷ b3 ∷ rest),
  continue_more 2 (c % 8) b1 (b2 ∷ b3 ∷ rest),
  continue_more 1 (c % 8 * 64 + b1 % 64) b2 (b3 ∷ rest),
  continue_one ((c % 8 * 64 + b1 % 64) * 64 + b2 % 64) b3 rest,
  finish_none 0x10000,
  finish_value_lem 0x10000 (((c % 8 * 64 + b1 % 64) * 64 + b2 % 64) * 64 + b3 % 64) rest,
  refused-four c b1 b2 b3,
  four_bytes_lem c b1 b2 b3,
)
