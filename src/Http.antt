-- ===== src/Http.antt =====
-- Names in requests (package/nes-emulator/src/http.c): `hex_value`, `url_decode_component`,
-- `is_rom_ext`, `sanitize_filename`. A C string is the list of its bytes; `none` is the result -1,
-- and otherwise the text written to `out` is returned, `out_size` being an argument.
pub mod Url
pub mod File
pub mod Auth
pub mod Request
mod Tests
use openwrt_nes_emulator.Base.{
  ℕ, zero, suc, ◌+◌, ◌-◌, ◌*◌, Bool, true, false, not, ◌&&◌, ◌||◌, List, [], ◌∷◌, Option, none,
  some, Bytes, length, drop, get_or, ltb, leb, ◌==◌, within, if◌then◌else◌, same_letters,
}

unfoldable pub hex_value : ℕ → Option ℕ
hex_value c =
    if within 48 57 c
    then some (c - 48)
    else if within 97 102 c
    then some (c - 97 + 10)
    else if within 65 70 c
    then some (c - 65 + 10)
    else none

-- The character that the byte `c` begins, with `p` behind it, and what is left.
unfoldable pub decode_unit : ℕ → Bytes → Option (ℕ × Bytes)
decode_unit c p =
    if c == 37
    then (if ltb (length p) 2 then none else elim (hex_value (get_or p 0 0)) [
      | none ↦ none
      | some hi ↦ elim (hex_value (get_or p 1 0)) [
        | none ↦ none
        | some lo ↦ some (hi * 16 + lo, drop 2 p)
      ]
    ])
    else if c == 43
    then some (32, p)
    else some (c, p)

-- A character refused, or no room for it and the terminator.
abbrev pub refused : ℕ → ℕ → ℕ → Bool
refused c o out_size = c == 0 || c == 13 || c == 10 || leb out_size (o + 1)

abbrev pub put : ℕ → Option Bytes → Option Bytes
put c none = none
put c (some out) = some (c ∷ out)

-- The loop, with `o` characters written; it has a round for each byte at most.
unfoldable pub decode_rounds : ℕ → ℕ → ℕ → Bytes → Option Bytes
decode_rounds zero o out_size p = some []
decode_rounds (suc fuel) o out_size [] = some []
decode_rounds (suc fuel) o out_size (c ∷ p) = elim (decode_unit c p) [
  | none ↦ none
  | some (v, rest) ↦ elim (refused v o out_size) [
    | true ↦ none
    | false ↦ put v (decode_rounds fuel (o + 1) out_size rest)
  ]
]

unfoldable pub url_decode_component : ℕ → Bytes → Option Bytes
url_decode_component out_size start =
    if out_size == 0 then none else decode_rounds (length start) 0 out_size start

-- The text after the last `d`, if there is one (`strrchr`, from the character after it on).
unfoldable pub after_last : ℕ → Bytes → Option Bytes
after_last d [] = none
after_last d (c ∷ s) = elim (after_last d s) [
  | some base ↦ some base
  | none ↦ if c == d then some s else none
]

unfoldable pub is_rom_ext : Bytes → Bool
is_rom_ext name = elim (after_last 46 name) [
  | none ↦ false
  | some extension ↦
      same_letters extension (110 ∷ 101 ∷ 115 ∷ [])
      || same_letters extension (102 ∷ 100 ∷ 115 ∷ [])
      || same_letters extension (117 ∷ 110 ∷ 102 ∷ [])
      || same_letters extension (117 ∷ 110 ∷ 105 ∷ 102 ∷ [])
]

abbrev pub base_of : ℕ → Bytes → Bytes
base_of d s = elim (after_last d s) [ none ↦ s | some base ↦ base ]

-- Letters, digits, `.`, `-`, `_` and the space are kept.
unfoldable pub safe_char : ℕ → ℕ
safe_char c =
    if within 65 90 c
      || within 97 122 c
      || within 48 57 c
      || c == 46
      || c == 45
      || c == 95
      || c == 32
    then c
    else 95

-- The loop, with `o` characters written.
unfoldable pub sanitize_chars : ℕ → ℕ → Bytes → Option Bytes
sanitize_chars o out_size [] = some []
sanitize_chars o out_size (c ∷ s) =
    let rest = sanitize_chars (o + 1) out_size s in
    if leb out_size (o + 1) then none else put (safe_char c) rest

-- The tests for `.` and `..` are part of the test for a dot in front.
unfoldable pub sanitize_filename : ℕ → Bytes → Option Bytes
sanitize_filename out_size input =
    if ltb out_size 2
    then none
    else elim (sanitize_chars 0 out_size (base_of 92 (base_of 47 input))) [
      | none ↦ none
      | some out ↦
          if length out == 0 || get_or out 0 0 == 46 || not (is_rom_ext out) then none else some out
    ]
