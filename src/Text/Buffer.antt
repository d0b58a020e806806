-- ===== src/Text/Buffer.antt =====
-- The bounded string buffer of package/nes-emulator/src/http.c: `struct strbuf`, `sb_init`,
-- `sb_reserve`, `sb_append_mem`, `sb_append_json_string`. `content` is the text in the buffer, without
-- its terminator; the flag `memory` says whether `malloc` and `realloc` succeed, and the Boolean
-- result is true for 0. A C string is the list of its bytes, none of which is 0.
pub mod Append
pub mod Reader
pub mod Repair
pub mod Escape
mod Tests
use openwrt_nes_emulator.Base.{
  ℕ, zero, suc, ◌+◌, ◌-◌, ◌*◌, ◌/◌, ◌%◌, Bool, true, false, not, ◌&&◌, ◌||◌, List, [], ◌∷◌, ◌++◌,
  Option, none, some, Bytes, length, take, drop, get_or, ltb, leb, ◌==◌, if◌then◌else◌,
}
use openwrt_nes_emulator.Websocket.Frame.{safe_add_size}
use openwrt_nes_emulator.Text.Utf8.{utf8_sequence_length}

pub record StrBuf : Type 0 where
  pub content : Bytes
  pub cap : ℕ
  pub max_size : ℕ
  pub failed : Bool

unfoldable pub sb_init : Bool → ℕ → ℕ → Option StrBuf
sb_init memory initial max_size =
    if initial == 0 || ltb max_size initial
    then none
    else if memory
    then some (record { content = []; cap = initial; max_size = max_size; failed = false })
    else none

-- The loop that doubles the capacity; `none` where it cannot grow. It has `need` rounds at most.
unfoldable pub grow : ℕ → ℕ → ℕ → ℕ → Option ℕ
grow zero max_size need cap = none
grow (suc fuel) max_size need cap = elim (leb need cap) [
  | true ↦ some cap
  | false ↦
      let grown = if leb cap (max_size / 2) then cap * 2 else max_size in
      elim (leb grown cap) [ true ↦ none | false ↦ grow fuel max_size need grown ]
]

-- The room needed: with the terminator, within the bound.
unfoldable pub needed : ℕ → StrBuf → Option ℕ
needed extra sb = if sb.failed then none else elim (safe_add_size (length sb.content) extra) [
  | none ↦ none
  | some n ↦ elim (safe_add_size n 1) [
    | none ↦ none
    | some need ↦ if ltb sb.max_size need then none else some need
  ]
]

abbrev pub fail : StrBuf → Bool × StrBuf
fail sb = (false, record sb { failed = true })

unfoldable pub sb_reserve : Bool → ℕ → StrBuf → Bool × StrBuf
sb_reserve memory extra sb = elim (needed extra sb) [
  | none ↦ fail sb
  | some need ↦
      if leb need sb.cap then (true, sb) else elim (grow (need + 1) sb.max_size need sb.cap) [
        | none ↦ fail sb
        | some cap ↦ if memory then (true, record sb { cap = cap }) else fail sb
      ]
]

unfoldable pub sb_append_mem : Bool → Bytes → StrBuf → Bool × StrBuf
sb_append_mem memory bytes sb =
    let (fine, sb') = sb_reserve memory (length bytes) sb in
    if fine then (true, record sb' { content = sb'.content ++ bytes }) else (false, sb')

-- A digit of `%04x`
abbrev pub hex_digit : ℕ → ℕ
hex_digit n = if ltb n 10 then 48 + n else 87 + n

-- What a round of `sb_append_json_string` appends for the text from this byte on, and how many of
-- its bytes it has then dealt with.
unfoldable pub json_piece : Bytes → Bytes × ℕ
json_piece p =
    let c = get_or p 0 0 in
    if c == 34
    then (92 ∷ 34 ∷ [], 1)
    else if c == 92
    then (92 ∷ 92 ∷ [], 1)
    else if c == 8
    then (92 ∷ 98 ∷ [], 1)
    else if c == 12
    then (92 ∷ 102 ∷ [], 1)
    else if c == 10
    then (92 ∷ 110 ∷ [], 1)
    else if c == 13
    then (92 ∷ 114 ∷ [], 1)
    else if c == 9
    then (92 ∷ 116 ∷ [], 1)
    else if ltb c 0x20 || c == 0x7f
    then (92 ∷ 117 ∷ 48 ∷ 48 ∷ hex_digit (c / 16) ∷ hex_digit (c % 16) ∷ [], 1)
    else if leb 0x80 c
    then (let n = utf8_sequence_length p in
        if n == 0 then (92 ∷ 117 ∷ 102 ∷ 102 ∷ 102 ∷ 100 ∷ [], 1) else (take n p, n))
    else (c ∷ [], 1)

-- The loop, which a byte 0 ends; it has a round for each byte at most.
unfoldable pub append_pieces : ℕ → Bool → Bytes → StrBuf → Bool × StrBuf
append_pieces zero memory p sb = (true, sb)
append_pieces (suc fuel) memory [] sb = (true, sb)
append_pieces (suc fuel) memory (c ∷ p) sb =
    let (piece, n) = json_piece (c ∷ p) in
    let (fine, sb') = sb_append_mem memory piece sb in
    elim (c == 0) [
      | true ↦ (true, sb)
      | false ↦ elim fine [
        | false ↦ (false, sb')
        | true ↦ append_pieces fuel memory (drop n (c ∷ p)) sb'
      ]
    ]

unfoldable pub sb_append_json_string : Bool → Bytes → StrBuf → Bool × StrBuf
sb_append_json_string memory text sb =
    let (opened, sb1) = sb_append_mem memory (34 ∷ []) sb in
    if opened
    then (let (fine, sb2) = append_pieces (length text) memory text sb1 in
        if fine then sb_append_mem memory (34 ∷ []) sb2 else (false, sb2))
    else (false, sb1)
