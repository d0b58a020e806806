-- ===== src/Rpc/Chunk.antt =====
-- `header_name_valid`, `parse_chunk_size` and `read_chunked_body` of
-- package/nes-emulator/src/rpc_client.c. A line is the list of its characters, none of which is 0.
pub mod Size
pub mod Decode
use openwrt_nes_emulator.Base.{
  ℕ, zero, suc, ◌+◌, ◌-◌, ◌*◌, ◌/◌, Bool, true, false, not, ◌&&◌, ◌||◌, [], ◌∷◌, ◌++◌, Option, none,
  some, Bytes, length, get_or, ltb, leb, ◌==◌, within, if◌then◌else◌, u64_mod, split_at,
}
use openwrt_nes_emulator.Rpc.Reader.{
  Outcome, ok, err, eproto, efbig, out_of_rounds, bind, Reader, Line, reader_line,
  reader_expect_crlf, Body, reader_append_exact, line_max, body_max, header_max,
}

-- `isxdigit` and the value of such a character
abbrev pub is_xdigit : ℕ → Bool
is_xdigit c = within 48 57 c || within 65 70 c || within 97 102 c

abbrev pub xdigit_value : ℕ → ℕ
xdigit_value c = if within 48 57 c then c - 48 else if within 65 70 c then c - 55 else c - 87

-- What stands behind the digits: nothing, or an extension with no control character.
unfoldable pub extension_valid : Bytes → Bool
extension_valid [] = true
extension_valid (c ∷ s) = not (ltb c 0x20 || c == 0x7f) && extension_valid s

unfoldable pub chunk_rest : Bool → ℕ → Bytes → Option ℕ
unfolding extension_valid
chunk_rest saw_digit value s =
    if not saw_digit || not (length s == 0 || get_or s 0 0 == 59)
    then none
    else if extension_valid s
    then some value
    else none

-- The loop over the digits.
unfoldable pub chunk_loop : Bool → ℕ → Bytes → Option ℕ
unfolding chunk_rest
chunk_loop saw_digit value [] = chunk_rest saw_digit value []
chunk_loop saw_digit value (c ∷ s) =
    let digit = xdigit_value c in
    let rest = chunk_loop true (value * 16 + digit) s in
    if not (is_xdigit c)
    then chunk_rest saw_digit value (c ∷ s)
    else if ltb ((u64_mod - 1 - digit) / 16) value
    then none
    else rest

unfoldable pub parse_chunk_size : Bytes → Option ℕ
parse_chunk_size line = chunk_loop false 0 line

-- `isalnum`, and the characters of `!#$%&'*+-.^_` with the grave accent, `|` and `~`
abbrev pub is_alnum : ℕ → Bool
is_alnum c = within 48 57 c || within 65 90 c || within 97 122 c

abbrev pub name_char : ℕ → Bool
name_char c =
    is_alnum c
    || c == 33
    || within 35 39 c
    || c == 42
    || c == 43
    || c == 45
    || c == 46
    || within 94 96 c
    || c == 124
    || c == 126

abbrev pub all_name : Bytes → Bool
all_name [] = true
all_name (c ∷ s) = name_char c && all_name s

unfoldable pub header_name_valid : Bytes → Bool
header_name_valid [] = false
header_name_valid (c ∷ s) = all_name (c ∷ s)

-- A line that is a header field; the tests on its first character, its colon and its name.
unfoldable pub header_field : Bytes → Option (Bytes × Bytes)
unfolding header_name_valid
header_field line =
    if get_or line 0 0 == 32 || get_or line 0 0 == 9 then none else elim (split_at 58 line) [
      | none ↦ none
      | some (name, value) ↦ if header_name_valid name then some (name, value) else none
    ]

-- The trailers behind the last chunk; each has two bytes at least, of `RPC_HEADER_MAX` in all.
unfoldable pub read_trailers : ℕ → ℕ → Reader → Outcome Reader
read_trailers zero total r = err out_of_rounds
read_trailers (suc fuel) total r = elim (reader_line line_max (some total) r) [
  | err e ↦ err e
  | ok l ↦ elim (length l.content == 0) [
    | true ↦ ok l.rest
    | false ↦ elim (header_field l.content) [
      | none ↦ err eproto
      | some _ ↦ read_trailers fuel (elim l.wire_total [ none ↦ total | some n ↦ n ]) l.rest
    ]
  ]
]

-- A chunk behind the line with its size.
unfoldable pub read_chunk : Bool → ℕ → Body → Reader → Outcome (Body × Reader)
read_chunk memory size body r =
    bind (reader_append_exact memory size body r)
      λ (body', r1). bind (reader_expect_crlf r1) λ r2. ok (body', r2)

-- The loop of `read_chunked_body`: each chunk but the last has a byte at least.
unfoldable pub chunk_rounds : ℕ → Bool → Body → Reader → Outcome (Body × Reader)
chunk_rounds zero memory body r = err out_of_rounds
chunk_rounds (suc fuel) memory body r = elim (reader_line line_max none r) [
  | err e ↦ err eproto
  | ok l ↦ elim (parse_chunk_size l.content) [
    | none ↦ err eproto
    | some size ↦ elim (ltb (body_max - length body.content) size) [
      | true ↦ err efbig
      | false ↦ elim (size == 0) [
        | true ↦ bind (read_trailers (header_max + 1) 0 l.rest) λ r'. ok (body, r')
        | false ↦ elim (read_chunk memory size body l.rest) [
          | err e ↦ err e
          | ok (body', r') ↦ chunk_rounds fuel memory body' r'
        ]
      ]
    ]
  ]
]

unfoldable pub read_chunked_body : Bool → Body → Reader → Outcome (Body × Reader)
unfolding chunk_rounds
read_chunked_body = chunk_rounds (body_max + 1)
