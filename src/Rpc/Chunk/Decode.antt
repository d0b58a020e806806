-- ===== src/Rpc/Chunk/Decode.antt =====
-- A chunked body as RFC 9112 (section 7.1) writes it, beside `read_chunked_body`.
use openwrt_nes_emulator.Base.{
  ℕ, zero, suc, ◌+◌, ◌-◌, ◌≤◌, ◌<◌, ◌≡◌, ◌≢◌, refl, ap, sym, ◌∙◌, true, false, List, [], ◌∷◌, ◌++◌,
  Option, none, some, Bytes, length, ltb, ◌==◌, u64_mod, arith, All, length-append,
}
use mathlib.Core.List.{append_assoc, append-nil}
use openwrt_nes_emulator.Rpc.Reader.{ok, Reader, reader_line, Body, line_max, body_max, header_max}
use openwrt_nes_emulator.Rpc.Reader.Stream.{
  InLine, unread, reader_line-unread, reader_expect_crlf-unread,
}
use openwrt_nes_emulator.Rpc.Reader.Append.{reader_append_exact-unread}
use openwrt_nes_emulator.Rpc.Chunk.{
  name_char, all_name, header_name_valid, header_field, parse_chunk_size, read_trailers, read_chunk,
  chunk_rounds, read_chunked_body,
}
use openwrt_nes_emulator.Rpc.Chunk.Size.{
  Gives, IsExtension, parse_chunk_size-digits, digits-InLine, InLine-append,
}
use openwrt_nes_emulator.Http.Request.Print.{Without, split_at-front}

-- A chunk as it is sent.
pub record Chunk : Type 0 where
  pub digits : Bytes
  pub extension : Bytes
  pub payload : Bytes

-- The trailer fields, the empty line behind them, and what follows.
unfoldable pub trailer_lines : List (Bytes × Bytes) → Bytes → Bytes
trailer_lines [] rest = 13 ∷ 10 ∷ rest
trailer_lines ((name, value) ∷ trailers) rest =
    (name ++ (58 ∷ value)) ++ (13 ∷ 10 ∷ trailer_lines trailers rest)

-- Chunks, the line of the last chunk, trailer fields, and what follows.
unfoldable pub encoded : List Chunk → Bytes → List (Bytes × Bytes) → Bytes → Bytes
encoded [] last trailers rest = last ++ (13 ∷ 10 ∷ trailer_lines trailers rest)
encoded (c ∷ chunks) last trailers rest =
    (c.digits ++ c.extension)
    ++ (13 ∷ 10 ∷ (c.payload ++ (13 ∷ 10 ∷ encoded chunks last trailers rest)))

abbrev pub concat : List Chunk → Bytes
concat [] = []
concat (c ∷ chunks) = c.payload ++ concat chunks

-- A line that gives a size, of a length that is read.
abbrev pub IsSizeLine : ℕ → Bytes → Bytes → Type 0
IsSizeLine n digits extension =
    (0 < length digits)
    × Gives 0 digits n
    × IsExtension extension
    × (length (digits ++ extension) + 2 ≤ line_max)

abbrev pub IsChunk : Chunk → Type 0
IsChunk c = (0 < length c.payload) × IsSizeLine (length c.payload) c.digits c.extension

-- A trailer field: a name, `:` and a value, on one line of a length that is read.
abbrev pub IsTrailer : Bytes × Bytes → Type 0
IsTrailer (name, value) =
    (0 < length name)
    × All (λ c. name_char c ≡ true) name
    × All InLine value
    × (length (name ++ (58 ∷ value)) + 2 ≤ line_max)

-- The bytes of the trailer fields, with the empty line behind them.
abbrev pub trailers_size : List (Bytes × Bytes) → ℕ
trailers_size [] = 2
trailers_size ((name, value) ∷ trailers) =
    length (name ++ (58 ∷ value)) + 2 + trailers_size trailers

-- The line with the size of a chunk.
size_line :
    (n : ℕ) (digits extension rest : Bytes) (r : Reader)
    → n < u64_mod
    → IsSizeLine n digits extension
    → unread r ≡ (digits ++ extension) ++ (13 ∷ 10 ∷ rest)
    → (r' : Reader) × (reader_line line_max none r
        ≡ ok (record { content = digits ++ extension; wire_total = none; rest = r' }))
      × (parse_chunk_size (digits ++ extension) ≡ some n)
      × (unread r' ≡ rest)
size_line n digits extension rest r small (some_digit, number, ext, fits) e =
    let (r', is, left) =
      reader_line-unread line_max (digits ++ extension) rest none r e
        (digits-InLine n digits extension number ext) fits tt in
    (r', is, parse_chunk_size-digits n digits extension some_digit number small ext, left)

trailers-stop :
    (fuel total : ℕ) (r r' : Reader) (total' : Option ℕ)
    → reader_line line_max (some total) r
      ≡ ok (record { content = []; wire_total = total'; rest = r' })
    → read_trailers (suc fuel) total r ≡ ok r'
unfolding read_trailers
trailers-stop fuel total r r' total' is = rw (read_trailers, is) refl

trailers-go :
    (fuel total total' : ℕ) (r r' : Reader) (line : Bytes) (field : Bytes × Bytes)
    → reader_line line_max (some total) r
      ≡ ok (record { content = line; wire_total = some total'; rest = r' })
    → 0 < length line
    → header_field line ≡ some field
    → read_trailers (suc fuel) total r ≡ read_trailers fuel total' r'
unfolding read_trailers
trailers-go fuel total total' r r' line field is some_char fine =
    let full : (length line == 0) ≡ false = ground arith in rw (read_trailers, is, full, fine) refl

name_char-fine :
    (c : ℕ)
    → name_char c ≡ true
    → (c ≢ 58) × (c ≢ 0) × (c ≢ 10) × ((c == 32) ≡ false) × ((c == 9) ≡ false)
name_char-fine c e = ground arith

names :
    (s : Bytes)
    → All (λ c. name_char c ≡ true) s
    → Without 58 s × All InLine s × (all_name s ≡ true)
names [] h = (tt, tt, refl)
names (c ∷ s) (first, rest) =
    let (no_colon, no_zero, no_line, _, _) = name_char-fine c first in
    let (without, in_line, all) = names s rest in
    ((no_colon, without), ((no_zero, no_line), in_line), rw (first, all) refl)

header_field-read :
    (name value : Bytes)
    → 0 < length name
    → All (λ c. name_char c ≡ true) name
    → header_field (name ++ (58 ∷ value)) ≡ some (name, value)
unfolding header_field header_name_valid
header_field-read [] value some_char h = absurd (omega arith)
header_field-read (c ∷ name) value some_char h =
    let (_, _, _, no_space, no_tab) = name_char-fine c h.0 in
    let (without, _, all) = names (c ∷ name) h in
    let split = split_at-front 58 (c ∷ name) value without in rw (no_space, no_tab, split, all) refl

trailer-InLine :
    (name value : Bytes)
    → All (λ c. name_char c ≡ true) name
    → All InLine value
    → All InLine (name ++ (58 ∷ value))
trailer-InLine name value h k =
    InLine-append name (58 ∷ value) (names name h).1 ((omega arith, omega arith), k)

read_trailers-lines :
    (fuel total : ℕ) (trailers : List (Bytes × Bytes)) (rest : Bytes) (r : Reader)
    → unread r ≡ trailer_lines trailers rest
    → All IsTrailer trailers
    → total + trailers_size trailers ≤ header_max
    → trailers_size trailers ≤ fuel
    → (r' : Reader) × (read_trailers fuel total r ≡ ok r') × (unread r' ≡ rest)
unfolding trailer_lines
read_trailers-lines zero total [] rest r e h room enough = absurd (omega arith)
read_trailers-lines zero total ((name, value) ∷ trailers) rest r e h room enough =
    absurd (omega arith)
read_trailers-lines (suc fuel) total [] rest r e h room enough =
    let (r', is, left) =
      reader_line-unread line_max [] rest (some total) r e tt (omega arith) room in
    (r', trailers-stop fuel total r r' (some (total + 2)) is, left)
read_trailers-lines (suc fuel) total ((name, value) ∷ trailers) rest r e
      ((some_char, chars, in_line, fits), others) room enough =
    let line = name ++ (58 ∷ value) in
    let longer = length-append name (58 ∷ value) in
    let (r1, is, left) =
      reader_line-unread line_max line (trailer_lines trailers rest) (some total) r e
        (trailer-InLine name value chars in_line) fits (omega arith) in
    let (r', done, end) =
      read_trailers-lines fuel (total + (length line + 2)) trailers rest r1 left others
        (omega arith) (omega arith) in
    (
      r',
      trailers-go fuel total (total + (length line + 2)) r r1 line (name, value) is (omega arith)
            (header_field-read name value some_char chars)
          ∙ done,
      end,
    )

read_chunk-unread :
    (bs rest : Bytes) (body : Body) (r : Reader)
    → unread r ≡ bs ++ (13 ∷ 10 ∷ rest)
    → length body.content + length bs ≤ body_max
    → (body' : Body) × (r' : Reader) × (read_chunk true (length bs) body r ≡ ok (body', r'))
      × (body'.content ≡ body.content ++ bs)
      × (unread r' ≡ rest)
unfolding read_chunk
read_chunk-unread bs rest body r e fits =
    let (body', r1, is, content, left) =
      reader_append_exact-unread bs (13 ∷ 10 ∷ rest) body r e fits in
    let (r2, crlf, end) = reader_expect_crlf-unread rest r1 left in
    (body', r2, rw (is, crlf) refl, content, end)

module _ (fuel n : ℕ) (body : Body) (r r1 : Reader) (l : Bytes) where
  module _
      (line : reader_line line_max none r
        ≡ ok (record { content = l; wire_total = none; rest = r1 }))
      (size : parse_chunk_size l ≡ some n) (fits : length body.content + n ≤ body_max) where
    rounds-chunk :
        (body' : Body) (r' : Reader)
        → 0 < n
        → read_chunk true n body r1 ≡ ok (body', r')
        → chunk_rounds (suc fuel) true body r ≡ chunk_rounds fuel true body' r'
    unfolding chunk_rounds
    rounds-chunk body' r' some_byte is =
        let small : ltb (body_max - length body.content) n ≡ false = ground arith in
        let more : (n == 0) ≡ false = ground arith in
        rw (chunk_rounds, line, size, small, more, is) refl

    rounds-last :
        (r' : Reader)
        → n ≡ 0
        → read_trailers (header_max + 1) 0 r1 ≡ ok r'
        → chunk_rounds (suc fuel) true body r ≡ ok (body, r')
    unfolding chunk_rounds
    rounds-last r' last is =
        let small : ltb (body_max - length body.content) n ≡ false = ground arith in
        let done : (n == 0) ≡ true = ground arith in
        rw (chunk_rounds, line, size, small, done, is) refl

module _ (last_digits last_extension : Bytes) (trailers : List (Bytes × Bytes)) (rest : Bytes)
    (last : IsSizeLine 0 last_digits last_extension) (fields : All IsTrailer trailers)
    (room : trailers_size trailers ≤ header_max) where
  chunk_rounds-encoded :
      (fuel : ℕ) (chunks : List Chunk) (body : Body) (r : Reader)
      → unread r ≡ encoded chunks (last_digits ++ last_extension) trailers rest
      → All IsChunk chunks
      → length body.content + length (concat chunks) ≤ body_max
      → length (concat chunks) < fuel
      → (body' : Body) × (r' : Reader) × (chunk_rounds fuel true body r ≡ ok (body', r'))
        × (body'.content ≡ body.content ++ concat chunks)
        × (unread r' ≡ rest)
  unfolding encoded
  chunk_rounds-encoded zero chunks body r e h fits enough = absurd (omega arith)
  chunk_rounds-encoded (suc fuel) [] body r e h fits enough =
      let (r1, line, size, left) =
        size_line 0 last_digits last_extension (trailer_lines trailers rest) r (omega arith) last
          e in
      let (r', done, end) =
        read_trailers-lines (header_max + 1) 0 trailers rest r1 left fields (omega arith)
          (omega arith) in
      (
        body,
        r',
        rounds-last fuel 0 body r r1 (last_digits ++ last_extension) line size (omega arith) r' refl
            done,
        sym (append-nil body.content),
        end,
      )
  chunk_rounds-encoded (suc fuel) (c ∷ chunks) body r e h fits enough =
      let bs = c.payload in
      let n = length bs in
      let total = length-append bs (concat chunks) in
      let more = encoded chunks (last_digits ++ last_extension) trailers rest in
      let (some_byte, sized) = h.0 in
      let (r1, line, size, left) =
        size_line n c.digits c.extension (bs ++ (13 ∷ 10 ∷ more)) r (omega arith) sized e in
      let (body1, r2, is, content, left2) = read_chunk-unread bs more body r1 left (omega arith) in
      let held : length body1.content ≡ length body.content + n =
        ap length content ∙ length-append body.content bs in
      let (body', r', done, whole, end) =
        chunk_rounds-encoded fuel chunks body1 r2 left2 h.1 (omega arith) (omega arith) in
      (
        body',
        r',
        rounds-chunk fuel n body r r1 (c.digits ++ c.extension) line size (omega arith) body1 r2
              some_byte is
            ∙ done,
        whole ∙ ap (λ t. t ++ concat chunks) content ∙ append_assoc body.content bs (concat chunks),
        end,
      )

-- A chunked body, with sizes in hexadecimal digits of either case, extensions and trailer fields, is
-- read, memory at hand, as the bytes of its chunks, in whatever pieces it comes in from the network;
-- what follows it is left unread. The chunks are not empty and have 512 KiB together at most, an
-- extension has no control character, a trailer field is a name of `name_char`s, `:` and characters
-- that are not 0 or a line feed; each line fits the line buffer, and the trailers fit the bound on
-- headers.
pub read_chunked_body-encoded :
    (chunks : List Chunk) (last_digits last_extension : Bytes) (trailers : List (Bytes × Bytes))
    (rest : Bytes) (r : Reader)
    → unread r ≡ encoded chunks (last_digits ++ last_extension) trailers rest
    → All IsChunk chunks
    → IsSizeLine 0 last_digits last_extension
    → All IsTrailer trailers
    → trailers_size trailers ≤ header_max
    → length (concat chunks) ≤ body_max
    → (body' : Body) × (r' : Reader) × (read_chunked_body true
          (record { content = []; capacity = 0 })
          r
        ≡ ok (body', r'))
      × (body'.content ≡ concat chunks)
      × (unread r' ≡ rest)
unfolding read_chunked_body
read_chunked_body-encoded chunks last_digits last_extension trailers rest r e h last fields room
      fits =
    chunk_rounds-encoded last_digits last_extension trailers rest last fields room (body_max + 1)
      chunks (record { content = []; capacity = 0 }) r e h (omega arith) (omega arith)
