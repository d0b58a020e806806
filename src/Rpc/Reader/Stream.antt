-- ===== src/Rpc/Reader/Stream.antt =====
-- The reader as the bytes that are still to be read, whatever pieces they come in.
use openwrt_nes_emulator.Base.{
  ℕ, zero, suc, ◌+◌, ◌-◌, ◌≤◌, ◌<◌, ◌≡◌, ◌≢◌, refl, ap, ◌∙◌, false, [], ◌∷◌, ◌++◌, Option, none,
  some, Bytes, length, take, ltb, leb, ◌==◌, arith, All, length-append, take-append,
}
use openwrt_nes_emulator.Rpc.Reader.{
  ok, Incoming, arrives, closed, broken, Reader, reader_fill, reader_ready, reader_byte, count_byte,
  cons_line, line_branch, line_rounds, reader_line, reader_expect_crlf, header_max,
}

-- The bytes to come.
unfoldable pub incoming_bytes : Incoming → Bytes
incoming_bytes (arrives b bs more) = b ∷ (bs ++ incoming_bytes more)
incoming_bytes closed = []
incoming_bytes broken = []

unfoldable pub unread : Reader → Bytes
unread r = r.buffer ++ incoming_bytes r.incoming

-- The next byte, if there is one: `rest` is what a reader with these parts leaves.
byte_of :
    (buffer : Bytes) (incoming : Incoming) (b : ℕ) (bs : Bytes)
    → buffer ++ incoming_bytes incoming ≡ b ∷ bs
    → (r' : Reader) × (reader_byte (record { buffer = buffer; incoming = incoming }) ≡ ok (b, r'))
      × (unread r' ≡ bs)
unfolding reader_byte reader_ready reader_fill unread incoming_bytes
byte_of (x ∷ xs) incoming b bs e = (record { buffer = xs; incoming = incoming }, cc, cc)
byte_of [] (arrives x xs more) b bs e = (record { buffer = xs; incoming = more }, cc, cc)
byte_of [] closed b bs e = cc
byte_of [] broken b bs e = cc

pub reader_byte-unread :
    (r : Reader) (b : ℕ) (bs : Bytes)
    → unread r ≡ b ∷ bs
    → (r' : Reader) × (reader_byte r ≡ ok (b, r')) × (unread r' ≡ bs)
unfolding unread
reader_byte-unread r b bs e = byte_of r.buffer r.incoming b bs e

-- A count with room for so many bytes more, and the count after them.
abbrev pub Room : Option ℕ → ℕ → Type 0
Room none n = Unit
Room (some total) n = total + n ≤ header_max

abbrev pub counted : Option ℕ → ℕ → Option ℕ
counted none n = none
counted (some total) n = some (total + n)

pub Room-less : (total : Option ℕ) (n m : ℕ) → m ≤ n → Room total n → Room total m
Room-less none n m less h = tt
Room-less (some total) n m less h = omega arith

count_byte-Room : (total : Option ℕ) → Room total 1 → count_byte total ≡ some (counted total 1)
unfolding count_byte
count_byte-Room none h = refl
count_byte-Room (some total) h = ground arith

Room-next : (total : Option ℕ) (n : ℕ) → Room total (n + 1) → Room (counted total 1) n
Room-next none n h = tt
Room-next (some total) n h = omega arith

counted-next :
    (total : Option ℕ) (n m : ℕ) → m ≡ n + 1 → counted (counted total 1) n ≡ counted total m
counted-next none n m e = refl
counted-next (some total) n m e = ap some (omega arith)

-- A character that may stand in a line.
abbrev pub InLine : ℕ → Type 0
InLine c = (c ≢ 0) × (c ≢ 10)

-- The step for a character.
line-char :
    (fuel line_size n last b : ℕ) (total total' : Option ℕ) (r r' : Reader)
    → reader_byte r ≡ ok (b, r')
    → count_byte total ≡ some total'
    → InLine b
    → n + 1 < line_size
    → line_rounds (suc fuel) line_size n last total r
      ≡ cons_line b (line_rounds fuel line_size (n + 1) b total' r')
unfolding line_rounds line_branch
line-char fuel line_size n last b total total' r r' e c h room =
    let full : leb line_size (n + 1) ≡ false = ground arith in
    let not_nul : (b == 0) ≡ false = ground arith in
    let not_lf : (b == 10) ≡ false = ground arith in
    rw (line_rounds, e, c, not_nul, not_lf, full) refl

-- The step for the line feed.
line-end :
    (fuel line_size n : ℕ) (total total' : Option ℕ) (r r' : Reader)
    → reader_byte r ≡ ok (10, r')
    → count_byte total ≡ some total'
    → 0 < n
    → line_rounds (suc fuel) line_size n 13 total r
      ≡ ok (record { content = []; wire_total = total'; rest = r' })
unfolding line_rounds line_branch
line-end fuel line_size n total total' r r' e c some_text =
    let some_char : (n == 0) ≡ false = ground arith in rw (line_rounds, e, c, some_char) refl

module _ (line_size : ℕ) (rest : Bytes) where
  line_rounds-unread :
      (fuel n last : ℕ) (text : Bytes) (total : Option ℕ) (r : Reader)
      → unread r ≡ text ++ (13 ∷ 10 ∷ rest)
      → All InLine text
      → n + length text + 1 < line_size
      → length text + 2 ≤ fuel
      → Room total (length text + 2)
      → (r' : Reader) × (line_rounds fuel line_size n last total r
          ≡ ok (record {
            content = text ++ (13 ∷ []);
            wire_total = counted total (length text + 2);
            rest = r';
          }))
        × (unread r' ≡ rest)
  line_rounds-unread zero n last text total r e h fits enough room = absurd (omega arith)
  line_rounds-unread (suc zero) n last text total r e h fits enough room = absurd (omega arith)
  line_rounds-unread (suc (suc fuel)) n last [] total r e h fits enough room =
      let (r1, e1, u1) = reader_byte-unread r 13 (10 ∷ rest) e in
      let (r2, e2, u2) = reader_byte-unread r1 10 rest u1 in
      let c1 = count_byte-Room total (Room-less total 2 1 (omega arith) room) in
      let c2 = count_byte-Room (counted total 1) (Room-next total 1 room) in
      (
        r2,
        line-char (suc fuel) line_size n last 13 total (counted total 1) r r1 e1 c1
              ((λ z. omega arith), (λ z. omega arith)) (omega arith)
            ∙ ap (cons_line 13) (
                line-end fuel line_size (n + 1) (counted total 1) (counted (counted total 1) 1) r1
                  r2 e2 c2 (omega arith))
            ∙ ap (λ t. ok (record { content = 13 ∷ []; wire_total = t; rest = r2 }))
                (counted-next total 1 2 (omega arith)),
        u2,
      )
  line_rounds-unread (suc (suc fuel)) n last (c ∷ text) total r e h fits enough room =
      let (r1, e1, u1) = reader_byte-unread r c (text ++ (13 ∷ 10 ∷ rest)) e in
      let size = length text + 2 in
      let c1 =
        count_byte-Room total (Room-less total (suc (length text) + 2) 1 (omega arith) room) in
      let room' =
        Room-next total size
          (Room-less total (suc (length text) + 2) (size + 1) (omega arith) room) in
      let (r2, e2, u2) =
        line_rounds-unread (suc fuel) (n + 1) c text (counted total 1) r1 u1 h.1 (omega arith)
          (omega arith) room' in
      (
        r2,
        line-char (suc fuel) line_size n last c total (counted total 1) r r1 e1 c1 h.0 (omega arith)
            ∙ ap (cons_line c) e2
            ∙ ap (λ t. ok (record { content = c ∷ (text ++ (13 ∷ [])); wire_total = t; rest = r2 }))
                (counted-next total size (suc (length text) + 2) (omega arith)),
        u2,
      )

take-but_last :
    (text : Bytes) (b : ℕ) → take (length (text ++ (b ∷ [])) - 1) (text ++ (b ∷ [])) ≡ text
take-but_last text b =
    let e : length (text ++ (b ∷ [])) - 1 ≡ length text =
      omega (arith, length-append text (b ∷ [])) in
    ap (λ n. take n (text ++ (b ∷ []))) e ∙ take-append text (b ∷ [])

-- A line is read as its text, and what follows it is left.
pub reader_line-unread :
    (line_size : ℕ) (text rest : Bytes) (total : Option ℕ) (r : Reader)
    → unread r ≡ text ++ (13 ∷ 10 ∷ rest)
    → All InLine text
    → length text + 2 ≤ line_size
    → Room total (length text + 2)
    → (r' : Reader) × (reader_line line_size total r
        ≡ ok (record { content = text; wire_total = counted total (length text + 2); rest = r' }))
      × (unread r' ≡ rest)
unfolding reader_line
reader_line-unread line_size text rest total r e h fits room =
    let (r', is, left) =
      line_rounds-unread line_size rest line_size 0 0 text total r e h (omega arith) fits room in
    let big : ltb line_size 2 ≡ false = ground arith in
    (
      r',
      rw (big, is)
          (ap
            (λ t.
              ok (record { content = t; wire_total = counted total (length text + 2); rest = r' }))
            (take-but_last text 13)),
      left,
    )

pub reader_expect_crlf-unread :
    (rest : Bytes) (r : Reader)
    → unread r ≡ 13 ∷ 10 ∷ rest
    → (r' : Reader) × (reader_expect_crlf r ≡ ok r') × (unread r' ≡ rest)
unfolding reader_expect_crlf
reader_expect_crlf-unread rest r e =
    let (r1, e1, u1) = reader_byte-unread r 13 (10 ∷ rest) e in
    let (r2, e2, u2) = reader_byte-unread r1 10 rest u1 in (r2, rw (e1, e2) refl, u2)
