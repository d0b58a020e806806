-- ===== src/Http/Url.antt =====
-- URL components: the decoder `url_decode_component` beside the encoding of RFC 3986.
use openwrt_nes_emulator.Base.{
  ℕ, zero, suc, ◌+◌, ◌*◌, ◌/◌, ◌%◌, ◌≤◌, ◌<◌, ◌≡◌, ◌≢◌, refl, ap, ◌∙◌, false, [], ◌∷◌, Option, none,
  some, Bytes, length, ltb, ◌==◌, if◌then◌else◌, arith, All, Bool-cases, Option-cases, inl, inr,
}
use openwrt_nes_emulator.Http.{
  hex_value, decode_unit, refused, put, decode_rounds, url_decode_component,
}

-- A character that may stand in a decoded component.
abbrev pub Allowed : ℕ → Type 0
Allowed c = (c ≢ 0) × (c ≢ 13) × (c ≢ 10) × (c < 256)

-- A hexadecimal digit, in upper case.
hex_char : ℕ → ℕ
hex_char n = if ltb n 10 then 48 + n else 55 + n

-- Every byte as `%XX` (RFC 3986, section 2.1).
pub percent_encode : Bytes → Bytes
percent_encode [] = []
percent_encode (b ∷ bs) = 37 ∷ hex_char (b / 16) ∷ hex_char (b % 16) ∷ percent_encode bs

hex_value-hex_char : (n : ℕ) → n < 16 → hex_value (hex_char n) ≡ some n
unfolding hex_value hex_char
hex_value-hex_char n h = ground arith

unit-encoded :
    (b : ℕ) (p : Bytes)
    → b < 256
    → decode_unit 37 (hex_char (b / 16) ∷ hex_char (b % 16) ∷ p) ≡ some (b, p)
unfolding decode_unit
unit-encoded b p h =
    let two : ltb (suc (suc (length p))) 2 ≡ false = ground arith in
    let e : b / 16 * 16 + b % 16 ≡ b = omega arith in
    rw
      (
        decode_unit,
        two,
        hex_value-hex_char (b / 16) (omega arith),
        hex_value-hex_char (b % 16) (omega arith),
        e,
      )
      refl

rounds-take :
    (fuel o size c v : ℕ) (p rest : Bytes)
    → decode_unit c p ≡ some (v, rest)
    → refused v o size ≡ false
    → decode_rounds (suc fuel) o size (c ∷ p) ≡ put v (decode_rounds fuel (o + 1) size rest)
unfolding decode_rounds
rounds-take fuel o size c v p rest e h = rw (decode_rounds, e, h) refl

rounds-encoded :
    (fuel o size : ℕ) (bs : Bytes)
    → All Allowed bs
    → length (percent_encode bs) ≤ fuel
    → o + length bs < size
    → decode_rounds fuel o size (percent_encode bs) ≡ some bs
unfolding decode_rounds percent_encode
rounds-encoded zero o size [] h f room = refl
rounds-encoded (suc fuel) o size [] h f room = refl
rounds-encoded zero o size (b ∷ bs) h f room = absurd (omega arith)
rounds-encoded (suc fuel) o size (b ∷ bs) h f room =
    let fine : refused b o size ≡ false = ground arith in
    rounds-take fuel o size 37 b _ (percent_encode bs)
      (unit-encoded b (percent_encode bs) (omega arith)) fine
    ∙ ap (put b) (rounds-encoded fuel (o + 1) size bs h.1 (omega arith) (omega arith))

-- A text of allowed characters that fits the buffer with its terminator is got back from its
-- percent-encoding.
pub url_decode_component-percent_encode :
    (out_size : ℕ) (text : Bytes)
    → All Allowed text
    → length text < out_size
    → url_decode_component out_size (percent_encode text) ≡ some text
unfolding url_decode_component
url_decode_component-percent_encode out_size text h room =
    let some_room : (out_size == 0) ≡ false = ground arith in
    rw some_room
      (rounds-encoded (length (percent_encode text)) 0 out_size text h (omega arith) (omega arith))

abbrev pub Harmless : ℕ → ℕ → Option Bytes → Type 0
Harmless o size none = Unit
Harmless o size (some out) = (o + length out < size) × All (λ c. (c ≢ 0) × (c ≢ 13) × (c ≢ 10)) out

put-Harmless :
    (o size v : ℕ) (r : Option Bytes)
    → refused v o size ≡ false
    → Harmless (o + 1) size r
    → Harmless o size (put v r)
put-Harmless o size v none fine h = tt
put-Harmless o size v (some out) fine h =
    (omega arith, ((ground arith, ground arith, ground arith), h.1))

rounds-Harmless :
    (fuel o size : ℕ) (p : Bytes) → o < size → Harmless o size (decode_rounds fuel o size p)
rounds-Harmless zero o size p h = unfold decode_rounds in (omega arith, tt)
rounds-Harmless (suc fuel) o size [] h = unfold decode_rounds in (omega arith, tt)
rounds-Harmless (suc fuel) o size (c ∷ p) h = elim (Option-cases (decode_unit c p)) [
  | inl e ↦ unfold decode_rounds in rw (decode_rounds, e) tt
  | inr ((v, rest), e) ↦ elim (Bool-cases (refused v o size)) [
    | inl bad ↦ unfold decode_rounds in rw (decode_rounds, e, bad) tt
    | inr fine ↦ rw (rounds-take fuel o size c v p rest e fine) (
        put-Harmless o size v (decode_rounds fuel (o + 1) size rest) fine
          (rounds-Harmless fuel (o + 1) size rest (ground arith)))
  ]
]

-- What is decoded, of any text, fits the buffer with its terminator, and has no character 0, no
-- carriage return and no line feed.
pub url_decode_component-Harmless :
    (out_size : ℕ) (start : Bytes) → Harmless 0 out_size (url_decode_component out_size start)
unfolding url_decode_component
url_decode_component-Harmless out_size start = elim (Bool-cases (out_size == 0)) [
  | inl e ↦ rw e tt
  | inr e ↦ rw e (rounds-Harmless (length start) 0 out_size start (ground arith))
]
