-- ===== src/Text/Utf8/Decode.antt =====
-- `utf8_valid` beside `utf8_encode`: the characters that are taken off a text.
use mathlib.Core.Bool.{false≢true}
use openwrt_nes_emulator.Base.{
  ℕ, zero, suc, ◌+◌, ◌*◌, ◌%◌, ◌<◌, ◌≤◌, ◌≡◌, ◌↔◌, inl, inr, refl, sym, ap, ◌∙◌, Bool, true, false,
  not, ◌&&◌, ◌||◌, List, [], ◌∷◌, ◌++◌, none, some, arith, Bytes, All, length, ltb, ◌==◌,
  if◌then◌else◌, Option-cases,
}
use openwrt_nes_emulator.Text.Utf8.Item.{
  IsBytes, tail_byte, two_bytes_lem, three_bytes_lem, four_bytes_lem, valid_item-two,
  valid_item-three, valid_item-four, valid_item-no_lead,
}
use openwrt_nes_emulator.Text.Utf8.Agree.{
  Lead, Lead-of, ascii, stray, two, three, four, short_two, short_three, short_four,
  valid_item-eq-string_item, string_item-shorter,
}
use openwrt_nes_emulator.Text.Utf8.{
  three_bytes, four_bytes, utf8_encode, valid_item, valid_rounds, utf8_valid,
}
use openwrt_nes_emulator.Text.Utf8.Encode.{IsScalar, encode_all, item_of, valid_item-encode}

-- The bytes of each class are those of a scalar value.
encode-two :
    (c b1 : ℕ)
    → 0xc2 ≤ c
    → c ≤ 0xdf
    → tail_byte b1 ≡ true
    → let cp = c % 32 * 64 + b1 % 64 in IsScalar cp × (utf8_encode cp ≡ c ∷ b1 ∷ [])
unfolding utf8_encode
encode-two c b1 lo hi h1 = (ground arith, ground arith)

encode-three :
    (c b1 b2 : ℕ)
    → 0xe0 ≤ c
    → c ≤ 0xef
    → tail_byte b1 ≡ true
    → tail_byte b2 ≡ true
    → ((c == 0xe0 && ltb b1 0xa0) || (c == 0xed && ltb 0x9f b1)) ≡ false
    → let cp = (c % 16 * 64 + b1 % 64) * 64 + b2 % 64 in
      IsScalar cp × (utf8_encode cp ≡ c ∷ b1 ∷ b2 ∷ [])
unfolding utf8_encode
encode-three c b1 b2 lo hi h1 h2 h = (ground arith, ground arith)

encode-four :
    (c b1 b2 b3 : ℕ)
    → 0xf0 ≤ c
    → c ≤ 0xf7
    → tail_byte b1 ≡ true
    → tail_byte b2 ≡ true
    → tail_byte b3 ≡ true
    → ((c == 0xf0 && ltb b1 0x90) || ltb 0xf4 c || (c == 0xf4 && ltb 0x8f b1)) ≡ false
    → let cp = ((c % 8 * 64 + b1 % 64) * 64 + b2 % 64) * 64 + b3 % 64 in
      IsScalar cp × (utf8_encode cp ≡ c ∷ b1 ∷ b2 ∷ b3 ∷ [])
unfolding utf8_encode
encode-four c b1 b2 b3 lo hi h1 h2 h3 h = (ground arith, ground arith)

-- A character that the validator takes off is written so by the encoder.
abbrev Decodes : ℕ → Bytes → Bytes → Type 0
Decodes c p rest = (cp : ℕ) × IsScalar cp × (c ∷ p ≡ utf8_encode cp ++ rest)

decode-ascii : (c : ℕ) (p rest : Bytes) → c < 0x80 → valid_item c p ≡ some rest → Decodes c p rest
unfolding valid_item utf8_encode
decode-ascii c p rest h e = (c, ground arith, ground arith)

decode-two :
    (c b1 : ℕ) (p rest : Bytes)
    → 0xc0 ≤ c
    → c ≤ 0xdf
    → b1 < 256
    → valid_item c (b1 ∷ p) ≡ some rest
    → Decodes c (b1 ∷ p) rest
decode-two c b1 p rest lo hi h1 e =
    let item = valid_item-two c b1 p lo hi h1 in
    let bytes = two_bytes_lem c b1 lo hi in
    let good : (tail_byte b1 ≡ true) × (0xc2 ≤ c) × (p ≡ rest) = ground (arith, item, bytes) in
    let (scalar, is) = encode-two c b1 good.1 hi good.0 in
    (c % 32 * 64 + b1 % 64, scalar, rw is (ap (λ t. c ∷ b1 ∷ t) good.2))

-- The parts of a conjunction that holds.
and_parts : (x y : Bool) → (x && y) ≡ true → (x ≡ true) × (y ≡ true)
and_parts true y h = (refl, h)
and_parts false y h = cc

eq-false_of_not : (x : Bool) → not x ≡ true → x ≡ false
eq-false_of_not true h = cc
eq-false_of_not false h = refl

kept :
    (b : Bool) (p rest : Bytes) → (if b then some p else none) ≡ some rest → (b ≡ true) × (p ≡ rest)
kept true p rest h = (refl, cc)
kept false p rest h = cc

three_good :
    (c b1 b2 : ℕ) (p rest : Bytes)
    → (if three_bytes c b1 b2 then some p else none) ≡ some rest
    → three_bytes c b1 b2 ≡ (
        tail_byte b1
        && tail_byte b2
        && not ((c == 0xe0 && ltb b1 0xa0) || (c == 0xed && ltb 0x9f b1)))
    → (tail_byte b1 ≡ true)
      × (tail_byte b2 ≡ true)
      × (((c == 0xe0 && ltb b1 0xa0) || (c == 0xed && ltb 0x9f b1)) ≡ false)
      × (p ≡ rest)
three_good c b1 b2 p rest e bytes =
    let (holds, same) = kept (three_bytes c b1 b2) p rest e in
    let (more, last) = and_parts _ _ (sym bytes ∙ holds) in
    let (t1, t2) = and_parts _ _ more in (t1, t2, eq-false_of_not _ last, same)

four_good :
    (c b1 b2 b3 : ℕ) (p rest : Bytes)
    → (if four_bytes c b1 b2 b3 then some p else none) ≡ some rest
    → four_bytes c b1 b2 b3 ≡ (
        tail_byte b1
        && tail_byte b2
        && tail_byte b3
        && not ((c == 0xf0 && ltb b1 0x90) || ltb 0xf4 c || (c == 0xf4 && ltb 0x8f b1)))
    → (tail_byte b1 ≡ true)
      × (tail_byte b2 ≡ true)
      × (tail_byte b3 ≡ true)
      × (((c == 0xf0 && ltb b1 0x90) || ltb 0xf4 c || (c == 0xf4 && ltb 0x8f b1)) ≡ false)
      × (p ≡ rest)
four_good c b1 b2 b3 p rest e bytes =
    let (holds, same) = kept (four_bytes c b1 b2 b3) p rest e in
    let (more, last) = and_parts _ _ (sym bytes ∙ holds) in
    let (more', t3) = and_parts _ _ more in
    let (t1, t2) = and_parts _ _ more' in (t1, t2, t3, eq-false_of_not _ last, same)

decode-three :
    (c b1 b2 : ℕ) (p rest : Bytes)
    → 0xe0 ≤ c
    → c ≤ 0xef
    → b1 < 256
    → b2 < 256
    → valid_item c (b1 ∷ b2 ∷ p) ≡ some rest
    → Decodes c (b1 ∷ b2 ∷ p) rest
decode-three c b1 b2 p rest lo hi h1 h2 e =
    let item = valid_item-three c b1 b2 p lo hi h1 h2 in
    let bytes = three_bytes_lem c b1 b2 lo hi in
    let good : (tail_byte b1 ≡ true)
        × (tail_byte b2 ≡ true)
        × (((c == 0xe0 && ltb b1 0xa0) || (c == 0xed && ltb 0x9f b1)) ≡ false)
        × (p ≡ rest) =
      three_good c b1 b2 p rest (sym item ∙ e) bytes in
    let (scalar, is) = encode-three c b1 b2 lo hi good.0 good.1 good.2 in
    ((c % 16 * 64 + b1 % 64) * 64 + b2 % 64, scalar, rw is (ap (λ t. c ∷ b1 ∷ b2 ∷ t) good.3))

decode-four :
    (c b1 b2 b3 : ℕ) (p rest : Bytes)
    → 0xf0 ≤ c
    → c ≤ 0xf7
    → b1 < 256
    → b2 < 256
    → b3 < 256
    → valid_item c (b1 ∷ b2 ∷ b3 ∷ p) ≡ some rest
    → Decodes c (b1 ∷ b2 ∷ b3 ∷ p) rest
decode-four c b1 b2 b3 p rest lo hi h1 h2 h3 e =
    let item = valid_item-four c b1 b2 b3 p lo hi h1 h2 h3 in
    let good = four_good c b1 b2 b3 p rest (sym item ∙ e) (four_bytes_lem c b1 b2 b3 lo hi) in
    let (scalar, is) = encode-four c b1 b2 b3 lo hi good.0 good.1 good.2 good.3 in
    (
      ((c % 8 * 64 + b1 % 64) * 64 + b2 % 64) * 64 + b3 % 64,
      scalar,
      rw is (ap (λ t. c ∷ b1 ∷ b2 ∷ b3 ∷ t) good.4),
    )

none_taken :
    (c : ℕ) (p rest : Bytes) → valid_item c p ≡ none → valid_item c p ≡ some rest → Decodes c p rest
none_taken c p rest h e = cc

decode_item :
    (c : ℕ) (p rest : Bytes)
    → c < 256
    → IsBytes p
    → Lead c
    → valid_item c p ≡ some rest
    → Decodes c p rest
decode_item c p rest h b (ascii lt) e = decode-ascii c p rest lt e
decode_item c p rest h b (stray lo k) e = none_taken c p rest (valid_item-no_lead c p h lo k) e
decode_item c [] rest h b (two lo hi) e = none_taken c [] rest (short_two c lo hi).0 e
decode_item c (b1 ∷ p) rest h b (two lo hi) e = decode-two c b1 p rest lo hi b.0 e
decode_item c [] rest h b (three lo hi) e =
    none_taken c [] rest (short_three c [] lo hi (omega arith)).0 e
decode_item c (b1 ∷ []) rest h b (three lo hi) e =
    none_taken c (b1 ∷ []) rest (short_three c (b1 ∷ []) lo hi (omega arith)).0 e
decode_item c (b1 ∷ b2 ∷ p) rest h b (three lo hi) e = decode-three c b1 b2 p rest lo hi b.0 b.1.0 e
decode_item c [] rest h b (four lo hi) e =
    none_taken c [] rest (short_four c [] lo hi (omega arith)).0 e
decode_item c (b1 ∷ []) rest h b (four lo hi) e =
    none_taken c (b1 ∷ []) rest (short_four c (b1 ∷ []) lo hi (omega arith)).0 e
decode_item c (b1 ∷ b2 ∷ []) rest h b (four lo hi) e =
    none_taken c (b1 ∷ b2 ∷ []) rest (short_four c (b1 ∷ b2 ∷ []) lo hi (omega arith)).0 e
decode_item c (b1 ∷ b2 ∷ b3 ∷ p) rest h b (four lo hi) e =
    decode-four c b1 b2 b3 p rest lo hi b.0 b.1.0 b.1.1.0 e

-- What the validator accepts, given a round for each byte.
accepted_text :
    (fuel : ℕ) (p : Bytes)
    → length p ≤ fuel
    → IsBytes p
    → valid_rounds fuel p ≡ true
    → (cps : List ℕ) × All IsScalar cps × (p ≡ encode_all cps)
unfolding valid_rounds encode_all
accepted_text fuel [] h b e = ([], tt, refl)
accepted_text zero (c ∷ p) h b e = absurd (omega arith)
accepted_text (suc fuel) (c ∷ p) h b e = elim (Option-cases (valid_item c p)) [
  | inl x ↦ absurd (false≢true (rw (x, valid_rounds) at e))
  | inr (rest, x) ↦
      let (shorter_bytes, shorter) =
        string_item-shorter c p rest b (sym (valid_item-eq-string_item c p b.0 b.1) ∙ x) in
      let (cp, scalar, is) = decode_item c p rest b.0 b.1 (Lead-of c) x in
      let (cps, all, more) =
        accepted_text fuel rest (omega arith) shorter_bytes (ground (arith, x, e)) in
      (cp ∷ cps, (scalar, all), is ∙ ap (λ t. utf8_encode cp ++ t) more)
]

starts_item :
    (p q rest : Bytes) (fuel : ℕ)
    → item_of p ≡ some rest
    → valid_rounds fuel rest ≡ true
    → valid_rounds (suc fuel) p ≡ true
unfolding valid_rounds
starts_item [] q rest fuel e h = cc
starts_item (c ∷ p) q rest fuel e h = ground (arith, e, h)

written_text :
    (fuel : ℕ) (cps : List ℕ) → All IsScalar cps → valid_rounds fuel (encode_all cps) ≡ true
unfolding encode_all
written_text zero cps h = unfold valid_rounds in refl
written_text (suc fuel) [] h = unfold valid_rounds in refl
written_text (suc fuel) (cp ∷ cps) h =
    starts_item (utf8_encode cp ++ encode_all cps) [] (encode_all cps) fuel
      (valid_item-encode cp (encode_all cps) h.0) (written_text fuel cps h.1)

-- `utf8_valid` accepts exactly the texts that `utf8_encode` writes, character by character, for
-- Unicode scalar values (no surrogate, none above 0x10ffff).
pub utf8_valid_iff :
    (p : Bytes)
    → IsBytes p
    → (utf8_valid p ≡ true) ↔ ((cps : List ℕ) × All IsScalar cps × (p ≡ encode_all cps))
unfolding utf8_valid
utf8_valid_iff p b = (
  accepted_text (length p) p (omega arith) b,
  λ t. rw t.2 (written_text (length (encode_all t.0)) t.0 t.1),
)
