-- ===== src/Text/Buffer/Escape.antt =====
-- What `sb_append_json_string` writes, and the text that it is read as.
use mathlib.Core.List.{append_assoc, append-nil}
use openwrt_nes_emulator.Base.{
  ℕ, zero, suc, ◌+◌, ◌-◌, ◌*◌, ◌≤◌, ◌<◌, ◌≡◌, ◌≢◌, refl, ap, sym, ◌∙◌, Bool, true, false, not, [],
  ◌∷◌, ◌++◌, Option, none, some, Bytes, length, drop, length-append, length-drop, ltb, ◌==◌,
  if◌then◌else◌, arith, IsText, drop-IsText,
}
use openwrt_nes_emulator.Text.Utf8.{utf8_valid_string}
use openwrt_nes_emulator.Text.Buffer.{
  StrBuf, sb_append_mem, json_piece, append_pieces, sb_append_json_string,
}
use openwrt_nes_emulator.Text.Buffer.Append.{IsSound, sb_append_mem_lem}
use openwrt_nes_emulator.Text.Buffer.Reader.{
  body, scan_step, scan_string, prefix, prefix-prefix, prefix-nil, Piece, scan-Piece,
}
use openwrt_nes_emulator.Text.Buffer.Repair.{
  repair_item, repair_rounds, repair, json_piece-Fine, repair_rounds-valid,
}

-- What appending pieces does: it succeeds, and what it adds is read as the text.
abbrev Adds : Bytes → ℕ → StrBuf → Bool × StrBuf → Type 0
Adds text most sb r =
    (out : Bytes) × (r.0 ≡ true)
    × IsSound r.1
    × (r.1.failed ≡ false)
    × (r.1.max_size ≡ sb.max_size)
    × (r.1.content ≡ sb.content ++ out)
    × (length out ≤ most)
    × ((s : Bytes) → scan_string body (out ++ s) ≡ prefix text (scan_string body s))

append_one :
    (bytes : Bytes) (sb : StrBuf)
    → IsSound sb
    → sb.failed ≡ false
    → length sb.content + length bytes < sb.max_size
    → let r = sb_append_mem true bytes sb in
      (r.0 ≡ true)
      × IsSound r.1
      × (r.1.failed ≡ false)
      × (r.1.max_size ≡ sb.max_size)
      × (r.1.content ≡ sb.content ++ bytes)
append_one bytes sb sound fine fits =
    let h = sb_append_mem_lem bytes sb sound fine in
    let room : ltb (length sb.content + length bytes) sb.max_size ≡ true = ground arith in
    let done = h.2 ∙ room in
    (
      done,
      h.0,
      h.3 ∙ ap not done,
      h.1,
      h.4 ∙ ap (λ b. if b then sb.content ++ bytes else sb.content) done,
    )

nothing_added :
    (most : ℕ) (sb : StrBuf) → IsSound sb → sb.failed ≡ false → Adds [] most sb (true, sb)
nothing_added most sb sound fine = (
  [],
  refl,
  sound,
  fine,
  refl,
  sym (append-nil sb.content),
  omega arith,
  λ s. sym (prefix-nil (scan_string body s)),
)

-- One result after another.
Adds-then :
    (one more most : ℕ) (bytes first text : Bytes) (sb sb' : StrBuf) (r : Bool × StrBuf)
    → sb'.content ≡ sb.content ++ bytes
    → sb'.max_size ≡ sb.max_size
    → length bytes ≤ one
    → one + more ≤ most
    → Piece bytes first
    → Adds text more sb' r
    → Adds (first ++ text) most sb r
Adds-then one more most bytes first text sb sb' r e same few fits piece
      (out, done, sound, fine, bound, wrote, small, on) =
    (
      bytes ++ out,
      done,
      sound,
      fine,
      bound ∙ same,
      wrote ∙ ap (λ t. t ++ out) e ∙ append_assoc sb.content bytes out,
      omega (arith, length-append bytes out),
      λ s.
          ap (scan_string body) (append_assoc bytes out s)
          ∙ scan-Piece bytes first (out ++ s) piece
          ∙ ap (prefix first) (on s)
          ∙ prefix-prefix first text (scan_string body s),
    )

pieces-step :
    (fuel c : ℕ) (p : Bytes) (sb : StrBuf)
    → let r = sb_append_mem true (json_piece (c ∷ p)).0 sb in
      c ≢ 0
      → r.0 ≡ true
      → append_pieces (suc fuel) true (c ∷ p) sb
        ≡ append_pieces fuel true (drop (json_piece (c ∷ p)).1 (c ∷ p)) r.1
unfolding append_pieces
pieces-step fuel c p sb h e =
    let some_byte : (c == 0) ≡ false = ground arith in rw (append_pieces, some_byte, e) refl

append_pieces-Adds :
    (fuel : ℕ) (p : Bytes) (sb : StrBuf)
    → length p ≤ fuel
    → IsText p
    → IsSound sb
    → sb.failed ≡ false
    → length sb.content + 6 * length p < sb.max_size
    → Adds (repair_rounds fuel p) (6 * length p) sb (append_pieces fuel true p sb)
unfolding append_pieces repair_rounds
append_pieces-Adds zero p sb h text sound fine fits = nothing_added (6 * length p) sb sound fine
append_pieces-Adds (suc fuel) [] sb h text sound fine fits =
    nothing_added (6 * length {A = ℕ} []) sb sound fine
append_pieces-Adds (suc fuel) (c ∷ p) sb h text sound fine fits =
    let (piece, n) = json_piece (c ∷ p) in
    let sb' = (sb_append_mem true piece sb).1 in
    let rest = drop n (c ∷ p) in
    let (kind, same, some_bytes, enough, size) = json_piece-Fine c p in
    let left : length rest ≡ length (c ∷ p) - n = length-drop n (c ∷ p) in
    let (done, sound', fine', bound, wrote) = append_one piece sb sound fine (omega arith) in
    let longer : length sb'.content ≡ length sb.content + length piece =
      ap length wrote ∙ length-append sb.content piece in
    rw (pieces-step fuel c p sb text.0 done, sym same)
      (Adds-then (6 * n) (6 * length rest) (6 * length (c ∷ p)) piece (repair_item (c ∷ p)).0
        (repair_rounds fuel rest) sb sb' (append_pieces fuel true rest sb') wrote bound size
        (omega arith) kind
        (append_pieces-Adds fuel rest sb' (omega arith) (drop-IsText n (c ∷ p) text) sound' fine'
          (omega arith)))

-- A whole string with its quotes: the text that it stands for, and what follows it.
unfoldable pub read_string : Bytes → Option (Bytes × Bytes)
read_string [] = none
read_string (c ∷ s) = if c == 34 then scan_string body s else none

read-closed :
    (mid text s : Bytes)
    → ((t : Bytes) → scan_string body (mid ++ t) ≡ prefix text (scan_string body t))
    → read_string ((34 ∷ []) ++ (mid ++ (34 ∷ [])) ++ s) ≡ some (text, s)
unfolding read_string scan_string scan_step
read-closed mid text s past =
    ap (scan_string body) (append_assoc mid (34 ∷ []) s)
    ∙ past (34 ∷ s)
    ∙ ap (λ t. some (t, s)) (append-nil text)

json_string-steps :
    (text : Bytes) (sb : StrBuf)
    → let r1 = sb_append_mem true (34 ∷ []) sb in
      let r2 = append_pieces (length text) true text r1.1 in
      r1.0 ≡ true
      → r2.0 ≡ true
      → sb_append_json_string true text sb ≡ sb_append_mem true (34 ∷ []) r2.1
unfolding sb_append_json_string
json_string-steps text sb opened fine = rw (sb_append_json_string, opened, fine) refl

-- A sound buffer that has not failed, with memory at hand and room for six times the text and two
-- quotes, takes every C string: what is appended is one JSON string, after which a reader of JSON
-- strings leaves off, having read the text with U+FFFD in place of each byte that is not UTF-8; that
-- is the text itself if it is valid UTF-8. The buffer stays sound.
pub sb_append_json_string_lem :
    (text : Bytes) (sb : StrBuf)
    → IsText text
    → IsSound sb
    → sb.failed ≡ false
    → length sb.content + 6 * length text + 2 < sb.max_size
    → let r = sb_append_json_string true text sb in
      (out : Bytes) × (r.0 ≡ true)
      × IsSound r.1
      × (r.1.content ≡ sb.content ++ out)
      × (length out ≤ 6 * length text + 2)
      × ((s : Bytes) → read_string (out ++ s) ≡ some (repair text, s))
      × (utf8_valid_string text ≡ true → repair text ≡ text)
unfolding repair utf8_valid_string
sb_append_json_string_lem text sb chars sound fine fits =
    let quote : Bytes = 34 ∷ [] in
    let sb1 = (sb_append_mem true quote sb).1 in
    let sb2 = (append_pieces (length text) true text sb1).1 in
    let (done1, sound1, fine1, bound1, wrote1) = append_one quote sb sound fine (omega arith) in
    let size1 : length sb1.content ≡ length sb.content + 1 =
      ap length wrote1 ∙ length-append sb.content quote in
    let (mid, done2, sound2, fine2, bound2, wrote2, small, past) =
      append_pieces-Adds (length text) text sb1 (omega arith) chars sound1 fine1 (omega arith) in
    let size2 : length sb2.content ≡ length sb1.content + length mid =
      ap length wrote2 ∙ length-append sb1.content mid in
    let (done3, sound3, _, _, wrote3) = append_one quote sb2 sound2 fine2 (omega arith) in
    let whole : sb2.content ++ quote ≡ sb.content ++ (quote ++ (mid ++ quote)) =
      ap (λ t. t ++ quote) (wrote2 ∙ ap (λ t. t ++ mid) wrote1)
      ∙ append_assoc (sb.content ++ quote) mid quote
      ∙ append_assoc sb.content quote (mid ++ quote) in
    rw (json_string-steps text sb done1 done2) (
      quote ++ (mid ++ quote),
      done3,
      sound3,
      wrote3 ∙ whole,
      omega (arith, length-append mid quote),
      (λ s. read-closed mid (repair_rounds (length text) text) s past),
      repair_rounds-valid (length text) text (omega arith) chars,
    )
