-- ===== src/Text/Buffer/Tests.antt =====
-- The theorems on the string buffer at a buffer of 64 bytes.
use openwrt_nes_emulator.Base.{
  ◌+◌, ◌*◌, ◌≤◌, ◌≡◌, refl, true, false, not, [], ◌∷◌, ◌++◌, some, Bytes, length, arith, ltb,
  if◌then◌else◌,
}
use openwrt_nes_emulator.Text.Utf8.{utf8_valid_string}
use openwrt_nes_emulator.Text.Buffer.{StrBuf, sb_append_mem, sb_append_json_string}
use openwrt_nes_emulator.Text.Buffer.Append.{IsSound, sb_append_mem_lem}
use openwrt_nes_emulator.Text.Buffer.Repair.{repair}
use openwrt_nes_emulator.Text.Buffer.Escape.{read_string, sb_append_json_string_lem}

abbrev begun : StrBuf
begun = record { content = 123 ∷ []; cap = 4; max_size = 64; failed = false }

begun-IsSound : IsSound begun
begun-IsSound = omega arith

sb_append_mem_lem_example :
    let r = sb_append_mem true (1 ∷ 2 ∷ 3 ∷ 4 ∷ []) begun in
    IsSound r.1
    × (r.1.max_size ≡ 64)
    × (r.0 ≡ ltb (1 + 4) 64)
    × (r.1.failed ≡ not r.0)
    × (r.1.content ≡ (if r.0 then begun.content ++ (1 ∷ 2 ∷ 3 ∷ 4 ∷ []) else begun.content))
sb_append_mem_lem_example = sb_append_mem_lem (1 ∷ 2 ∷ 3 ∷ 4 ∷ []) begun begun-IsSound refl

-- A quote, a line feed, and a byte that is not UTF-8.
abbrev awkward : Bytes
awkward = 34 ∷ 10 ∷ 255 ∷ []

sb_append_json_string_lem_example :
    let r = sb_append_json_string true awkward begun in
    (out : Bytes) × (r.0 ≡ true)
    × IsSound r.1
    × (r.1.content ≡ begun.content ++ out)
    × (length out ≤ 6 * 3 + 2)
    × ((s : Bytes) → read_string (out ++ s) ≡ some (repair awkward, s))
    × (utf8_valid_string awkward ≡ true → repair awkward ≡ awkward)
sb_append_json_string_lem_example =
    sb_append_json_string_lem awkward begun (omega arith) begun-IsSound refl (omega arith)
