-- ===== src/Text/Tests.antt =====
-- The text routines at small inputs.
use openwrt_nes_emulator.Base.{◌↔◌, List, [], ◌∷◌, true, ◌≡◌, refl, ℕ, All, arith}
use openwrt_nes_emulator.Text.Utf8.{utf8_valid, utf8_valid_string, valid_item}
use openwrt_nes_emulator.Text.Utf8.Encode.{IsScalar, encode_all}
use openwrt_nes_emulator.Text.Utf8.Agree.{utf8_valid-eq-utf8_valid_string}
use openwrt_nes_emulator.Text.Utf8.Decode.{utf8_valid_iff}

-- "aé€" and a byte that is no lead byte.
abbrev mixed : List ℕ
mixed = 0x61 ∷ 0xc3 ∷ 0xa9 ∷ 0xe2 ∷ 0x82 ∷ 0xac ∷ []

utf8_valid_runs : utf8_valid mixed ≡ true
unfolding utf8_valid valid_item
utf8_valid_runs = refl

utf8_valid_iff_example :
    (utf8_valid mixed ≡ true) ↔ ((cps : List ℕ) × All IsScalar cps × (mixed ≡ encode_all cps))
utf8_valid_iff_example = utf8_valid_iff mixed (omega arith)

utf8_valid-eq-utf8_valid_string_example : utf8_valid mixed ≡ utf8_valid_string mixed
utf8_valid-eq-utf8_valid_string_example =
    utf8_valid-eq-utf8_valid_string mixed (omega arith) (omega arith)
