-- ===== src/Text/Utf8/Encode.antt =====
-- `utf8_valid` on what `utf8_encode` writes.
use openwrt_nes_emulator.Base.{
  ℕ, ◌≤◌, ◌≡◌, false, List, [], ◌∷◌, ◌++◌, Option, none, some, arith, Bytes,
}
use openwrt_nes_emulator.Text.Utf8.{
  utf8_encode, continue_value, finish_value, valid_item, surrogate,
}

-- A Unicode scalar value.
abbrev pub IsScalar : ℕ → Type 0
IsScalar cp = (cp ≤ 0x10ffff) × (surrogate cp ≡ false)

-- The text of a list of scalar values.
unfoldable pub encode_all : List ℕ → Bytes
encode_all [] = []
encode_all (cp ∷ cps) = utf8_encode cp ++ encode_all cps

abbrev pub item_of : Bytes → Option Bytes
item_of [] = none
item_of (c ∷ p) = valid_item c p

-- A character written is taken off again, whatever follows it.
pub valid_item-encode :
    (cp : ℕ) (rest : Bytes) → IsScalar cp → item_of (utf8_encode cp ++ rest) ≡ some rest
unfolding utf8_encode valid_item continue_value finish_value
valid_item-encode cp rest h = ground arith
