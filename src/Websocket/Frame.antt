-- ===== src/Websocket/Frame.antt =====
-- `websocket_frame_alloc` of package/nes-emulator/src/http.c: an unmasked server frame as one
-- buffer. The flag `memory` says whether `malloc` succeeds; `none` is the result -1.
pub mod Decode
use openwrt_nes_emulator.Base.{
  ℕ, ◌+◌, ◌-◌, ◌*◌, ◌/◌, ◌%◌, ◌^◌, Bool, List, [], ◌∷◌, ◌++◌, Option, none, some, Bytes, length,
  ltb, leb, if◌then◌else◌, u64_mod,
}

-- `NES_MAX_W`, `NES_MAX_H`, `JPEG_BUF_MAX` and the two packet bounds
abbrev raw_packet_max : ℕ
raw_packet_max = 12 + 512 * 480 * 2

abbrev jpeg_packet_max : ℕ
jpeg_packet_max = 12 + 262144

-- `WS_OUTPUT_MAX`
abbrev pub output_max : ℕ
output_max = if ltb jpeg_packet_max raw_packet_max then raw_packet_max else jpeg_packet_max

-- `none` is the refusal of a sum that does not fit `size_t`.
unfoldable pub safe_add_size : ℕ → ℕ → Option ℕ
safe_add_size a b = if ltb (u64_mod - 1 - b) a then none else some (a + b)

-- The low byte of `value >> shift`
abbrev pub byte_at : ℕ → ℕ → ℕ
byte_at value shift = value / 2 ^ shift % 256

-- `0x80 | (opcode & 0x0f)`, then the length in the shortest of the three forms. The masks and
-- shifts are on disjoint bits, so they are written as remainders, quotients and sums.
unfoldable pub frame_header : ℕ → ℕ → Bytes
frame_header opcode n =
    (128 + opcode % 16)
    ∷ (if ltb n 126
        then n ∷ []
        else if leb n 0xffff
        then 126 ∷ byte_at n 8 ∷ byte_at n 0 ∷ []
        else 127
          ∷ byte_at n 56
          ∷ byte_at n 48
          ∷ byte_at n 40
          ∷ byte_at n 32
          ∷ byte_at n 24
          ∷ byte_at n 16
          ∷ byte_at n 8
          ∷ byte_at n 0
          ∷ [])

unfoldable pub websocket_frame_alloc : Bool → ℕ → Bytes → Option Bytes
unfolding safe_add_size
websocket_frame_alloc memory opcode payload =
    let header = frame_header opcode (length payload) in
    if ltb output_max (length payload)
    then none
    else elim (safe_add_size (length header) (length payload)) [
      | none ↦ none
      | some total ↦ if memory then some (header ++ payload) else none
    ]
