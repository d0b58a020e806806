-- ===== src/Websocket/Frame/Decode.antt =====
-- What `websocket_frame_alloc` builds, read back as RFC 6455 (section 5.2) reads a server frame.
use mathlib.Core.List.{append_assoc}
use openwrt_nes_emulator.Base.{
  ℕ, ◌+◌, ◌*◌, ◌%◌, ◌≤◌, ◌≡◌, Bool, true, [], ◌∷◌, ◌++◌, Option, none, some, ◌&&◌, ap, ◌∙◌, arith,
  Bytes, length, take, drop, leb, ◌==◌, if◌then◌else◌, take-append, drop-append,
}
use openwrt_nes_emulator.Websocket.Frame.{websocket_frame_alloc, frame_header, output_max}

-- A big-endian number.
abbrev pub big_endian : ℕ → Bytes → ℕ
big_endian acc [] = acc
big_endian acc (b ∷ bs) = big_endian (acc * 256 + b) bs

-- A whole frame at the front of a stream: its final flag, its opcode, its payload and the rest.
pub record Unframed : Type 0 where
  pub final : Bool
  pub opcode : ℕ
  pub payload : Bytes
  pub rest : Bytes

abbrev split_payload : ℕ → ℕ → Bytes → Unframed
split_payload first n body = record {
  final = leb 128 first;
  opcode = first % 16;
  payload = take n body;
  rest = drop n body;
}

-- The extended payload length stands in the next `k` bytes.
abbrev extended : ℕ → ℕ → Bytes → Unframed
extended first k more = split_payload first (big_endian 0 (take k more)) (drop k more)

pub unframe : Bytes → Option Unframed
unframe [] = none
unframe (first ∷ []) = none
unframe (first ∷ second ∷ more) = some (
    if second == 126
    then extended first 2 more
    else if second == 127
    then extended first 8 more
    else split_payload first second more)

abbrev pub framed : ℕ → Bytes → Bytes → Unframed
framed opcode payload rest = record {
  final = true;
  opcode = opcode % 16;
  payload = payload;
  rest = rest;
}

split_payload-append :
    (opcode : ℕ) (payload rest : Bytes)
    → split_payload (128 + opcode % 16) (length payload) (payload ++ rest)
      ≡ framed opcode payload rest
split_payload-append opcode payload rest =
    rw (take-append payload rest, drop-append payload rest) (ground arith)

-- Whichever form of the length is chosen, it is read back.
big_endian-frame_header :
    (opcode n : ℕ) (body : Bytes)
    → n ≤ output_max
    → unframe (frame_header opcode n ++ body) ≡ some (split_payload (128 + opcode % 16) n body)
unfolding unframe frame_header
big_endian-frame_header opcode n body h = ground arith

-- The bounds and the bytes of what is built.
length-frame_header :
    (opcode n : ℕ) → (2 ≤ length (frame_header opcode n)) × (length (frame_header opcode n) ≤ 10)
unfolding frame_header
length-frame_header opcode n = ground arith

-- A frame is built exactly when the payload is within `WS_OUTPUT_MAX` and memory is there.
pub websocket_frame_alloc_lem :
    (memory : Bool) (opcode : ℕ) (payload : Bytes)
    → websocket_frame_alloc memory opcode payload ≡ (
        if memory && leb (length payload) output_max
        then some (frame_header opcode (length payload) ++ payload)
        else none)
unfolding websocket_frame_alloc
websocket_frame_alloc_lem memory opcode payload =
    ground (arith, length-frame_header opcode (length payload))

-- With memory at hand, a payload of at most `WS_OUTPUT_MAX` bytes is framed, and a reader of the
-- stream, whatever follows, gets the final flag, the opcode, the payload and what followed.
pub unframe-websocket_frame_alloc :
    (opcode : ℕ) (payload rest : Bytes)
    → length payload ≤ output_max
    → (frame : Bytes) × (websocket_frame_alloc true opcode payload ≡ some frame)
      × (unframe (frame ++ rest) ≡ some (framed opcode payload rest))
unframe-websocket_frame_alloc opcode payload rest h = (
  frame_header opcode (length payload) ++ payload,
  ground (arith, websocket_frame_alloc_lem true opcode payload),
  rw append_assoc (
      big_endian-frame_header opcode (length payload) (payload ++ rest) h
      ∙ ap some (split_payload-append opcode payload rest)),
)
