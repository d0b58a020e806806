-- ===== src/Websocket/Close/Drain.antt =====
-- What is left to send once a close is decided.
use openwrt_nes_emulator.Base.{
  ℕ, ◌/◌, ◌%◌, ◌≡◌, Bool, true, false, not, ◌||◌, [], ◌∷◌, Option, none, some, arith, Bytes,
  if◌then◌else◌,
}
use openwrt_nes_emulator.Websocket.Audio.Refine.{IsValid}
use openwrt_nes_emulator.Websocket.Audio.Room.{clear_lem}
use openwrt_nes_emulator.Websocket.Frame.{websocket_frame_alloc, frame_header}
use openwrt_nes_emulator.Websocket.Frame.Decode.{websocket_frame_alloc_lem}
use openwrt_nes_emulator.Websocket.Output.{
  OutputKind, Active, Client, is_some, unsent, websocket_queue, discard_for_close, queue_frame,
}
use openwrt_nes_emulator.Websocket.Close.{websocket_close}

-- The close frame with its code.
abbrev pub close_frame : ℕ → Bytes
close_frame code = 0x88 ∷ 2 ∷ code / 256 % 256 ∷ code % 256 ∷ []

abbrev pub close_active : ℕ → ℕ → Active
close_active clock code = record {
  frame = close_frame code;
  off = 0;
  opcode = 0x8;
  kind = OutputKind.control;
  since_ms = clock;
  progress_ms = clock;
}

-- `!c->out || c->out_off == 0`
abbrev pub preempted : Option Active → Bool
preempted o = not (is_some o) || unsent o

alloc_close :
    (code : ℕ)
    → websocket_frame_alloc true 0x8 (code / 256 % 256 ∷ code % 256 ∷ []) ≡ some (close_frame code)
unfolding frame_header
alloc_close code = websocket_frame_alloc_lem true 0x8 (code / 256 % 256 ∷ code % 256 ∷ [])

-- With memory at hand, closing a client that is not closing yet discards all that waits. The close
-- frame is active at once, unless part of a frame is sent: then that frame stays active, and the
-- close frame is the control frame that waits behind it. The client is not marked dead.
pub close_lem :
    (clock code : ℕ) (c : Client)
    → c.closing ≡ false
    → IsValid c.audio_queue
    → let c' = websocket_close true clock code c in
      (c'.closing ≡ true)
      × (c'.dead ≡ c.dead)
      × (c'.status_out ≡ none)
      × (c'.heartbeat_out ≡ none)
      × (c'.video_out ≡ none)
      × (c'.audio_queue.count ≡ 0)
      × (c'.out ≡ (if preempted c.out then some (close_active clock code) else c.out))
      × (c'.control_out ≡ (
          if preempted c.out
          then none
          else some (record { frame = close_frame code; opcode = 0x8 })))
unfolding websocket_close websocket_queue queue_frame discard_for_close
close_lem clock code c ongoing v = ground (arith, alloc_close code, clear_lem c.audio_queue v)
