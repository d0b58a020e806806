-- ===== src/Websocket/Output/Conserve.antt =====
-- The frames of status, heartbeat, audio and video that are held, and those counted as dropped.
use openwrt_nes_emulator.Base.{
  ℕ, ◌+◌, ◌≤◌, ◌<◌, ◌≡◌, ap, true, false, [], ◌∷◌, ◌++◌, some, arith, Bytes, length, decimal,
  length-append, length-decimal,
}
use openwrt_nes_emulator.Websocket.Audio.{audio_max_duration}
use openwrt_nes_emulator.Websocket.Audio.Refine.{IsValid, packets, length-packets}
use openwrt_nes_emulator.Websocket.Audio.Room.{evict}
use openwrt_nes_emulator.Websocket.Frame.{websocket_frame_alloc, output_max, frame_header}
use openwrt_nes_emulator.Websocket.Frame.Decode.{websocket_frame_alloc_lem}
use openwrt_nes_emulator.Websocket.Output.Media.{hold_audio_refines, CounterHasRoom, one_if}
use openwrt_nes_emulator.Websocket.Output.{
  OutputKind, Client, count_drops, is_some, hold_audio, hold_video, websocket_queue_audio,
  websocket_queue_video, queue_frame, websocket_queue, websocket_queue_heartbeat, heartbeat_reply,
  websocket_activate, hold_heartbeat,
}

abbrev pub single_slots : Client → ℕ
single_slots c =
    one_if (is_some c.out)
    + one_if (is_some c.control_out)
    + one_if (is_some c.heartbeat_out)
    + one_if (is_some c.status_out)
    + one_if (is_some c.video_out)

-- The frames that a client holds, the active one included, and those that it has dropped.
unfoldable pub accounted : Client → ℕ
accounted c = single_slots c + c.audio_queue.count + c.dropped_packets

hold_video-accounted :
    (clock : ℕ) (frame : Bytes) (c : Client)
    → CounterHasRoom c
    → accounted (hold_video clock frame c).1 ≡ accounted c + 1
unfolding hold_video accounted
hold_video-accounted clock frame c room = ground arith

hold_heartbeat-accounted :
    (clock : ℕ) (frame : Bytes) (c : Client)
    → CounterHasRoom c
    → accounted (hold_heartbeat clock frame c) ≡ accounted c + 1
unfolding hold_heartbeat accounted
hold_heartbeat-accounted clock frame c room = ground arith

queue_frame_status-accounted :
    (clock : ℕ) (frame : Bytes) (c : Client)
    → CounterHasRoom c
    → accounted (queue_frame clock 0x1 frame true c).1 ≡ accounted c + 1
unfolding queue_frame accounted
queue_frame_status-accounted clock frame c room = ground arith

single_slots-hold_audio :
    (clock : ℕ) (frame : Bytes) (d : ℕ) (c : Client)
    → single_slots (hold_audio clock frame d c).1 ≡ single_slots c
unfolding hold_audio
single_slots-hold_audio clock frame d c = ground arith

hold_audio-accounted :
    (clock : ℕ) (frame : Bytes) (d : ℕ) (c : Client)
    → IsValid c.audio_queue
    → d ≤ audio_max_duration
    → CounterHasRoom c
    → accounted (hold_audio clock frame d c).1 ≡ accounted c + 1
unfolding accounted
hold_audio-accounted clock frame d c v h room =
    let (_, _, same, counted) = hold_audio_refines clock frame d c v h room in
    omega (
      arith,
      single_slots-hold_audio clock frame d c,
      ap length same,
      length-packets (hold_audio clock frame d c).1.audio_queue,
      length-append (evict d (packets c.audio_queue)) (_ ∷ []),
      counted,
    )

alloc-cases :
    (opcode : ℕ) (payload : Bytes)
    → length payload ≤ output_max
    → (frame : Bytes) × (websocket_frame_alloc true opcode payload ≡ some frame)
alloc-cases opcode payload h = (
  frame_header opcode (length payload) ++ payload,
  ground (arith, websocket_frame_alloc_lem true opcode payload),
)

pub length-heartbeat_reply : (sequence : ℕ) → length (heartbeat_reply sequence) < 80
unfolding heartbeat_reply
length-heartbeat_reply sequence =
    omega (arith, length-append (decimal sequence) (b'}' ∷ []), length-decimal sequence)

status-accounted :
    (clock : ℕ) (payload : Bytes) (c : Client)
    → length payload ≤ output_max
    → CounterHasRoom c
    → accounted (websocket_queue true clock 0x1 payload true c).1 ≡ accounted c + 1
unfolding websocket_queue
status-accounted clock payload c fits room =
    let (frame, e) = alloc-cases 0x1 payload fits in
    rw (e, websocket_queue) (queue_frame_status-accounted clock frame c room)

heartbeat-accounted :
    (clock sequence : ℕ) (c : Client)
    → c.closing ≡ false
    → CounterHasRoom c
    → accounted (websocket_queue_heartbeat true clock sequence c).1 ≡ accounted c + 1
unfolding websocket_queue_heartbeat
heartbeat-accounted clock sequence c ongoing room =
    let short = length-heartbeat_reply sequence in
    let (frame, e) = alloc-cases 0x1 (heartbeat_reply sequence) (omega (arith, short)) in
    ground (arith, e, short, hold_heartbeat-accounted clock frame c)

video-accounted :
    (clock : ℕ) (payload : Bytes) (c : Client)
    → c.closing ≡ false
    → length payload ≤ output_max
    → CounterHasRoom c
    → accounted (websocket_queue_video true clock payload c).1 ≡ accounted c + 1
unfolding websocket_queue_video
video-accounted clock payload c ongoing fits room =
    let (frame, e) = alloc-cases 0x2 payload fits in
    ground (arith, e, hold_video-accounted clock frame c)

activate-accounted :
    (clock : ℕ) (frame : Bytes) (opcode : ℕ) (kind : OutputKind) (c : Client)
    → is_some c.out ≡ false
    → accounted (websocket_activate clock frame opcode kind c) ≡ accounted c + 1
unfolding accounted websocket_activate
activate-accounted clock frame opcode kind c h = ground arith

count_drops-accounted :
    (n : ℕ) (c : Client) → n ≤ 8 → CounterHasRoom c → accounted (count_drops n c) ≡ accounted c + n
unfolding accounted count_drops
count_drops-accounted n c h room = omega arith

audio-accounted :
    (clock : ℕ) (payload : Bytes) (d : ℕ) (c : Client)
    → c.closing ≡ false
    → length payload ≤ output_max
    → IsValid c.audio_queue
    → CounterHasRoom c
    → accounted (websocket_queue_audio true clock payload d c).1 ≡ accounted c + 1
unfolding websocket_queue_audio
audio-accounted clock payload d c ongoing fits v room =
    let (frame, e) = alloc-cases 0x2 payload fits in
    ground (
      arith,
      e,
      activate-accounted clock frame 0x2 OutputKind.audio c,
      count_drops-accounted 1 c,
      hold_audio-accounted clock frame d c v,
    )

-- While a client is not closing, memory is at hand and the payload is within the bound, each
-- frame that is queued as a status, a heartbeat, an audio packet or a video frame is accounted
-- for: what the client holds and what it has counted as dropped grow by exactly one together.
pub queue-accounted :
    (clock sequence d : ℕ) (payload : Bytes) (c : Client)
    → c.closing ≡ false
    → length payload ≤ output_max
    → IsValid c.audio_queue
    → CounterHasRoom c
    → (accounted (websocket_queue true clock 0x1 payload true c).1 ≡ accounted c + 1)
      × (accounted (websocket_queue_heartbeat true clock sequence c).1 ≡ accounted c + 1)
      × (accounted (websocket_queue_audio true clock payload d c).1 ≡ accounted c + 1)
      × (accounted (websocket_queue_video true clock payload c).1 ≡ accounted c + 1)
queue-accounted clock sequence d payload c ongoing fits v room = (
  status-accounted clock payload c fits room,
  heartbeat-accounted clock sequence c ongoing room,
  audio-accounted clock payload d c ongoing fits v room,
  video-accounted clock payload c ongoing fits room,
)
