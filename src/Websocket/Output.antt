-- ===== src/Websocket/Output.antt =====
-- The output half of `struct client` in package/nes-emulator/src/http.c, and the functions that
-- queue, promote and expire frames. A buffer and its length are one list, NULL is `none`, and what
-- `websocket_clear_active` zeroes together is one optional record. Clock readings are arguments:
-- `now` is a caller's, `clock` the one that `websocket_activate` or a queueing function makes.
pub mod Media
pub mod Conserve
use openwrt_nes_emulator.Base.{
  ℕ, zero, suc, ◌+◌, ◌-◌, ◌/◌, ◌%◌, Bool, true, false, not, ◌&&◌, ◌||◌, List, [], ◌∷◌, ◌++◌, Option,
  none, some, Bytes, length, ltb, leb, ◌==◌, if◌then◌else◌, sub64, add64, decimal,
}
use openwrt_nes_emulator.Websocket.Audio.{
  AudioPacket, AudioQueue, websocket_audio_oldest, websocket_audio_drop_oldest,
  websocket_audio_take_oldest, websocket_audio_clear, audio_crowded, audio_fresh,
  audio_max_duration, make_room, store_packet,
}
use openwrt_nes_emulator.Websocket.Frame.{websocket_frame_alloc, byte_at}

-- `enum websocket_output_kind`, but for `WS_OUT_NONE`
pub data OutputKind : Type 0 where
  http control heartbeat status audio video : OutputKind

-- `out`, `out_off`, `out_opcode`, `out_kind`, `out_since_ms`, `out_progress_ms`
pub record Active : Type 0 where
  pub frame : Bytes
  pub off : ℕ
  pub opcode : ℕ
  pub kind : OutputKind
  pub since_ms : ℕ
  pub progress_ms : ℕ

-- `control_out`, `control_opcode`
pub record ControlFrame : Type 0 where
  pub frame : Bytes
  pub opcode : ℕ

-- `video_out`, `video_queued_ms`
pub record VideoFrame : Type 0 where
  pub frame : Bytes
  pub queued_ms : ℕ

pub record Client : Type 0 where
  pub dead : Bool
  pub closing : Bool
  pub close_frame_sent : Bool
  pub close_frame_received : Bool
  pub close_deadline_ms : ℕ
  pub ping_queued : Bool
  pub ping_outstanding : Bool
  pub ping_sent_ms : ℕ
  pub last_ping_ms : ℕ
  pub out : Option Active
  pub control_out : Option ControlFrame
  pub status_out : Option Bytes
  pub heartbeat_out : Option Bytes
  pub audio_queue : AudioQueue
  pub video_out : Option VideoFrame
  pub dropped_packets : ℕ

-- The results -1, 0 and 1 of the queueing functions.
pub data Queued : Type 0 where
  failed queued refused : Queued

-- `WS_VIDEO_MAX_AGE_MS`, `WS_AUDIO_MAX_AGE_MS`, the two output timeouts
abbrev pub video_max_age : ℕ
video_max_age = 350

abbrev pub active_audio_max_age : ℕ
active_audio_max_age = 250

abbrev output_stall_timeout : ℕ
output_stall_timeout = 4000

abbrev output_max_age : ℕ
output_max_age = 12000

abbrev pub is_some {ℓ} : {A : Type ℓ} → Option A → Bool
is_some none = false
is_some (some a) = true

-- `dropped_packets++`, done `n` times
unfoldable pub count_drops : ℕ → Client → Client
count_drops n c = record c { dropped_packets = add64 c.dropped_packets n }

unfoldable pub websocket_activate : ℕ → Bytes → ℕ → OutputKind → Client → Client
websocket_activate clock frame opcode kind c = record c {
  out = some (record {
    frame = frame;
    off = 0;
    opcode = opcode;
    kind = kind;
    since_ms = clock;
    progress_ms = clock;
  });
}

unfoldable pub websocket_clear_active : Client → Client
websocket_clear_active c = record c { out = none }

-- `c->control_opcode`, which is 0 when there is no control frame
abbrev pub control_opcode : Option ControlFrame → ℕ
control_opcode none = 0
control_opcode (some f) = f.opcode

-- `c->out && c->out_off == 0`
abbrev pub unsent : Option Active → Bool
unsent none = false
unsent (some a) = a.off == 0

abbrev out_opcode : Option Active → ℕ
out_opcode none = 0
out_opcode (some a) = a.opcode

-- The block of `websocket_queue` under `if (closing_frame)`.
unfoldable pub discard_for_close : Client → Client
unfolding websocket_audio_clear
discard_for_close c =
    let ping = if control_opcode c.control_out == 0x9 then false else c.ping_queued in
    let emptied : Client = record c {
      audio_queue = websocket_audio_clear c.audio_queue;
      video_out = none;
      status_out = none;
      heartbeat_out = none;
      control_out = none;
      ping_queued = ping;
    } in
    if unsent c.out
    then record emptied {
      out = none;
      ping_queued = if out_opcode c.out == 0x9 then false else ping;
    }
    else emptied

-- `opcode & 0x08`
abbrev pub is_control : ℕ → Bool
is_control opcode = opcode / 8 % 2 == 1

-- The store of a control frame behind an active one.
unfoldable pub hold_control : Bytes → ℕ → Client → Client
hold_control frame opcode c = record c {
  control_out = some (record { frame = frame; opcode = opcode });
  ping_queued =
      if opcode == 0x9
      then true
      else if control_opcode c.control_out == 0x9
      then false
      else c.ping_queued;
}

unfoldable pub hold_status : Bytes → Client → Client
unfolding count_drops
hold_status frame c =
    let counted = if is_some c.status_out then count_drops 1 c else c in
    record counted { status_out = some frame }

-- `websocket_queue` from the test `!c->out` on, with the frame built.
unfoldable pub queue_frame : ℕ → ℕ → Bytes → Bool → Client → Queued × Client
unfolding websocket_activate hold_control hold_status count_drops
queue_frame clock opcode frame priority c =
    if not (is_some c.out)
    then (
      queued,
      record (websocket_activate clock frame opcode (if is_control opcode then control else status)
          c) { ping_queued = if opcode == 0x9 then true else c.ping_queued },
    )
    else if is_control opcode
    then (if not (is_some c.control_out) || opcode == 0x0a
        then (queued, hold_control frame opcode c)
        else (refused, count_drops 1 c))
    else if priority
    then (queued, hold_status frame c)
    else (refused, count_drops 1 c)

unfoldable pub websocket_queue : Bool → ℕ → ℕ → Bytes → Bool → Client → Queued × Client
unfolding discard_for_close
websocket_queue memory clock opcode payload priority c =
    elim (websocket_frame_alloc memory opcode payload) [
      | none ↦ (failed, c)
      | some frame ↦
          queue_frame clock opcode frame priority (if opcode == 0x8 then discard_for_close c else c)
    ]

-- `{"t":"heartbeat","seq":N}`
unfoldable pub heartbeat_reply : ℕ → Bytes
heartbeat_reply sequence =
    b'{'
    ∷ b'"'
    ∷ b't'
    ∷ b'"'
    ∷ b':'
    ∷ b'"'
    ∷ b'h'
    ∷ b'e'
    ∷ b'a'
    ∷ b'r'
    ∷ b't'
    ∷ b'b'
    ∷ b'e'
    ∷ b'a'
    ∷ b't'
    ∷ b'"'
    ∷ b','
    ∷ b'"'
    ∷ b's'
    ∷ b'e'
    ∷ b'q'
    ∷ b'"'
    ∷ b':'
    ∷ (decimal sequence ++ b'}' ∷ [])

abbrev same_kind : OutputKind → OutputKind → Bool
same_kind heartbeat heartbeat = true
same_kind video video = true
same_kind audio audio = true
same_kind status status = true
same_kind control control = true
same_kind http http = true
same_kind _ _ = false

-- `c->out && c->out_kind == kind`
abbrev pub is_kind : OutputKind → Option Active → Bool
is_kind k none = false
is_kind k (some a) = same_kind k a.kind

unfoldable pub hold_heartbeat : ℕ → Bytes → Client → Client
unfolding count_drops websocket_clear_active websocket_activate
hold_heartbeat clock frame c =
    let c1 : Client =
      if is_some c.heartbeat_out then count_drops 1 (record c { heartbeat_out = none }) else c in
    let c2 =
      if is_kind heartbeat c.out && unsent c.out
      then count_drops 1 (websocket_clear_active c1)
      else c1 in
    if not (is_some c2.out)
    then websocket_activate clock frame 0x1 heartbeat c2
    else record c2 { heartbeat_out = some frame }

-- `reply` holds 80 bytes with the terminator.
unfoldable pub websocket_queue_heartbeat : Bool → ℕ → ℕ → Client → Queued × Client
websocket_queue_heartbeat memory clock sequence c =
    if c.closing
    then (refused, c)
    else if leb 80 (length (heartbeat_reply sequence))
    then (failed, c)
    else elim (websocket_frame_alloc memory 0x1 (heartbeat_reply sequence)) [
      | none ↦ (failed, c)
      | some frame ↦ (queued, hold_heartbeat clock frame c)
    ]

unfoldable pub hold_video : ℕ → Bytes → Client → Queued × Client
unfolding count_drops websocket_activate
hold_video clock frame c =
    if not (is_some c.out)
    then (queued, websocket_activate clock frame 0x2 video c)
    else if is_kind video c.out || is_some c.video_out
    then (refused, count_drops 1 c)
    else (queued, record c { video_out = some (record { frame = frame; queued_ms = clock }) })

unfoldable pub websocket_queue_video : Bool → ℕ → Bytes → Client → Queued × Client
websocket_queue_video memory clock payload c =
    if c.closing then (refused, c) else elim (websocket_frame_alloc memory 0x2 payload) [
      | none ↦ (failed, c)
      | some frame ↦ hold_video clock frame c
    ]

-- `websocket_queue_audio` behind an active frame: make room, and store if there is room now.
unfoldable pub hold_audio : ℕ → Bytes → ℕ → Client → Queued × Client
unfolding count_drops
hold_audio clock frame duration_us c =
    let (q, n) = make_room c.audio_queue.count duration_us c.audio_queue in
    let packet : AudioPacket = record {
      frame = frame;
      queued_ms = clock;
      duration_us = duration_us;
    } in
    if audio_crowded duration_us q
    then (refused, count_drops 1 (count_drops n (record c { audio_queue = q })))
    else (queued, count_drops n (record c { audio_queue = store_packet packet q }))

unfoldable pub websocket_queue_audio : Bool → ℕ → Bytes → ℕ → Client → Queued × Client
websocket_queue_audio memory clock payload duration_us c =
    if c.closing
    then (refused, c)
    else if duration_us == 0 || ltb audio_max_duration duration_us
    then (refused, count_drops 1 c)
    else elim (websocket_frame_alloc memory 0x2 payload) [
      | none ↦ (failed, c)
      | some frame ↦
          if not (is_some c.out)
          then (queued, websocket_activate clock frame 0x2 audio c)
          else hold_audio clock frame duration_us c
    ]
