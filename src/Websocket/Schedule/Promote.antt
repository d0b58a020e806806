-- ===== src/Websocket/Schedule/Promote.antt =====
-- Which waiting frame is sent next, and what happens to the frames that are not.
use openwrt_nes_emulator.Base.{ℕ, ◌≡◌, Option, none, some, arith, Bytes, if◌then◌else◌}
use openwrt_nes_emulator.Websocket.Audio.Refine.{IsValid, packets}
use openwrt_nes_emulator.Websocket.Output.{OutputKind, Active, Client, ControlFrame, VideoFrame}
use openwrt_nes_emulator.Websocket.Schedule.Stale.{
  fresh_suffix, head?, frame?, promote_audio_refines,
}
use openwrt_nes_emulator.Websocket.Schedule.{
  promote_media, promote_text, websocket_promote_next, video_fresh,
}

-- A frame to send, with its opcode and its kind.
pub record Choice : Type 0 where
  pub frame : Bytes
  pub opcode : ℕ
  pub kind : OutputKind

abbrev pub choose : Bytes → ℕ → OutputKind → Option Choice
choose frame opcode kind = some (record { frame = frame; opcode = opcode; kind = kind })

abbrev or_else : Option Choice → Option Choice → Option Choice
or_else none later = later
or_else (some x) later = some x

pub control_choice : Option ControlFrame → Option Choice
control_choice none = none
control_choice (some f) = choose f.frame f.opcode OutputKind.control

pub frame_choice : ℕ → OutputKind → Option Bytes → Option Choice
frame_choice opcode kind none = none
frame_choice opcode kind (some frame) = choose frame opcode kind

pub video_choice : ℕ → Option VideoFrame → Option Choice
video_choice now none = none
video_choice now (some v) = if video_fresh now v then choose v.frame 0x2 OutputKind.video else none

-- The priorities: control, heartbeat, status, the first fresh audio packet, a fresh video frame.
pub next_choice : ℕ → Client → Option Choice
next_choice now c = or_else (control_choice c.control_out) (
    or_else (frame_choice 0x1 OutputKind.heartbeat c.heartbeat_out) (
      or_else (frame_choice 0x1 OutputKind.status c.status_out) (
        or_else
          (frame_choice 0x2 OutputKind.audio
            (frame? (head? (fresh_suffix now (packets c.audio_queue)))))
          (video_choice now c.video_out))))

pub activated : ℕ → Option Choice → Option Active
activated clock none = none
activated clock (some x) = some (record {
  frame = x.frame;
  off = 0;
  opcode = x.opcode;
  kind = x.kind;
  since_ms = clock;
  progress_ms = clock;
})

promote_media_choice :
    (now clock : ℕ) (c : Client)
    → c.out ≡ none
    → IsValid c.audio_queue
    → (promote_media now clock c).out
      ≡ activated clock (
          or_else
            (frame_choice 0x2 OutputKind.audio
              (frame? (head? (fresh_suffix now (packets c.audio_queue)))))
            (video_choice now c.video_out))
unfolding promote_media activated frame_choice video_choice
promote_media_choice now clock c idle v =
    let r = promote_audio_refines c.audio_queue.count now c.audio_queue v (omega arith) in
    rw (← r.0) (ground arith)

abbrev pub active_or : Option Active → Option Active → Option Active
active_or none next = next
active_or (some a) next = some a

promote_text_choice :
    (now clock : ℕ) (c : Client)
    → c.out ≡ none
    → c.control_out ≡ none
    → IsValid c.audio_queue
    → (promote_text now clock c).out ≡ activated clock (next_choice now c)
unfolding promote_text next_choice frame_choice control_choice activated
promote_text_choice now clock c idle quiet v =
    ground (arith, promote_media_choice now clock c idle v)

-- An active frame stays. With none, the frame activated is the first by priority, if there is one,
-- with no byte sent and the clock's reading as its age.
pub promote_next_priority :
    (now clock : ℕ) (c : Client)
    → IsValid c.audio_queue
    → (websocket_promote_next now clock c).out
      ≡ active_or c.out (activated clock (next_choice now c))
unfolding websocket_promote_next next_choice control_choice activated
promote_next_priority now clock c v = ground (arith, promote_text_choice now clock c)
