-- ===== src/Websocket/Schedule.antt =====
-- What a WebSocket client sends next (package/nes-emulator/src/http.c): the promotion of a waiting
-- frame, the expiry of stale media, and the flush of the active frame to the socket.
pub mod Stale
pub mod Promote
pub mod Conserve
use openwrt_nes_emulator.Base.{
  ℕ, zero, suc, ◌+◌, ◌-◌, ◌≤◌, Bool, true, false, not, ◌&&◌, ◌||◌, List, [], ◌∷◌, ◌++◌, Option,
  none, some, Bytes, length, take, drop, min, ltb, leb, ◌==◌, if◌then◌else◌, sub64, add64,
}
use openwrt_nes_emulator.Websocket.Audio.{
  AudioQueue, websocket_audio_oldest, websocket_audio_drop_oldest, websocket_audio_take_oldest,
  audio_fresh,
}
use openwrt_nes_emulator.Websocket.Output.{
  OutputKind, Active, ControlFrame, VideoFrame, Client, count_drops, websocket_activate,
  websocket_clear_active, is_kind, is_some, unsent, video_max_age, active_audio_max_age,
}

-- The loop of `websocket_promote_next` over the audio packets: the frame to activate, if a fresh
-- packet is found, the queue that is left, and the stale packets dropped. `fuel` is the count.
unfoldable pub promote_audio : ℕ → ℕ → AudioQueue → Option Bytes × AudioQueue × ℕ
promote_audio zero now q = (none, q, 0)
promote_audio (suc fuel) now q =
    let (found, q', n) = promote_audio fuel now (websocket_audio_drop_oldest q) in
    elim (websocket_audio_oldest q) [
      | none ↦ (none, q, 0)
      | some packet ↦
          if audio_fresh now packet
          then elim (websocket_audio_take_oldest q) [
            | none ↦ (none, q, 0)
            | some (frame, rest) ↦ (some frame, rest, 0)
          ]
          else (found, q', n + 1)
    ]

-- `now - c->video_queued_ms <= WS_VIDEO_MAX_AGE_MS`
unfoldable pub video_fresh : ℕ → VideoFrame → Bool
video_fresh now v = leb (sub64 now v.queued_ms) video_max_age

-- The last part of `websocket_promote_next`.
unfoldable pub promote_video : ℕ → ℕ → Client → Client
unfolding video_fresh websocket_activate count_drops
promote_video now clock c = elim c.video_out [
  | none ↦ c
  | some v ↦
      if video_fresh now v
      then websocket_activate clock v.frame 0x2 OutputKind.video (record c { video_out = none })
      else count_drops 1 (record c { video_out = none })
]

unfoldable pub promote_media : ℕ → ℕ → Client → Client
unfolding promote_audio promote_video websocket_activate count_drops
promote_media now clock c =
    let (found, q, n) = promote_audio c.audio_queue.count now c.audio_queue in
    let c' = count_drops n (record c { audio_queue = q }) in
    elim found [
      | none ↦ promote_video now clock c'
      | some frame ↦ websocket_activate clock frame 0x2 OutputKind.audio c'
    ]

unfoldable pub promote_text : ℕ → ℕ → Client → Client
unfolding promote_media websocket_activate
promote_text now clock c = elim c.heartbeat_out [
  | some frame ↦
      websocket_activate clock frame 0x1 OutputKind.heartbeat (record c { heartbeat_out = none })
  | none ↦ elim c.status_out [
    | some frame ↦
        websocket_activate clock frame 0x1 OutputKind.status (record c { status_out = none })
    | none ↦ promote_media now clock c
  ]
]

unfoldable pub websocket_promote_next : ℕ → ℕ → Client → Client
unfolding promote_text websocket_activate
websocket_promote_next now clock c = elim c.out [
  | some _ ↦ c
  | none ↦ elim c.control_out [
    | some f ↦
        websocket_activate clock f.frame f.opcode OutputKind.control
          (record c { control_out = none })
    | none ↦ promote_text now clock c
  ]
]

-- The first loop of `websocket_expire_stale_media`; `fuel` is the count.
unfoldable pub expire_audio : ℕ → ℕ → AudioQueue → AudioQueue × ℕ
expire_audio zero now q = (q, 0)
expire_audio (suc fuel) now q =
    let (q', n) = expire_audio fuel now (websocket_audio_drop_oldest q) in
    elim (websocket_audio_oldest q) [
      | none ↦ (q, 0)
      | some packet ↦ if audio_fresh now packet then (q, 0) else (q', n + 1)
    ]

unfoldable pub expire_video : ℕ → Client → Client
unfolding video_fresh count_drops
expire_video now c = elim c.video_out [
  | none ↦ c
  | some v ↦ if video_fresh now v then c else count_drops 1 (record c { video_out = none })
]

-- An active audio or video frame of which no byte is sent has waited too long.
unfoldable pub active_stale : ℕ → Option Active → Bool
active_stale now none = false
active_stale now (some a) =
    a.off == 0
    && ((is_kind OutputKind.audio (some a) && ltb active_audio_max_age (sub64 now a.since_ms))
        || (is_kind OutputKind.video (some a) && ltb video_max_age (sub64 now a.since_ms)))

unfoldable pub websocket_expire_stale_media : ℕ → ℕ → Client → Client
websocket_expire_stale_media now clock c =
    let (q, n) = expire_audio c.audio_queue.count now c.audio_queue in
    let c1 = expire_video now (count_drops n (record c { audio_queue = q })) in
    if active_stale now c1.out
    then websocket_promote_next now clock (count_drops 1 (websocket_clear_active c1))
    else c1

-- `WS_OUTPUT_STALL_TIMEOUT_MS`, `WS_OUTPUT_MAX_AGE_MS`
unfoldable pub websocket_output_expired : ℕ → Client → Bool
websocket_output_expired now c = elim c.out [
  | none ↦ false
  | some a ↦
      (leb a.progress_ms now && leb 4000 (sub64 now a.progress_ms))
      || (leb a.since_ms now && leb 12000 (sub64 now a.since_ms))
]
