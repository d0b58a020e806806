-- ===== src/Websocket/Output/Media.antt =====
-- Queueing media: what is held, what is refused, and what is counted as dropped.
use openwrt_nes_emulator.Base.{
  ℕ, ◌+◌, ◌≤◌, ◌<◌, ◌≡◌, refl, ◌∙◌, ap, Bool, true, false, [], ◌∷◌, ◌++◌, arith, Bytes, length,
  u64_mod,
}
use openwrt_nes_emulator.Websocket.Audio.{
  AudioPacket, AudioQueue, audio_max_duration, make_room, store_packet,
}
use openwrt_nes_emulator.Websocket.Audio.Refine.{IsValid, packets, store_packet_refines}
use openwrt_nes_emulator.Websocket.Audio.Room.{evict, make_room_refines, make_room_not_crowded}
use openwrt_nes_emulator.Websocket.Output.{Client, queued, count_drops, is_some, hold_audio}

abbrev pub one_if : Bool → ℕ
one_if true = 1
one_if false = 0

-- The frames of status, heartbeat, audio and video that a client holds, the active one included.
abbrev pub held : Client → ℕ
held c =
    one_if (is_some c.out)
    + one_if (is_some c.control_out)
    + one_if (is_some c.heartbeat_out)
    + one_if (is_some c.status_out)
    + c.audio_queue.count
    + one_if (is_some c.video_out)

-- The drop counter is far from its wrap.
abbrev pub CounterHasRoom : Client → Type 0
CounterHasRoom c = c.dropped_packets + 8 < u64_mod

abbrev pub packet_of : ℕ → Bytes → ℕ → AudioPacket
packet_of clock frame duration_us = record {
  frame = frame;
  queued_ms = clock;
  duration_us = duration_us;
}

module _ (clock : ℕ) (frame : Bytes) (d : ℕ) (c : Client) (v : IsValid c.audio_queue) where
  module _ (h : d ≤ audio_max_duration) where
    made : AudioQueue × ℕ
    made = make_room c.audio_queue.count d c.audio_queue

    hold_audio_accepts : hold_audio clock frame d c ≡ (
      queued,
      count_drops made.1 (record c { audio_queue = store_packet (packet_of clock frame d) made.0 }),
    )
    unfolding hold_audio made
    hold_audio_accepts = rw (make_room_not_crowded d c.audio_queue v h)

    made_lem :
        IsValid made.0
        × (packets made.0 ≡ evict d (packets c.audio_queue))
        × (length (evict d (packets c.audio_queue)) + made.1 ≡ c.audio_queue.count)
    unfolding made
    made_lem = make_room_refines c.audio_queue.count d c.audio_queue v (omega arith)

    stored :
        IsValid (store_packet (packet_of clock frame d) made.0)
        × (packets (store_packet (packet_of clock frame d) made.0)
            ≡ packets made.0 ++ (packet_of clock frame d ∷ []))
    unfolding made
    stored =
        store_packet_refines (packet_of clock frame d) made.0 made_lem.0
          (make_room_not_crowded d c.audio_queue v h)

-- Behind an active frame, an audio packet of a permitted duration is always accepted: the oldest
-- packets are dropped, one by one and counted, until it fits, and it is stored last.
pub hold_audio_refines :
    (clock : ℕ) (frame : Bytes) (duration_us : ℕ) (c : Client)
    → IsValid c.audio_queue
    → duration_us ≤ audio_max_duration
    → CounterHasRoom c
    → let r = hold_audio clock frame duration_us c in
      let kept = evict duration_us (packets c.audio_queue) in
      (r.0 ≡ queued)
      × IsValid r.1.audio_queue
      × (packets r.1.audio_queue ≡ kept ++ (packet_of clock frame duration_us ∷ []))
      × (r.1.dropped_packets + length kept ≡ c.dropped_packets + c.audio_queue.count)
unfolding count_drops
hold_audio_refines clock frame d c v h room =
    let m = made_lem clock frame d c v h in
    let s = stored clock frame d c v h in
    rw (hold_audio_accepts clock frame d c v h)
      (refl, s.0, s.1 ∙ ap (λ ps. ps ++ (packet_of clock frame d ∷ [])) m.1, omega arith)
