-- ===== src/Websocket/Tests.antt =====
-- Runs of the WebSocket output at small inputs, and the theorems at clients that they apply to.
use openwrt_nes_emulator.Base.{
  ℕ, ◌+◌, ◌≤◌, ◌≡◌, refl, true, false, [], ◌∷◌, ◌++◌, none, some, arith, Bytes, length,
  if◌then◌else◌, ltb,
}
use openwrt_nes_emulator.Websocket.Audio.{AudioPacket, AudioQueue}
use openwrt_nes_emulator.Websocket.Audio.Refine.{IsValid, packets}
use openwrt_nes_emulator.Websocket.Audio.Room.{evict}
use openwrt_nes_emulator.Websocket.Frame.{websocket_frame_alloc}
use openwrt_nes_emulator.Websocket.Frame.Decode.{unframe, framed, unframe-websocket_frame_alloc}
use openwrt_nes_emulator.Websocket.Output.{
  OutputKind, Client, queued, hold_audio, websocket_queue, websocket_queue_heartbeat,
  websocket_queue_audio, websocket_queue_video,
}
use openwrt_nes_emulator.Websocket.Output.Media.{packet_of, hold_audio_refines}
use openwrt_nes_emulator.Websocket.Output.Conserve.{accounted, queue-accounted}
use openwrt_nes_emulator.Websocket.Schedule.{websocket_promote_next, websocket_expire_stale_media}
use openwrt_nes_emulator.Websocket.Schedule.Promote.{
  active_or, activated, next_choice, promote_next_priority,
}
use openwrt_nes_emulator.Websocket.Schedule.Conserve.{
  promote_next-accounted, expire_stale_media-accounted,
}
use openwrt_nes_emulator.Websocket.Flush.{
  Socket, sent, broken, websocket_flush, flush_bytes, flush_syscalls, IsHonest,
}
use openwrt_nes_emulator.Websocket.Flush.Stream.{Streams, activated_frames, flush_stream}
use openwrt_nes_emulator.Websocket.Close.{websocket_close}
use openwrt_nes_emulator.Websocket.Close.Drain.{close_frame, close_active, preempted, close_lem}

abbrev packet : ℕ → ℕ → AudioPacket
packet at d = record { frame = 0x82 ∷ 1 ∷ 9 ∷ []; queued_ms = at; duration_us = d }

-- A full ring whose oldest packet stands in slot 2.
abbrev full_ring : AudioQueue
full_ring = record {
  slots = packet 20 30000 ∷ packet 30 40000 ∷ packet 10 40000 ∷ [];
  head = 2;
  count = 3;
  duration = 110000;
}

full_ring-IsValid : IsValid full_ring
full_ring-IsValid = omega arith

-- A client in the middle of a video frame, with packets, a status and a video frame behind it.
abbrev busy : Client
busy = record {
  dead = false;
  closing = false;
  close_frame_sent = false;
  close_frame_received = false;
  close_deadline_ms = 0;
  ping_queued = false;
  ping_outstanding = false;
  ping_sent_ms = 0;
  last_ping_ms = 0;
  out = some (record {
    frame = 0x82 ∷ 2 ∷ 1 ∷ 2 ∷ [];
    off = 1;
    opcode = 0x2;
    kind = OutputKind.video;
    since_ms = 5;
    progress_ms = 6;
  });
  control_out = none;
  status_out = some (0x81 ∷ 1 ∷ 3 ∷ []);
  heartbeat_out = none;
  audio_queue = full_ring;
  video_out = some (record { frame = 0x82 ∷ 0 ∷ []; queued_ms = 11 });
  dropped_packets = 4;
}

abbrev idle : Client
idle = record busy { out = none; status_out = none }

-- A socket that takes one byte at each call.
abbrev trickle : Socket
trickle i w = record {
  result = if ltb 0 w then sent 1 else broken;
  progressed_at = i;
  activated_at = i;
}

trickle-IsHonest : IsHonest trickle
trickle-IsHonest i w n h = ground arith

unframe-websocket_frame_alloc_example :
    (frame : Bytes) × (websocket_frame_alloc true 0x2 (7 ∷ 8 ∷ []) ≡ some frame)
    × (unframe (frame ++ (5 ∷ [])) ≡ some (framed 0x2 (7 ∷ 8 ∷ []) (5 ∷ [])))
unframe-websocket_frame_alloc_example =
    unframe-websocket_frame_alloc 0x2 (7 ∷ 8 ∷ []) (5 ∷ []) (omega arith)

hold_audio_refines_example :
    let r = hold_audio 40 (0x82 ∷ 0 ∷ []) 60000 busy in
    let kept = evict 60000 (packets busy.audio_queue) in
    (r.0 ≡ queued)
    × IsValid r.1.audio_queue
    × (packets r.1.audio_queue ≡ kept ++ (packet_of 40 (0x82 ∷ 0 ∷ []) 60000 ∷ []))
    × (r.1.dropped_packets + length kept ≡ busy.dropped_packets + busy.audio_queue.count)
hold_audio_refines_example =
    hold_audio_refines 40 (0x82 ∷ 0 ∷ []) 60000 busy full_ring-IsValid (omega arith) (omega arith)

queue-accounted_example :
    (accounted (websocket_queue true 40 0x1 (7 ∷ []) true busy).1 ≡ accounted busy + 1)
    × (accounted (websocket_queue_heartbeat true 40 9 busy).1 ≡ accounted busy + 1)
    × (accounted (websocket_queue_audio true 40 (7 ∷ []) 60000 busy).1 ≡ accounted busy + 1)
    × (accounted (websocket_queue_video true 40 (7 ∷ []) busy).1 ≡ accounted busy + 1)
queue-accounted_example =
    queue-accounted 40 9 60000 (7 ∷ []) busy refl (omega arith) full_ring-IsValid (omega arith)

promote_next_priority_example :
    (websocket_promote_next 135 136 idle).out
    ≡ active_or idle.out (activated 136 (next_choice 135 idle))
promote_next_priority_example = promote_next_priority 135 136 idle full_ring-IsValid

promote_next-accounted_example : accounted (websocket_promote_next 135 136 idle) ≡ accounted idle
promote_next-accounted_example = promote_next-accounted 135 136 idle full_ring-IsValid (omega arith)

expire_stale_media-accounted_example :
    accounted (websocket_expire_stale_media 500 501 busy) ≡ accounted busy
expire_stale_media-accounted_example =
    expire_stale_media-accounted 500 501 busy full_ring-IsValid (omega arith)

flush_stream_example :
    Streams busy
      (websocket_flush trickle busy)
      (activated_frames flush_syscalls 0 flush_bytes trickle busy)
    × (length (websocket_flush trickle busy).wire ≤ flush_bytes)
flush_stream_example = flush_stream trickle busy trickle-IsHonest (omega arith)

close_lem_example :
    let c' = websocket_close true 60 1002 busy in
    (c'.closing ≡ true)
    × (c'.dead ≡ busy.dead)
    × (c'.status_out ≡ none)
    × (c'.heartbeat_out ≡ none)
    × (c'.video_out ≡ none)
    × (c'.audio_queue.count ≡ 0)
    × (c'.out ≡ (if preempted busy.out then some (close_active 60 1002) else busy.out))
    × (c'.control_out ≡ (
        if preempted busy.out
        then none
        else some (record { frame = close_frame 1002; opcode = 0x8 })))
close_lem_example = close_lem 60 1002 busy refl full_ring-IsValid
