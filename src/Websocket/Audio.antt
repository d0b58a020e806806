-- ===== src/Websocket/Audio.antt =====
-- The ring of short audio packets of a WebSocket client (package/nes-emulator/src/http.c:
-- `audio_queue`, `audio_queue_head`, `audio_queue_count`, `audio_queue_duration_us`). A packet's
-- frame is a value, so `free` has no model; its length is the frame's.
pub mod Refine
pub mod Room
use openwrt_nes_emulator.Base.{
  ℕ, zero, suc, ◌+◌, ◌-◌, ◌%◌, ◌*◌, Bool, List, [], Option, none, some, ◌||◌, Bytes, get_or, set,
  ltb, leb, ◌==◌, not, ◌&&◌, if◌then◌else◌, sub64, u64_mod,
}

-- `struct websocket_audio_packet`
pub record AudioPacket : Type 0 where
  pub frame : Bytes
  pub queued_ms : ℕ
  pub duration_us : ℕ

-- A slot after `memset`.
abbrev pub blank : AudioPacket
blank = record { frame = []; queued_ms = 0; duration_us = 0 }

pub record AudioQueue : Type 0 where
  pub slots : List AudioPacket
  pub head : ℕ
  pub count : ℕ
  pub duration : ℕ

-- `WS_AUDIO_QUEUE_SLOTS`, `WS_AUDIO_QUEUE_MAX_AGE_MS`, `WS_AUDIO_QUEUE_MAX_DURATION_US`
abbrev pub audio_slots : ℕ
audio_slots = 3

abbrev pub audio_max_age : ℕ
audio_max_age = 120

abbrev pub audio_max_duration : ℕ
audio_max_duration = 120 * 1000

unfoldable pub websocket_audio_oldest : AudioQueue → Option AudioPacket
websocket_audio_oldest q = if q.count == 0 then none else some (get_or q.slots q.head blank)

-- The ring's half of `websocket_audio_drop_oldest`, at a queue that is not empty.
unfoldable pub release_oldest : AudioPacket → AudioQueue → AudioQueue
release_oldest packet q =
    let left = if leb packet.duration_us q.duration then q.duration - packet.duration_us else 0 in
    record {
      slots = set q.slots q.head blank;
      head = if q.count - 1 == 0 then 0 else (q.head + 1) % audio_slots;
      count = q.count - 1;
      duration = if q.count - 1 == 0 then 0 else left;
    }

-- The dropped packets are counted by the client (`Output.count_drop`).
unfoldable pub websocket_audio_drop_oldest : AudioQueue → AudioQueue
unfolding websocket_audio_oldest release_oldest
websocket_audio_drop_oldest q = elim (websocket_audio_oldest q) [
  | none ↦ q
  | some packet ↦ release_oldest packet q
]

-- The loop takes at most `count` rounds, which is the fuel.
unfoldable pub clear_rounds : ℕ → AudioQueue → AudioQueue
unfolding websocket_audio_drop_oldest
clear_rounds zero q = q
clear_rounds (suc fuel) q =
    let rest = clear_rounds fuel (websocket_audio_drop_oldest q) in if q.count == 0 then q else rest

unfoldable pub websocket_audio_clear : AudioQueue → AudioQueue
unfolding clear_rounds
websocket_audio_clear q = clear_rounds q.count q

-- The frame that the caller gets, and the queue without its packet.
unfoldable pub websocket_audio_take_oldest : AudioQueue → Option (Bytes × AudioQueue)
unfolding websocket_audio_oldest release_oldest
websocket_audio_take_oldest q = elim (websocket_audio_oldest q) [
  | none ↦ none
  | some packet ↦ some (packet.frame, release_oldest packet q)
]

-- The test that a packet of this duration has no room.
unfoldable pub audio_crowded : ℕ → AudioQueue → Bool
audio_crowded duration_us q =
    leb audio_slots q.count || ltb (sub64 audio_max_duration q.duration) duration_us

-- The loop of `websocket_queue_audio` that makes room, with the packets that it drops.
unfoldable pub make_room : ℕ → ℕ → AudioQueue → AudioQueue × ℕ
unfolding websocket_audio_drop_oldest audio_crowded
make_room zero duration_us q = (q, 0)
make_room (suc fuel) duration_us q =
    let (q', n) = make_room fuel duration_us (websocket_audio_drop_oldest q) in
    if not (q.count == 0) && audio_crowded duration_us q then (q', n + 1) else (q, 0)

-- The write at the tail of the ring.
unfoldable pub store_packet : AudioPacket → AudioQueue → AudioQueue
store_packet packet q = record {
  slots = set q.slots ((q.head + q.count) % audio_slots) packet;
  head = q.head;
  count = q.count + 1;
  duration = q.duration + packet.duration_us;
}

-- `now - packet->queued_ms <= WS_AUDIO_QUEUE_MAX_AGE_MS`, on `uint64_t`.
unfoldable pub audio_fresh : ℕ → AudioPacket → Bool
audio_fresh now packet = leb (sub64 now packet.queued_ms) audio_max_age
