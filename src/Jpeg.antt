-- ===== src/Jpeg.antt =====
-- The JPEG worker of package/nes-emulator/src/http.c: `struct nes_jpeg_worker`, the functions the
-- network thread calls, and the three parts of `jpeg_worker_thread`: what it does under the lock
-- when it takes a frame, the encoding without the lock, and what it does under the lock after it.
-- The encoder behind `worker->encode` is an argument; it writes the bytes it returns.
pub mod Invariant
pub mod Session
mod Tests
use openwrt_nes_emulator.Base.{
  ℕ, ◌+◌, ◌-◌, ◌*◌, ◌/◌, ◌%◌, ◌^◌, Bool, true, false, not, ◌&&◌, ◌||◌, List, [], ◌∷◌, ◌++◌, Option,
  none, some, Bytes, length, take, ltb, leb, ◌==◌, if◌then◌else◌, u64_mod, sub64, ℤ,
}
use openwrt_nes_emulator.Websocket.Frame.{byte_at}
use openwrt_nes_emulator.Websocket.Output.{video_max_age}
use openwrt_nes_emulator.Pacing.{at_least_zero}

-- A frame with what it is encoded by.
pub record Frame : Type 0 where
  pub pixels : List ℕ
  pub width : ℕ
  pub height : ℕ
  pub quality : ℕ
  pub frame_id : ℕ

-- What the thread holds in its local variables.
pub record Job : Type 0 where
  pub frame : Frame
  pub generation : ℕ

-- Where the thread stands; `busy` is set outside `waiting`.
pub data Phase : Type 0 where
  waiting : Phase
  encoding : Job → Phase
  encoded : Job → ℕ → Phase
  ended : Phase

pub record Worker : Type 0 where
  pub stop : Bool
  pub phase : Phase
  pub pending : Job
  pub pending_ready : Bool
  pub packet : Bytes
  pub completed_ready : Bool
  pub completed_length : ℕ
  pub completed_generation : ℕ
  pub completed_ms : ℕ
  pub generation : ℕ
  pub viewer_session : ℕ
  pub next_session : ℕ

unfoldable pub jpeg_worker_next_generation : ℕ → ℕ
jpeg_worker_next_generation generation =
    let next = (generation + 1) % u64_mod in if next == 0 then 1 else next

-- `NES_MAX_W`, `NES_MAX_H`
abbrev pub bad_size : ℕ → ℕ → Bool
bad_size width height = width == 0 || height == 0 || ltb 512 width || ltb 480 height

-- Each pixel as two bytes, the low one first.
abbrev pub pixel_bytes : List ℕ → Bytes
pixel_bytes [] = []
pixel_bytes (v ∷ vs) = byte_at v 0 ∷ byte_at v 8 ∷ pixel_bytes vs

-- The packet; it has the length that the function returns. A size refused is the empty packet.
unfoldable pub jpeg_worker_make_raw_packet : Frame → Bytes
jpeg_worker_make_raw_packet f =
    let id = f.frame_id in
    if bad_size f.width f.height || ltb ((12 + 512 * 480 * 2 - 12) / 2) (f.width * f.height)
    then []
    else (1
        ∷ 0
        ∷ byte_at f.width 0
        ∷ byte_at f.width 8
        ∷ byte_at f.height 0
        ∷ byte_at f.height 8
        ∷ byte_at id 0
        ∷ byte_at id 8
        ∷ byte_at id 16
        ∷ byte_at id 24
        ∷ 0
        ∷ 0
        ∷ pixel_bytes (take (f.width * f.height) f.pixels))

-- `JPEG_BUF_MAX`
abbrev pub jpeg_max : ℕ
jpeg_max = 256 * 1024

unfoldable pub jpeg_worker_encode_packet : (Frame → Bytes) → Frame → Bytes
jpeg_worker_encode_packet encode f =
    let jpeg = encode f in
    let n = length jpeg in
    if n == 0 || ltb jpeg_max n
    then jpeg_worker_make_raw_packet f
    else (3
        ∷ byte_at f.quality 0
        ∷ byte_at f.width 0
        ∷ byte_at f.width 8
        ∷ byte_at f.height 0
        ∷ byte_at f.height 8
        ∷ byte_at n 0
        ∷ byte_at n 8
        ∷ byte_at n 16
        ∷ byte_at n 24
        ∷ byte_at f.frame_id 0
        ∷ byte_at f.frame_id 8
        ∷ jpeg)

-- The thread under the lock, where the wait is over: it ends, or takes the frame that waits.
unfoldable pub thread_take : Worker → Worker
thread_take w = elim w.phase [
  | waiting ↦
      if w.stop
      then record w { phase = ended }
      else if not w.pending_ready || w.completed_ready
      then w
      else record w { phase = encoding w.pending; pending_ready = false }
  | _ ↦ w
]

-- The thread outside the lock.
unfoldable pub thread_encode : (Frame → Bytes) → Worker → Worker
thread_encode encode w = elim w.phase [
  | encoding job ↦
      let packet = jpeg_worker_encode_packet encode job.frame in
      record w { phase = encoded job (length packet); packet = packet }
  | _ ↦ w
]

-- The thread under the lock again; `now` is the reading of `now_ms`.
unfoldable pub thread_finish : ℕ → Worker → Worker
thread_finish now w = elim w.phase [
  | encoded job n ↦
      if not w.stop && not (n == 0) && not (w.viewer_session == 0) && job.generation == w.generation
      then record w {
        phase = waiting;
        completed_ready = true;
        completed_length = n;
        completed_generation = job.generation;
        completed_ms = now;
      }
      else record w { phase = waiting }
  | _ ↦ w
]

-- What `jpeg_worker_destroy` does under the lock.
unfoldable pub jpeg_worker_stop : Worker → Worker
jpeg_worker_stop w = record w { stop = true }

-- The state with the session that is returned.
unfoldable pub jpeg_worker_new_session : Worker → ℕ × Worker
jpeg_worker_new_session w =
    let session = jpeg_worker_next_generation w.next_session in
    (session, record w { next_session = session })

unfoldable pub jpeg_worker_reset : Worker → Worker
jpeg_worker_reset w = record w {
  generation = jpeg_worker_next_generation w.generation;
  pending_ready = false;
  completed_ready = false;
  completed_length = 0;
  completed_ms = 0;
}

unfoldable pub jpeg_worker_set_session : ℕ → Worker → Worker
jpeg_worker_set_session session w = if w.viewer_session == session then w else record w {
  generation = jpeg_worker_next_generation w.generation;
  viewer_session = session;
  pending_ready = false;
  completed_ready = false;
  completed_length = 0;
  completed_ms = 0;
}

-- The results -1, 0 and 1.
pub data Submitted : Type 0 where
  refused : Submitted
  nobody : Submitted
  submitted : Submitted

unfoldable pub jpeg_worker_submit : List ℕ → ℕ → ℕ → ℤ → ℕ → Worker → Submitted × Worker
jpeg_worker_submit pixels width height quality frame_id w =
    let q = at_least_zero quality in
    if bad_size width height || ltb q 1 || ltb 100 q
    then (refused, w)
    else if w.viewer_session == 0 || w.stop
    then (nobody, w)
    else (
      submitted,
      record w {
        pending = record {
          frame = record {
            pixels = take (width * height) pixels;
            width = width;
            height = height;
            quality = q;
            frame_id = frame_id;
          };
          generation = w.generation;
        };
        pending_ready = true;
      },
    )

unfoldable pub jpeg_worker_expire : ℕ → Worker → Worker
jpeg_worker_expire now w =
    if w.completed_ready
      && not (now == 0)
      && not (w.completed_ms == 0)
      && leb w.completed_ms now
      && ltb video_max_age (sub64 now w.completed_ms)
    then record w { completed_ready = false; completed_length = 0; completed_ms = 0 }
    else w

-- The result -1 with `too_large`, 0 with `nothing`, 1 with the packet.
pub data Collected : Type 0 where
  too_large : Collected
  nothing : Collected
  collected : Bytes → Collected

unfoldable pub jpeg_worker_collect : ℕ → Worker → Collected × Worker
jpeg_worker_collect capacity w =
    if w.completed_ready && not (w.viewer_session == 0) && w.completed_generation == w.generation
    then (
      if ltb capacity w.completed_length
          then too_large
          else collected (take w.completed_length w.packet),
      record w { completed_ready = false; completed_length = 0; completed_ms = 0 },
    )
    else (nothing, w)
