-- ===== src/Jpeg/Session.antt =====
-- The runs of the JPEG worker: the calls of the network thread and the parts of the encoding thread
-- in any order, and what is collected after them.
use openwrt_nes_emulator.Base.{
  ℕ, ◌+◌, ◌≤◌, ◌<◌, ◌≡◌, refl, ap, sym, ◌∙◌, ◌⊎◌, inl, inr, true, false, List, [], ◌∷◌, Bytes,
  length, take, arith, ℤ,
}
use openwrt_nes_emulator.Jpeg.{
  Frame, Job, waiting, encoding, Worker, jpeg_worker_next_generation, jpeg_worker_encode_packet,
  thread_take, thread_encode, thread_finish, jpeg_worker_stop, jpeg_worker_new_session,
  jpeg_worker_reset, jpeg_worker_set_session, submitted, jpeg_worker_submit, jpeg_worker_expire,
  collected, jpeg_worker_collect,
}
use openwrt_nes_emulator.Jpeg.Invariant.{
  Fits, Fits-wider, PhaseFits-encoding, thread_take-Fits, thread_encode-Fits, thread_finish-Fits,
  stop-Fits, new_session-Fits, reset-Fits, set_session-Fits, submit-Fits, expire-Fits, collect-Fits,
}
use openwrt_nes_emulator.Pacing.{u64_max}

pub data Event : Type 0 where
  takes : Event
  encodes : Event
  finishes : ℕ → Event
  new_session : Event
  reset : Event
  set_session : ℕ → Event
  submits : List ℕ → ℕ → ℕ → ℤ → ℕ → Event
  expires : ℕ → Event
  collects : ℕ → Event
  stops : Event

-- After `memset` and `worker->generation = 1`.
abbrev pub blank_frame : Frame
blank_frame = record { pixels = []; width = 0; height = 0; quality = 0; frame_id = 0 }

abbrev pub initial : Worker
initial = record {
  stop = false;
  phase = waiting;
  pending = record { frame = blank_frame; generation = 0 };
  pending_ready = false;
  packet = [];
  completed_ready = false;
  completed_length = 0;
  completed_generation = 0;
  completed_ms = 0;
  generation = 1;
  viewer_session = 0;
  next_session = 0;
}

module _ (encode : Frame → Bytes) where
  unfoldable pub step : Event → Worker → Worker
  step takes w = thread_take w
  step encodes w = thread_encode encode w
  step (finishes now) w = thread_finish now w
  step new_session w = (jpeg_worker_new_session w).1
  step reset w = jpeg_worker_reset w
  step (set_session s) w = jpeg_worker_set_session s w
  step (submits ps width height q id) w = (jpeg_worker_submit ps width height q id w).1
  step (expires now) w = jpeg_worker_expire now w
  step (collects capacity) w = (jpeg_worker_collect capacity w).1
  step stops w = jpeg_worker_stop w

  -- A worker with the history that led to it.
  pub data Run : Worker → Type 0 where
    starts : Run initial
    steps : {w : Worker} → Run w → (e : Event) → Run (step e w)

-- A frame that an event hands to the worker.
abbrev pub Hands : Event → Worker → Frame → Type 0
Hands (submits ps width height q id) w f =
    ((jpeg_worker_submit ps width height q id w).0 ≡ submitted)
    × ((jpeg_worker_submit ps width height q id w).1.pending.frame ≡ f)
Hands _ w f = ⊥

-- The frames of the viewer's present session: a reset, or another session, forgets those before.
abbrev pub Keeps : Event → Worker → Type 0
Keeps reset w = ⊥
Keeps (set_session s) w = w.viewer_session ≡ s
Keeps _ w = Unit

module _ (encode : Frame → Bytes) where
  -- The frames handed over in this run since the viewer's session last changed or was reset.
  pub Recent : (w : Worker) → Run encode w → Frame → Type 0
  Recent _ starts f = ⊥
  Recent _ (steps {w = w} r e) f = Hands e w f ⊎ (Keeps e w × Recent w r f)

  unfoldable pub calls : (w : Worker) → Run encode w → ℕ
  calls _ starts = 0
  calls _ (steps {w = w} r e) = calls w r + 1

  generation_grows : (w : Worker) (e : Event) → (step encode e w).generation ≤ w.generation + 1
  unfolding step thread_take thread_encode thread_finish jpeg_worker_new_session jpeg_worker_reset
      jpeg_worker_set_session jpeg_worker_submit jpeg_worker_expire jpeg_worker_collect
      jpeg_worker_stop jpeg_worker_next_generation
  generation_grows w takes = ground arith
  generation_grows w encodes = ground arith
  generation_grows w (finishes now) = ground arith
  generation_grows w new_session = ground arith
  generation_grows w reset = ground arith
  generation_grows w (set_session s) = ground arith
  generation_grows w (submits ps width height q id) = ground arith
  generation_grows w (expires now) = ground arith
  generation_grows w (collects n) = ground arith
  generation_grows w stops = ground arith

  generation-calls : (w : Worker) (r : Run encode w) → w.generation ≤ calls w r + 1
  unfolding calls
  generation-calls _ starts = omega arith
  generation-calls _ (steps {w = w} r e) = omega (arith, generation-calls w r, generation_grows w e)

  -- An event that keeps the session keeps the frames of the session.
  carry :
      (w : Worker) (r : Run encode w) (e : Event)
      → Keeps e w
      → Fits encode (Recent w r) (step encode e w)
      → Fits encode (Recent (step encode e w) (steps r e)) (step encode e w)
  unfolding Recent
  carry w r e keeps h =
      Fits-wider encode (Recent w r) (Recent (step encode e w) (steps r e)) (step encode e w)
        (λ f k. inr (keeps, k)) h

  step-Fits :
      (w : Worker) (r : Run encode w) (e : Event)
      → w.generation < u64_max
      → Fits encode (Recent w r) w
      → Fits encode (Recent (step encode e w) (steps r e)) (step encode e w)
  unfolding Recent step
  step-Fits w r takes small h = carry w r takes tt (thread_take-Fits encode (Recent w r) w h)
  step-Fits w r encodes small h = carry w r encodes tt (thread_encode-Fits encode (Recent w r) w h)
  step-Fits w r (finishes now) small h =
      carry w r (finishes now) tt (thread_finish-Fits encode (Recent w r) now w h)
  step-Fits w r new_session small h =
      carry w r new_session tt (new_session-Fits encode (Recent w r) w h)
  step-Fits w r reset small h = reset-Fits encode (Recent w r) _ w small h
  step-Fits w r (set_session s) small h =
      set_session-Fits encode (Recent w r) _ s w small (λ same f k. inr (same, k)) h
  step-Fits w r (submits ps width height q id) small h =
      submit-Fits encode (Recent w r) _ ps width height q id w (λ done. inl (done, refl))
        (λ f k. inr (tt, k)) h
  step-Fits w r (expires now) small h =
      carry w r (expires now) tt (expire-Fits encode (Recent w r) now w h)
  step-Fits w r (collects n) small h =
      carry w r (collects n) tt (collect-Fits encode (Recent w r) n w h)
  step-Fits w r stops small h = carry w r stops tt (stop-Fits encode (Recent w r) w h)

  run-Fits : (w : Worker) (r : Run encode w) → calls w r < u64_max → Fits encode (Recent w r) w
  unfolding calls
  run-Fits _ starts small = ((omega arith, λ e. absurd (omega arith)), tt, inl refl)
  run-Fits _ (steps {w = w} r e) small =
      step-Fits w r e (omega (arith, generation-calls w r)) (run-Fits w r (omega arith))

  take_all : (bs : Bytes) → take (length bs) bs ≡ bs
  take_all [] = refl
  take_all (b ∷ bs) = ap (λ t. b ∷ t) (take_all bs)

  collect-ready :
      (capacity : ℕ) (w : Worker) (bytes : Bytes)
      → (jpeg_worker_collect capacity w).0 ≡ collected bytes
      → (w.completed_ready ≡ true)
        × (w.completed_generation ≡ w.generation)
        × (take w.completed_length w.packet ≡ bytes)
  unfolding jpeg_worker_collect
  collect-ready capacity w bytes e = ground arith

  -- In fewer than 2 ^ 64 - 1 calls and steps of the thread, in any order, a packet that is collected
  -- is the whole encoding of a frame handed over since the viewer's session last changed or was
  -- reset: a frame of a session before is never delivered to the one after it.
  pub collect-Recent :
      (w : Worker) (r : Run encode w) (capacity : ℕ) (bytes : Bytes)
      → calls w r < u64_max
      → (jpeg_worker_collect capacity w).0 ≡ collected bytes
      → (f : Frame) × Recent w r f × (bytes ≡ jpeg_worker_encode_packet encode f)
  collect-Recent w r capacity bytes small e =
      let (ready, same, got) = collect-ready capacity w bytes e in
      elim (run-Fits w r small).2 [
        | inl not_ready ↦ absurd (grind arith)
        | inr (job, tagged, of_job, wrote, size) ↦ (
          job.frame,
          tagged.1 (sym of_job ∙ same),
          sym got ∙ ap (λ n. take n w.packet) size ∙ take_all w.packet ∙ wrote,
        )
      ]

  -- In such a run a finished packet never waits while the thread encodes into its buffer.
  pub encoding-not_ready :
      (w : Worker) (r : Run encode w) (job : Job)
      → calls w r < u64_max
      → w.phase ≡ encoding job
      → w.completed_ready ≡ false
  encoding-not_ready w r job small e =
      PhaseFits-encoding encode (Recent w r) w.generation w.packet w.completed_ready w.phase job e
        (run-Fits w r small).1
