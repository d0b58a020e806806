-- ===== src/Jpeg/Invariant.antt =====
-- The invariant of the JPEG worker, for a property of the frames of the present session.
use openwrt_nes_emulator.Base.{
  ℕ, ◌*◌, ◌≤◌, ◌<◌, ◌≡◌, refl, ◌⊎◌, inl, inr, Bool, true, false, Bytes, length, take, ◌==◌, arith,
  ℤ, Bool-cases, ==_iff, List,
}
use openwrt_nes_emulator.Jpeg.{
  Frame, Job, Phase, waiting, encoding, encoded, ended, Worker, jpeg_worker_next_generation,
  jpeg_worker_encode_packet, thread_take, thread_encode, thread_finish, jpeg_worker_stop,
  jpeg_worker_new_session, jpeg_worker_reset, jpeg_worker_set_session, submitted,
  jpeg_worker_submit, jpeg_worker_expire, jpeg_worker_collect,
}
use openwrt_nes_emulator.Pacing.{u64_max, at_least_zero}

-- A frame is of this generation at most, and has the property if it is of this one.
abbrev pub Tagged : (Frame → Type 0) → ℕ → Job → Type 0
Tagged K g job = (job.generation ≤ g) × ((job.generation ≡ g) → K job.frame)

abbrev pub PhaseFits : (Frame → Bytes) → (Frame → Type 0) → ℕ → Bytes → Bool → Phase → Type 0
PhaseFits encode K g packet ready (encoding job) = Tagged K g job × (ready ≡ false)
PhaseFits encode K g packet ready (encoded job n) =
    Tagged K g job
    × (ready ≡ false)
    × (packet ≡ jpeg_worker_encode_packet encode job.frame)
    × (n ≡ length packet)
PhaseFits encode K g packet ready _ = Unit

abbrev pub CompletedFits : (Frame → Bytes) → (Frame → Type 0) → Worker → Type 0
CompletedFits encode K w =
    (w.completed_ready ≡ false)
    ⊎ ((job : Job) × Tagged K w.generation job
        × (w.completed_generation ≡ job.generation)
        × (w.packet ≡ jpeg_worker_encode_packet encode job.frame)
        × (w.completed_length ≡ length w.packet))

abbrev pub Fits : (Frame → Bytes) → (Frame → Type 0) → Worker → Type 0
Fits encode K w =
    Tagged K w.generation w.pending
    × PhaseFits encode K w.generation w.packet w.completed_ready w.phase
    × CompletedFits encode K w

-- A finished packet of the thread.
abbrev completed : ℕ → Job → ℕ → Worker → Worker
completed now job n w = record w {
  phase = waiting;
  completed_ready = true;
  completed_length = n;
  completed_generation = job.generation;
  completed_ms = now;
}

abbrev Finishes : ℕ → Worker → Type 0
Finishes now w =
    (thread_finish now w ≡ w)
    ⊎ ((thread_finish now w ≡ record w { phase = waiting })
        ⊎ ((job : Job) × (n : ℕ) × (w.phase ≡ encoded job n)
            × (thread_finish now w ≡ completed now job n w)))

finish-encoded :
    (now : ℕ) (w : Worker) (job : Job) (n : ℕ)
    → w.phase ≡ encoded job n
    → (thread_finish now w ≡ record w { phase = waiting })
      ⊎ (thread_finish now w ≡ completed now job n w)
unfolding thread_finish
finish-encoded now w job n e = ground arith

finish-cases : (now : ℕ) (w : Worker) (p : Phase) → w.phase ≡ p → Finishes now w
unfolding thread_finish
finish-cases now w waiting e = inl (rw e refl)
finish-cases now w (encoding job) e = inl (rw e refl)
finish-cases now w ended e = inl (rw e refl)
finish-cases now w (encoded job n) e = elim (finish-encoded now w job n e) [
  | inl none ↦ inr (inl none)
  | inr done ↦ inr (inr (job, n, e, done))
]

module _ (encode : Frame → Bytes) (K : Frame → Type 0) where
  pub thread_finish-Fits :
      (now : ℕ) (w : Worker) → Fits encode K w → Fits encode K (thread_finish now w)
  thread_finish-Fits now w h = elim (finish-cases now w w.phase refl) [
    | inl e ↦ rw e h
    | inr (inl e) ↦ rw e (h.0, tt, h.2)
    | inr (inr (job, n, held, e)) ↦
        let (tagged, _, wrote, size) = rw held at h.1 in
        rw e (h.0, tt, inr (job, tagged, refl, wrote, size))
  ]

  pub thread_take-Fits : (w : Worker) → Fits encode K w → Fits encode K (thread_take w)
  unfolding thread_take
  thread_take-Fits w h = ground arith

  pub thread_encode-Fits : (w : Worker) → Fits encode K w → Fits encode K (thread_encode encode w)
  unfolding thread_encode
  thread_encode-Fits w h = ground arith

  pub expire-Fits :
      (now : ℕ) (w : Worker) → Fits encode K w → Fits encode K (jpeg_worker_expire now w)
  unfolding jpeg_worker_expire
  expire-Fits now w h = ground arith

  pub collect-Fits :
      (n : ℕ) (w : Worker) → Fits encode K w → Fits encode K (jpeg_worker_collect n w).1
  unfolding jpeg_worker_collect
  collect-Fits n w h = ground arith

  pub stop-Fits : (w : Worker) → Fits encode K w → Fits encode K (jpeg_worker_stop w)
  unfolding jpeg_worker_stop
  stop-Fits w h = h

  pub new_session-Fits :
      (w : Worker) → Fits encode K w → Fits encode K (jpeg_worker_new_session w).1
  unfolding jpeg_worker_new_session
  new_session-Fits w h = h

-- A frame of an older generation is of none of the later ones.
Tagged-later :
    (K K' : Frame → Type 0) (g g' : ℕ) (job : Job) → g < g' → Tagged K g job → Tagged K' g' job
Tagged-later K K' g g' job less (old, _) = (omega arith, λ same. absurd (omega arith))

Tagged-wider :
    (K K' : Frame → Type 0) (g : ℕ) (job : Job)
    → ((f : Frame) → K f → K' f)
    → Tagged K g job
    → Tagged K' g job
Tagged-wider K K' g job more (old, here) = (old, λ same. more job.frame (here same))

module _ (encode : Frame → Bytes) (K K' : Frame → Type 0) where
  PhaseFits-later :
      (g g' : ℕ) (packet : Bytes) (ready : Bool) (p : Phase)
      → g < g'
      → PhaseFits encode K g packet ready p
      → PhaseFits encode K' g' packet false p
  PhaseFits-later g g' packet ready waiting less h = h
  PhaseFits-later g g' packet ready ended less h = h
  PhaseFits-later g g' packet ready (encoding job) less h =
      (Tagged-later K K' g g' job less h.0, refl)
  PhaseFits-later g g' packet ready (encoded job n) less h =
      (Tagged-later K K' g g' job less h.0, refl, h.2, h.3)

  PhaseFits-wider :
      (g : ℕ) (packet : Bytes) (ready : Bool) (p : Phase)
      → ((f : Frame) → K f → K' f)
      → PhaseFits encode K g packet ready p
      → PhaseFits encode K' g packet ready p
  PhaseFits-wider g packet ready waiting more h = h
  PhaseFits-wider g packet ready ended more h = h
  PhaseFits-wider g packet ready (encoding job) more h = (Tagged-wider K K' g job more h.0, h.1)
  PhaseFits-wider g packet ready (encoded job n) more h =
      (Tagged-wider K K' g job more h.0, h.1, h.2, h.3)

  CompletedFits-wider :
      (w : Worker)
      → ((f : Frame) → K f → K' f)
      → CompletedFits encode K w
      → CompletedFits encode K' w
  CompletedFits-wider w more (inl e) = inl e
  CompletedFits-wider w more (inr (job, tagged, same, wrote, size)) =
      inr (job, Tagged-wider K K' w.generation job more tagged, same, wrote, size)

  pub Fits-wider : (w : Worker) → ((f : Frame) → K f → K' f) → Fits encode K w → Fits encode K' w
  Fits-wider w more h = (
    Tagged-wider K K' w.generation w.pending more h.0,
    PhaseFits-wider w.generation w.packet w.completed_ready w.phase more h.1,
    CompletedFits-wider w more h.2,
  )

  next-later : (g : ℕ) → g < u64_max → g < jpeg_worker_next_generation g
  unfolding jpeg_worker_next_generation
  next-later g h = ground arith

  pub reset-Fits :
      (w : Worker) → w.generation < u64_max → Fits encode K w → Fits encode K' (jpeg_worker_reset w)
  unfolding jpeg_worker_reset
  reset-Fits w small h =
      let g' = jpeg_worker_next_generation w.generation in
      let less = next-later w.generation small in
      (
        Tagged-later K K' w.generation g' w.pending less h.0,
        PhaseFits-later w.generation g' w.packet w.completed_ready w.phase less h.1,
        inl refl,
      )

  set-same :
      (session : ℕ) (w : Worker)
      → (w.viewer_session == session) ≡ true
      → jpeg_worker_set_session session w ≡ w
  unfolding jpeg_worker_set_session
  set-same session w e = rw e refl

  set-other :
      (session : ℕ) (w : Worker)
      → (w.viewer_session == session) ≡ false
      → jpeg_worker_set_session session w
        ≡ record (jpeg_worker_reset w) { viewer_session = session }
  unfolding jpeg_worker_set_session jpeg_worker_reset
  set-other session w e = rw e refl

  -- Another session: nothing of the session before it is kept.
  pub set_session-Fits :
      (session : ℕ) (w : Worker)
      → w.generation < u64_max
      → (w.viewer_session ≡ session → (f : Frame) → K f → K' f)
      → Fits encode K w
      → Fits encode K' (jpeg_worker_set_session session w)
  set_session-Fits session w small same h = elim (Bool-cases (w.viewer_session == session)) [
    | inl e ↦
        rw (set-same session w e) (Fits-wider w (same ((==_iff w.viewer_session session).0 e)) h)
    | inr e ↦ rw (set-other session w e) (reset-Fits w small h)
  ]

  abbrev submitted_job : List ℕ → ℕ → ℕ → ℤ → ℕ → Worker → Job
  submitted_job pixels width height quality id w = record {
    frame = record {
      pixels = take (width * height) pixels;
      width = width;
      height = height;
      quality = at_least_zero quality;
      frame_id = id;
    };
    generation = w.generation;
  }

  submit-cases :
      (pixels : List ℕ) (width height : ℕ) (quality : ℤ) (id : ℕ) (w : Worker)
      → let r = jpeg_worker_submit pixels width height quality id w in
        (r.1 ≡ w)
        ⊎ (r ≡ (
          submitted,
          record w {
            pending = submitted_job pixels width height quality id w;
            pending_ready = true;
          },
        ))
  unfolding jpeg_worker_submit
  submit-cases pixels width height quality id w = ground arith

  -- A frame handed over takes the place of the one that waits.
  pub submit-Fits :
      (pixels : List ℕ) (width height : ℕ) (quality : ℤ) (id : ℕ) (w : Worker)
      → let r = jpeg_worker_submit pixels width height quality id w in
        (r.0 ≡ submitted → K' r.1.pending.frame)
        → ((f : Frame) → K f → K' f)
        → Fits encode K w
        → Fits encode K' r.1
  submit-Fits pixels width height quality id w here more h =
      elim (submit-cases pixels width height quality id w) [
        | inl e ↦ rw e (Fits-wider w more h)
        | inr e ↦
            let own = rw e at here in
            rw e (
              (omega arith, λ _. own refl),
              PhaseFits-wider w.generation w.packet w.completed_ready w.phase more h.1,
              CompletedFits-wider w more h.2,
            )
      ]

pub PhaseFits-encoding :
    (encode : Frame → Bytes) (K : Frame → Type 0) (g : ℕ) (packet : Bytes) (ready : Bool)
    (p : Phase) (job : Job)
    → p ≡ encoding job
    → PhaseFits encode K g packet ready p
    → ready ≡ false
PhaseFits-encoding encode K g packet ready waiting job e h = cc
PhaseFits-encoding encode K g packet ready ended job e h = cc
PhaseFits-encoding encode K g packet ready (encoding _) job e h = h.1
PhaseFits-encoding encode K g packet ready (encoded _ n) job e h = h.1
