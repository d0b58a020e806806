-- ===== src/Pacing/Rate.antt =====
-- The rate of the streams: what a sequence of polls sends at most.
use openwrt_nes_emulator.Base.{
  ℕ, ◌+◌, ◌*◌, ◌%◌, ◌≤◌, ◌<◌, ◌≡◌, refl, ap, ◌∙◌, ◌⊎◌, inl, inr, true, false, not, ◌||◌, List, [],
  ◌∷◌, All, arith, ℤ, if◌then◌else◌, ◌==◌,
}
use openwrt_nes_emulator.Pacing.{
  u64_max, audio_period, VideoPacer, clamped_fps, frame_period, video_deadline_after, restart,
  skip_slots, audio_pacer_due, video_pacer_due,
}
use openwrt_nes_emulator.Pacing.Slots.{Running, Running-VideoStep, skip_slots-next}

-- The polls of one viewer at these clock readings: the frames that are due, and the pacer then.
pub poll_video : ℤ → List ℕ → VideoPacer → ℕ × VideoPacer
poll_video fps [] p = (0, p)
poll_video fps (now ∷ times) p =
    let (due, p') = video_pacer_due now fps 1 p in
    let (n, q) = poll_video fps times p' in ((if due then n + 1 else n), q)

-- The clock shows at most this much.
abbrev pub Until : ℕ → List ℕ → Type 0
Until last = All (λ now. now ≤ last)

module _ (fps : ℤ) (last : ℕ) (room : last + frame_period (clamped_fps fps) ≤ u64_max) where
  abbrev period : ℕ
  period = frame_period (clamped_fps fps)

  poll_video-advance :
      (now : ℕ) (times : List ℕ) (p : VideoPacer)
      → Running fps p
      → now ≤ last
      → let r = video_pacer_due now fps 1 p in
        ((r.0 ≡ false) × (r.1 ≡ p))
        ⊎ ((r.0 ≡ true)
            × Running fps r.1
            × (p.next_deadline_ns + period ≤ r.1.next_deadline_ns)
            × (r.1.next_deadline_ns ≤ last + period))
  poll_video-advance now times p run h =
      let room' : now + frame_period (clamped_fps fps) ≤ u64_max = omega arith in
      elim (Running-VideoStep now fps 1 p (omega arith) run room') [
        | inl (early, e) ↦ rw e (inl (refl, refl))
        | inr (k, late, after, below, e) ↦
            let d : (k + 1) * frame_period (clamped_fps fps) ≡ k * period + period = omega arith in
            rw e (inr (refl, (run.0, run.1, omega arith), omega arith, omega arith))
      ]

  poll_video-bound :
      (times : List ℕ) (p : VideoPacer)
      → Running fps p
      → Until last times
      → p.next_deadline_ns ≤ last + period
      → p.next_deadline_ns + (poll_video fps times p).0 * period ≤ last + period
  unfolding poll_video
  poll_video-bound [] p run h start = omega arith
  poll_video-bound (now ∷ times) p run h start =
      let n = (poll_video fps times (video_pacer_due now fps 1 p).1).0 in
      elim (poll_video-advance now times p run h.0) [
        | inl (not_due, same) ↦ rw (not_due, same) (poll_video-bound times p run h.1 start)
        | inr (due, run', apart, early) ↦
            let rest = poll_video-bound times (video_pacer_due now fps 1 p).1 run' h.1 early in
            let e : (n + 1) * period ≡ n * period + period = omega arith in rw due (omega arith)
      ]

-- No frame is being paced at this rate: a new viewer, or another frame rate.
abbrev pub IsNew : ℤ → VideoPacer → Type 0
IsNew fps p = (not p.active || not (p.stream_fps == clamped_fps fps)) ≡ true

restarted :
    (now : ℕ) (fps : ℤ) (p : VideoPacer)
    → IsNew fps p
    → 0 < now
    → now + frame_period (clamped_fps fps) ≤ u64_max
    → let r = video_pacer_due now fps 1 p in
      (r.0 ≡ true) × Running fps r.1 × (r.1.next_deadline_ns ≡ now + frame_period (clamped_fps fps))
unfolding video_pacer_due restart video_deadline_after
restarted now fps p new some_time room = ground arith

-- For a new viewer, or after a change of the frame rate, and with the clock readable at the first
-- poll: it is given a frame at that poll, and the polls until a last reading of the clock, in
-- whatever order and however late they come, give it no more further frames than whole periods fit
-- between the two. The readings are far from the end of the 64-bit clock.
pub poll_video_rate :
    (fps : ℤ) (first last : ℕ) (times : List ℕ) (p : VideoPacer)
    → last + frame_period (clamped_fps fps) ≤ u64_max
    → 0 < first
    → first ≤ last
    → Until last times
    → IsNew fps p
    → (n : ℕ) × ((poll_video fps (first ∷ times) p).0 ≡ n + 1)
      × (first + n * frame_period (clamped_fps fps) ≤ last)
unfolding poll_video
poll_video_rate fps first last times p room some_time h until new =
    let (due, run, d) = restarted first fps p new some_time (omega arith) in
    let bound =
      poll_video-bound fps last room times (video_pacer_due first fps 1 p).1 run until
        (omega arith) in
    ((poll_video fps times (video_pacer_due first fps 1 p).1).0, rw due refl, omega arith)

module _ (now viewers : ℕ) (p : VideoPacer) (seen : 0 < viewers) (some_time : 0 < now) where
  abbrev with_audio : ℕ → VideoPacer
  with_audio k = record p { next_audio_deadline_ns = k }

  audio-early : now < p.next_audio_deadline_ns → audio_pacer_due now viewers p ≡ (false, p)
  unfolding audio_pacer_due
  audio-early h = ground arith

  audio-first :
      p.next_audio_deadline_ns ≡ 0
      → now + audio_period ≤ u64_max
      → audio_pacer_due now viewers p ≡ (true, with_audio (now + audio_period))
  unfolding audio_pacer_due video_deadline_after
  audio-first h room = ground arith

  audio-late :
      0 < p.next_audio_deadline_ns
      → p.next_audio_deadline_ns ≤ now
      → audio_pacer_due now viewers p
        ≡ (true, with_audio (skip_slots now audio_period p.next_audio_deadline_ns))
  unfolding audio_pacer_due
  audio-late set late = ground arith

three_ways : (now d : ℕ) → (now < d) ⊎ ((d ≡ 0) ⊎ ((0 < d) × (d ≤ now)))
three_ways now d = omega arith

-- With a viewer, a readable clock far from its 64-bit end, and a deadline that the clock has not
-- reached, no audio packet is due and nothing changes. Otherwise one is due, and the new deadline
-- is after the clock by one period of 40 ms at most, on the phase of the deadline before, if any.
pub audio_pacer_due_step :
    (now viewers : ℕ) (p : VideoPacer)
    → 0 < viewers
    → 0 < now
    → now + audio_period ≤ u64_max
    → let d = p.next_audio_deadline_ns in
      let r = audio_pacer_due now viewers p in
      ((now < d) × (r ≡ (false, p)))
      ⊎ ((k : ℕ) × (r ≡ (true, record p { next_audio_deadline_ns = k }))
          × (now < k)
          × (k ≤ now + audio_period)
          × ((d ≡ 0) ⊎ ((d ≤ now) × (k % audio_period ≡ d % audio_period))))
audio_pacer_due_step now viewers p seen some_time room =
    elim (three_ways now p.next_audio_deadline_ns) [
      | inl early ↦ inl (early, audio-early now viewers p seen some_time early)
      | inr (inl none) ↦ inr (
        now + audio_period,
        audio-first now viewers p seen some_time none room,
        omega arith,
        omega arith,
        inl none,
      )
      | inr (inr (set, late)) ↦
          let d = p.next_audio_deadline_ns in
          let (k, e, above, below) = skip_slots-next now audio_period d (omega arith) late room in
          inr (
            d + (k + 1) * audio_period,
            audio-late now viewers p seen some_time set late
                ∙ ap (λ t. (true, record p { next_audio_deadline_ns = t })) e,
            above,
            below,
            inr (late, omega arith),
          )
    ]
