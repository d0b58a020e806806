-- ===== src/Pacing/Slots.antt =====
-- The slots of a stream: where the next deadline lies.
use openwrt_nes_emulator.Base.{
  ℕ, ◌+◌, ◌-◌, ◌*◌, ◌/◌, ◌≤◌, ◌<◌, ◌≡◌, refl, ap, ◌∙◌, ◌⊎◌, inl, inr, Bool, true, false, ltb, arith,
  ℤ, pos, negsuc, Bool-cases, ltb→lt,
}
use native.Mathlib.Nat.{lt-div-mul-add, div-mul-le_self, le-div_iff_mul-le}
use openwrt_nes_emulator.Pacing.{
  u64_max, VideoPacer, clamped_fps, frame_period, skip_slots, keep_pace, video_pacer_due,
}

-- The slot of the phase that is first after `now`.
pub skip_slots-next :
    (now period deadline : ℕ)
    → 0 < period
    → deadline ≤ now
    → now + period ≤ u64_max
    → (k : ℕ) × (skip_slots now period deadline ≡ deadline + (k + 1) * period)
      × (now < deadline + (k + 1) * period)
      × (deadline + (k + 1) * period ≤ now + period)
unfolding skip_slots
skip_slots-next now period deadline some_time late room =
    let k = (now - deadline) / period in
    let over = lt-div-mul-add {a = now - deadline} {b = period} some_time in
    let under = div-mul-le_self (now - deadline) period in
    let e : (k + 1) * period ≡ k * period + period = omega arith in
    let fits : k + 1 ≤ (u64_max - deadline) / period =
      (le-div_iff_mul-le {k = period} {x = k + 1} {y = u64_max - deadline} some_time).1
        (omega arith) in
    let kept : ltb ((u64_max - deadline) / period) (k + 1) ≡ false = ground arith in
    (k, rw kept refl, omega arith, omega arith)

pub clamped_fps-bounds : (fps : ℤ) → (1 ≤ clamped_fps fps) × (clamped_fps fps ≤ 60)
clamped_fps-bounds (pos n) = ground arith
clamped_fps-bounds (negsuc n) = omega arith

-- A frame's period is positive.
pub frame_period-pos : (fps : ℤ) → 0 < frame_period (clamped_fps fps)
frame_period-pos fps =
    let n = clamped_fps fps in
    let low = (clamped_fps-bounds fps).0 in
    (le-div_iff_mul-le {k = n} {x = 1} {y = 1000000000 + n - 1} low).1 (omega arith)

-- A pacer that runs at this frame rate, with a deadline.
abbrev pub Running : ℤ → VideoPacer → Type 0
Running fps p = (p.active ≡ true) × (p.stream_fps ≡ clamped_fps fps) × (0 < p.next_deadline_ns)

abbrev pub with_deadline : ℕ → VideoPacer → VideoPacer
with_deadline d p = record p { next_deadline_ns = d }

-- What a running pacer answers: nothing before the deadline, and from then on a frame, with the
-- deadline moved to the first slot of the same phase after the clock.
abbrev pub VideoStep : ℕ → ℤ → VideoPacer → Bool × VideoPacer → Type 0
VideoStep now fps p r =
    let period = frame_period (clamped_fps fps) in
    ((now < p.next_deadline_ns) × (r ≡ (false, p)))
    ⊎ ((k : ℕ) × (p.next_deadline_ns ≤ now)
        × (now < p.next_deadline_ns + (k + 1) * period)
        × (p.next_deadline_ns + (k + 1) * period ≤ now + period)
        × (r ≡ (true, with_deadline (p.next_deadline_ns + (k + 1) * period) p)))

keep_pace-early :
    (now fps : ℕ) (p : VideoPacer) → now < p.next_deadline_ns → keep_pace now fps p ≡ (false, p)
unfolding keep_pace
keep_pace-early now fps p h = ground arith

keep_pace-late :
    (now fps : ℕ) (p : VideoPacer)
    → 0 < p.next_deadline_ns
    → p.next_deadline_ns ≤ now
    → keep_pace now fps p
      ≡ (true, with_deadline (skip_slots now (frame_period fps) p.next_deadline_ns) p)
unfolding keep_pace
keep_pace-late now fps p h late = ground arith

Running-keep_pace :
    (now : ℕ) (fps : ℤ) (viewers : ℕ) (p : VideoPacer)
    → 0 < viewers
    → Running fps p
    → video_pacer_due now fps viewers p ≡ keep_pace now (clamped_fps fps) p
unfolding video_pacer_due
Running-keep_pace now fps viewers p seen (on, same, _) = ground arith

pub Running-VideoStep :
    (now : ℕ) (fps : ℤ) (viewers : ℕ) (p : VideoPacer)
    → 0 < viewers
    → Running fps p
    → now + frame_period (clamped_fps fps) ≤ u64_max
    → VideoStep now fps p (video_pacer_due now fps viewers p)
Running-VideoStep now fps viewers p seen run room =
    let n = clamped_fps fps in
    rw (Running-keep_pace now fps viewers p seen run)
      (elim (Bool-cases (ltb now p.next_deadline_ns)) [
        | inl early ↦ inl (
          ltb→lt now p.next_deadline_ns early,
          keep_pace-early now n p (ltb→lt now p.next_deadline_ns early),
        )
        | inr late ↦
            let after : p.next_deadline_ns ≤ now = ground arith in
            let (k, e, above, below) =
              skip_slots-next now (frame_period n) p.next_deadline_ns (frame_period-pos fps) after
                room in
            inr (
              k,
              after,
              above,
              below,
              keep_pace-late now n p run.2 after ∙ ap (λ d. (true, with_deadline d p)) e,
            )
      ])
