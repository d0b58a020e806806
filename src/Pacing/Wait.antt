-- ===== src/Pacing/Wait.antt =====
-- How long the event loop waits for the next frame.
use openwrt_nes_emulator.Base.{
  ℕ, ◌+◌, ◌-◌, ◌*◌, ◌/◌, ◌^◌, min, ◌≤◌, ◌<◌, ◌≡◌, ap, ◌⊎◌, inl, inr, true, arith, ℤ,
}
use native.Mathlib.Nat.{pow-le-pow_right, one-le-pow, div-le_of_le-mul, le-div_iff_mul-le}
use openwrt_nes_emulator.Pacing.{
  u64_max, VideoPacer, clamped_fps, frame_period, video_deadline_after, at_least_zero, ceil_ms,
  retry_delay, video_pacer_due, video_pacer_retry_no_frame, video_pacer_poll_timeout_ms,
}
use openwrt_nes_emulator.Pacing.Slots.{Running, Running-VideoStep, clamped_fps-bounds}

-- Rounded up: enough, and less than a millisecond too much.
ceil_ms-bounds : (ns : ℕ) → (ns ≤ ceil_ms ns * 1000000) × (ceil_ms ns * 1000000 < ns + 1000000)
ceil_ms-bounds ns = ground arith

poll_timeout-Running :
    (now : ℕ) (fps : ℤ) (viewers : ℕ) (fallback_ms : ℤ) (p : VideoPacer)
    → 0 < viewers
    → 0 < now
    → Running fps p
    → video_pacer_poll_timeout_ms now fps viewers fallback_ms p
      ≡ min (ceil_ms (p.next_deadline_ns - now)) (at_least_zero fallback_ms)
unfolding video_pacer_poll_timeout_ms
poll_timeout-Running now fps viewers fallback_ms p seen some_time (on, same, set) = ground arith

-- From the deadline on a frame is due.
late-due :
    (now : ℕ) (fps : ℤ) (viewers : ℕ) (p : VideoPacer)
    → 0 < viewers
    → Running fps p
    → now + frame_period (clamped_fps fps) ≤ u64_max
    → p.next_deadline_ns ≤ now
    → (video_pacer_due now fps viewers p).0 ≡ true
late-due now fps viewers p seen run room late =
    elim (Running-VideoStep now fps viewers p seen run room) [
      | inl (early, _) ↦ ground arith
      | inr (_, _, _, _, e) ↦ ap (λ r. r.0) e
    ]

min-cases : (c f : ℕ) → (min c f ≡ f) ⊎ ((min c f ≡ c) × (c < f))
min-cases c f = omega arith

-- For a running pacer with a viewer and a readable clock, the wait is at most the fallback; when it
-- is shorter, a poll after it finds a frame due, and the wait is less than a millisecond too long.
pub poll_timeout_exact :
    (now : ℕ) (fps : ℤ) (viewers : ℕ) (fallback_ms : ℤ) (p : VideoPacer)
    → 0 < viewers
    → 0 < now
    → Running fps p
    → now + at_least_zero fallback_ms * 1000000 + frame_period (clamped_fps fps) ≤ u64_max
    → let wait = video_pacer_poll_timeout_ms now fps viewers fallback_ms p in
      (wait ≤ at_least_zero fallback_ms)
      × ((wait ≡ at_least_zero fallback_ms)
          ⊎ (((video_pacer_due (now + wait * 1000000) fps viewers p).0 ≡ true)
              × ((wait ≡ 0) ⊎ (now + wait * 1000000 < p.next_deadline_ns + 1000000))))
poll_timeout_exact now fps viewers fallback_ms p seen some_time run room =
    let c = ceil_ms (p.next_deadline_ns - now) in
    let (enough, close) = ceil_ms-bounds (p.next_deadline_ns - now) in
    rw (poll_timeout-Running now fps viewers fallback_ms p seen some_time run) (
      omega arith,
      elim (min-cases c (at_least_zero fallback_ms)) [
        | inl e ↦ inl e
        | inr (e, less) ↦ inr (
          rw e (late-due (now + c * 1000000) fps viewers p seen run (omega arith) (omega arith)),
          rw e (omega arith),
        )
      ],
    )

pow_bound : (b : ℕ) → 10 ≤ b → 2 ^ 10 ≤ 2 ^ b
pow_bound b h = pow-le-pow_right {n = 2} (omega arith) {i = 10} {j = b} h

-- With a readable clock far from its 64-bit end, a retry comes after the clock, at most
-- `2 ^ backoff` milliseconds and at most one frame's period, rounded up to milliseconds, later; the
-- backoff grows by one until it is 11.
pub retry_no_frame_bounds :
    (now : ℕ) (fps : ℤ) (p : VideoPacer)
    → 0 < now
    → now + 1000 * 1000000 ≤ u64_max
    → p.retry_backoff_ms ≤ 11
    → let p' = video_pacer_retry_no_frame now fps p in
      let n = clamped_fps fps in
      (now < p'.next_deadline_ns)
      × (p'.next_deadline_ns ≤ now + 2 ^ p.retry_backoff_ms * 1000000)
      × (p'.next_deadline_ns ≤ now + (1000 + n - 1) / n * 1000000)
      × (p'.retry_backoff_ms ≡ min (p.retry_backoff_ms + 1) 11)
unfolding video_pacer_retry_no_frame retry_delay video_deadline_after
retry_no_frame_bounds now fps p some_time room few =
    let n = clamped_fps fps in
    let (low, high) = clamped_fps-bounds fps in
    let b = p.retry_backoff_ms in
    let some_power = one-le-pow b 2 (omega arith) in
    let less_power = one-le-pow 10 2 (omega arith) in
    let short : (1000 + n - 1) / n ≤ 1000 = div-le_of_le-mul n (omega arith) in
    let long : 1 ≤ (1000 + n - 1) / n =
      (le-div_iff_mul-le {k = n} {x = 1} {y = 1000 + n - 1} low).1 (omega arith) in
    ground (arith, pow_bound b)
