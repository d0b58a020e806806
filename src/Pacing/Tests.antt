-- ===== src/Pacing/Tests.antt =====
-- The pacing theorems at a stream of 50 frames a second.
use openwrt_nes_emulator.Base.{
  ℕ, ◌+◌, ◌*◌, ◌/◌, ◌-◌, ◌%◌, ◌^◌, min, ◌≤◌, ◌<◌, ◌≡◌, refl, ◌⊎◌, true, false, [], ◌∷◌, arith, pos,
}
use openwrt_nes_emulator.Pacing.{
  VideoPacer, clamped_fps, frame_period, audio_period, audio_pacer_due, video_pacer_due,
  video_pacer_poll_timeout_ms, video_pacer_retry_no_frame,
}
use openwrt_nes_emulator.Pacing.Rate.{poll_video, poll_video_rate, audio_pacer_due_step}
use openwrt_nes_emulator.Pacing.Wait.{poll_timeout_exact, retry_no_frame_bounds}

abbrev resting : VideoPacer
resting = record {
  next_deadline_ns = 0;
  next_audio_deadline_ns = 50000000;
  last_video_id = 7;
  retry_backoff_ms = 3;
  stream_fps = 0;
  active = false;
}

abbrev pacing : VideoPacer
pacing = record resting { next_deadline_ns = 105500000; stream_fps = 50; active = true }

poll_video_rate_example :
    (n : ℕ) × ((poll_video (pos 50) (100 ∷ 20000100 ∷ 20000200 ∷ 90000000 ∷ []) resting).0 ≡ n + 1)
    × (100 + n * frame_period (clamped_fps (pos 50)) ≤ 90000000)
poll_video_rate_example =
    poll_video_rate (pos 50) 100 90000000 (20000100 ∷ 20000200 ∷ 90000000 ∷ []) resting
      (omega arith) (omega arith) (omega arith) (omega arith) refl

audio_pacer_due_step_example :
    let r = audio_pacer_due 200000000 1 resting in
    ((200000000 < 50000000) × (r ≡ (false, resting)))
    ⊎ ((k : ℕ) × (r ≡ (true, record resting { next_audio_deadline_ns = k }))
        × (200000000 < k)
        × (k ≤ 200000000 + audio_period)
        × ((resting.next_audio_deadline_ns ≡ 0)
            ⊎ ((50000000 ≤ 200000000) × (k % audio_period ≡ 50000000 % audio_period))))
audio_pacer_due_step_example =
    audio_pacer_due_step 200000000 1 resting (omega arith) (omega arith) (omega arith)

poll_timeout_exact_example :
    let wait = video_pacer_poll_timeout_ms 100000000 (pos 50) 2 (pos 20) pacing in
    (wait ≤ 20)
    × ((wait ≡ 20)
        ⊎ (((video_pacer_due (100000000 + wait * 1000000) (pos 50) 2 pacing).0 ≡ true)
            × ((wait ≡ 0) ⊎ (100000000 + wait * 1000000 < 105500000 + 1000000))))
poll_timeout_exact_example =
    poll_timeout_exact 100000000 (pos 50) 2 (pos 20) pacing (omega arith) (omega arith)
      (refl, refl, omega arith) (omega arith)

retry_no_frame_bounds_example :
    let p' = video_pacer_retry_no_frame 100000000 (pos 50) pacing in
    let n = clamped_fps (pos 50) in
    (100000000 < p'.next_deadline_ns)
    × (p'.next_deadline_ns ≤ 100000000 + 2 ^ 3 * 1000000)
    × (p'.next_deadline_ns ≤ 100000000 + (1000 + n - 1) / n * 1000000)
    × (p'.retry_backoff_ms ≡ min (3 + 1) 11)
retry_no_frame_bounds_example =
    retry_no_frame_bounds 100000000 (pos 50) pacing (omega arith) (omega arith) (omega arith)
