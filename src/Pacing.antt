-- ===== src/Pacing.antt =====
-- The pacing of the video and audio streams (package/nes-emulator/src/http.c): `struct video_pacer`,
-- `audio_pacer_due`, `video_pacer_due`, `video_pacer_retry_no_frame`, `video_pacer_poll_timeout_ms`.
-- `now` is the reading of `now_ns`, 0 where the clock cannot be read; `int` arguments are integers.
pub mod Slots
pub mod Rate
pub mod Wait
mod Tests
use openwrt_nes_emulator.Base.{
  ℕ, ◌+◌, ◌-◌, ◌*◌, ◌/◌, ◌%◌, ◌^◌, Bool, true, false, not, ◌&&◌, ◌||◌, ltb, leb, ◌==◌,
  if◌then◌else◌, u64_mod, ℤ, pos, negsuc,
}

-- `UINT64_MAX`
abbrev pub u64_max : ℕ
u64_max = u64_mod - 1

-- `AUDIO_PACKET_PERIOD_NS`
abbrev pub audio_period : ℕ
audio_period = 40 * 1000 * 1000

pub record VideoPacer : Type 0 where
  pub next_deadline_ns : ℕ
  pub next_audio_deadline_ns : ℕ
  pub last_video_id : ℕ
  pub retry_backoff_ms : ℕ
  pub stream_fps : ℕ
  pub active : Bool

-- The frame rate between 1 and 60, 2 in place of any other.
abbrev pub clamped_fps : ℤ → ℕ
clamped_fps (pos n) = if ltb n 1 || ltb 60 n then 2 else n
clamped_fps (negsuc n) = 2

unfoldable pub video_deadline_after : ℕ → ℕ → ℕ
video_deadline_after now period = if ltb (u64_max - period) now then u64_max else now + period

-- The end of both pacers: the first slot of the deadline's phase after `now`.
unfoldable pub skip_slots : ℕ → ℕ → ℕ → ℕ
skip_slots now period deadline =
    let periods = (now - deadline) / period + 1 in
    if ltb ((u64_max - deadline) / period) periods
    then video_deadline_after now period
    else deadline + periods * period

unfoldable pub audio_pacer_due : ℕ → ℕ → VideoPacer → Bool × VideoPacer
audio_pacer_due now viewers p =
    if viewers == 0
    then (false, record p { next_audio_deadline_ns = 0 })
    else if p.next_audio_deadline_ns == 0
    then (if now == 0
        then (true, p)
        else (true, record p { next_audio_deadline_ns = video_deadline_after now audio_period }))
    else if now == 0 || ltb now p.next_audio_deadline_ns
    then (false, p)
    else (
      true,
      record p { next_audio_deadline_ns = skip_slots now audio_period p.next_audio_deadline_ns },
    )

-- A second divided by the frame rate, rounded up.
abbrev pub frame_period : ℕ → ℕ
frame_period fps = (1000000000 + fps - 1) / fps

-- A new viewer or another frame rate: the current frame at once.
unfoldable pub restart : ℕ → ℕ → VideoPacer → VideoPacer
restart now fps p = record p {
  active = true;
  stream_fps = fps;
  last_video_id = u64_max;
  retry_backoff_ms = 0;
  next_deadline_ns = if now == 0 then 0 else video_deadline_after now (frame_period fps);
}

-- The branches of an active pacer.
unfoldable pub keep_pace : ℕ → ℕ → VideoPacer → Bool × VideoPacer
keep_pace now fps p =
    if p.next_deadline_ns == 0
    then (if now == 0 then (false, p) else (
      true,
      record p {
        last_video_id = u64_max;
        next_deadline_ns = video_deadline_after now (frame_period fps);
      },
    ))
    else if now == 0 || ltb now p.next_deadline_ns
    then (false, p)
    else (
      true,
      record p { next_deadline_ns = skip_slots now (frame_period fps) p.next_deadline_ns },
    )

unfoldable pub video_pacer_due : ℕ → ℤ → ℕ → VideoPacer → Bool × VideoPacer
video_pacer_due now stream_fps viewers p =
    let fps = clamped_fps stream_fps in
    if viewers == 0
    then (
      false,
      record p {
        next_deadline_ns = 0;
        last_video_id = u64_max;
        retry_backoff_ms = 0;
        stream_fps = 0;
        active = false;
      },
    )
    else if not p.active || not (p.stream_fps == fps)
    then (true, restart now fps p)
    else keep_pace now fps p

-- The delay of a retry in milliseconds, `period_ms` at most.
unfoldable pub retry_delay : ℕ → ℕ → ℕ
retry_delay fps backoff =
    let period_ms = (1000 + fps - 1) / fps in
    let delay_ms = 2 ^ (if ltb backoff 10 then backoff else 10) in
    if ltb period_ms delay_ms then period_ms else delay_ms

unfoldable pub video_pacer_retry_no_frame : ℕ → ℤ → VideoPacer → VideoPacer
video_pacer_retry_no_frame now stream_fps p = if now == 0 then p else record p {
  retry_backoff_ms =
      if ltb p.retry_backoff_ms 11 then p.retry_backoff_ms + 1 else p.retry_backoff_ms;
  next_deadline_ns =
      video_deadline_after now (retry_delay (clamped_fps stream_fps) p.retry_backoff_ms * 1000000);
}

-- `if (fallback_ms < 0) fallback_ms = 0;`
abbrev pub at_least_zero : ℤ → ℕ
at_least_zero (pos n) = n
at_least_zero (negsuc n) = 0

-- Nanoseconds to milliseconds, rounded up.
abbrev pub ceil_ms : ℕ → ℕ
ceil_ms ns = if ns % 1000000 == 0 then ns / 1000000 else ns / 1000000 + 1

unfoldable pub video_pacer_poll_timeout_ms : ℕ → ℤ → ℕ → ℤ → VideoPacer → ℕ
video_pacer_poll_timeout_ms now stream_fps viewers fallback_ms p =
    let fallback = at_least_zero fallback_ms in
    let fps = clamped_fps stream_fps in
    if viewers == 0
    then fallback
    else if not p.active || not (p.stream_fps == fps)
    then 0
    else if p.next_deadline_ns == 0 || now == 0
    then fallback
    else if leb p.next_deadline_ns now
    then 0
    else let wait_ms = ceil_ms (p.next_deadline_ns - now) in
      if ltb wait_ms fallback then wait_ms else fallback
