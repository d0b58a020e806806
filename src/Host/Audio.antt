-- ===== src/Host/Audio.antt =====
-- The ring of sound between the core and the network: `audio_push_frames` and `host_copy_audio` of
-- package/nes-emulator/src/host.c, each of which holds the lock from its first access to its last.
-- The window of recent sound comes from a `double`, and is an argument.
pub mod Cells
pub mod Queue
pub mod Push
pub mod Copy
use openwrt_nes_emulator.Base.{
  ℕ, suc, ◌+◌, ◌-◌, ◌*◌, ◌%◌, ◌^◌, Bool, true, false, ◌||◌, List, [], ◌∷◌, ◌++◌, length, take, drop,
  set, get_or, min, ltb, leb, ◌==◌, if◌then◌else◌, u64_mod,
}

-- `NES_AUDIO_RING_FRAMES`
abbrev pub ring_frames : ℕ
ring_frames = 48000

-- The samples of both channels, two 16-bit words.
abbrev pub Stereo : Type 0
Stereo = ℕ × ℕ

pub record AudioRing : Type 0 where
  pub ring : List Stereo
  pub read_at : ℕ
  pub write_at : ℕ
  pub count : ℕ
  pub seq : ℕ

-- `memcpy` into the ring, frame by frame.
unfoldable pub overwrite : List Stereo → ℕ → List Stereo → List Stereo
overwrite ring at [] = ring
overwrite ring at (x ∷ xs) = overwrite (set ring at x) (at + 1) xs

-- The oldest frames make room for the new ones.
unfoldable pub make_space : ℕ → AudioRing → AudioRing
make_space frames a =
    let dropped = a.count + frames - ring_frames in
    if ltb ring_frames (a.count + frames)
    then record a { read_at = (a.read_at + dropped) % ring_frames; count = a.count - dropped }
    else a

-- The frames are written behind the newest, in two parts where the end of the ring cuts them.
unfoldable pub write_frames : List Stereo → AudioRing → AudioRing
write_frames frames a =
    let n = length frames in
    let first = min (ring_frames - a.write_at) n in
    let front = overwrite a.ring a.write_at (take first frames) in
    record a {
      ring = if ltb first n then overwrite front 0 (drop first frames) else front;
      write_at = (a.write_at + n) % ring_frames;
      count = a.count + n;
      seq = (a.seq + 1) % u64_mod;
    }

unfoldable pub clear_audio : AudioRing → AudioRing
clear_audio a = record a { read_at = 0; write_at = 0; count = 0 }

unfoldable pub audio_push_frames : List Stereo → AudioRing → AudioRing
unfolding make_space write_frames clear_audio
audio_push_frames frames a =
    let n = length frames in
    if n == 0 || ltb (2 ^ 63 - 1) n
    then a
    else if leb ring_frames n
    then write_frames (drop (n - ring_frames) frames) (clear_audio a)
    else write_frames frames (make_space n a)

-- `recent_frames` after its bounds.
unfoldable pub window_frames : ℕ → ℕ
window_frames recent = if recent == 0 || ltb ring_frames recent then ring_frames else recent

-- Frames older than the window are given up.
unfoldable pub skip_stale : ℕ → AudioRing → AudioRing
skip_stale recent a =
    let stale = a.count - recent in
    if ltb recent a.count
    then record a { read_at = (a.read_at + stale) % ring_frames; count = recent }
    else a

-- `n` frames are copied, in two parts where the end of the ring cuts them.
unfoldable pub copy_out : ℕ → AudioRing → List Stereo × AudioRing
copy_out n a =
    let first = min (ring_frames - a.read_at) n in
    let front = take first (drop a.read_at a.ring) in
    (
      if ltb first n then front ++ take (n - first) a.ring else front,
      record a { read_at = (a.read_at + n) % ring_frames; count = a.count - n },
    )

-- All that is left, if it is less than what is asked for.
abbrev pub take_count : ℕ → ℕ → ℕ
take_count count max_frames = if ltb count max_frames then count else max_frames

unfoldable pub host_copy_audio : ℕ → ℕ → AudioRing → List Stereo × AudioRing
unfolding window_frames skip_stale copy_out
host_copy_audio recent max_frames a =
    let fresh = skip_stale (window_frames recent) a in
    if max_frames == 0 then ([], a) else copy_out (take_count fresh.count max_frames) fresh
