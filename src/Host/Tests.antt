-- ===== src/Host/Tests.antt =====
-- The theorems on the ring of sound, from the empty ring.
use openwrt_nes_emulator.Base.{
  ◌≡◌, List, [], ◌∷◌, ◌++◌, length, take, drop, replicate, length-replicate, arith,
}
use openwrt_nes_emulator.Host.Audio.{
  Stereo, AudioRing, ring_frames, audio_push_frames, window_frames, host_copy_audio,
}
use openwrt_nes_emulator.Host.Audio.Cells.{silence}
use openwrt_nes_emulator.Host.Audio.Queue.{IsSound, contents}
use openwrt_nes_emulator.Host.Audio.Push.{newest, audio_push_frames_refines}
use openwrt_nes_emulator.Host.Audio.Copy.{host_copy_audio_refines}

-- The ring after `host_create`.
quiet : List Stereo
quiet = replicate ring_frames silence

quiet_size : length quiet ≡ ring_frames
unfolding quiet
quiet_size = length-replicate ring_frames silence

abbrev start : AudioRing
start = record { ring = quiet; read_at = 0; write_at = 0; count = 0; seq = 0 }

start-IsSound : IsSound start
start-IsSound = record {
  cells = quiet_size;
  reads = omega arith;
  holds = omega arith;
  writes = omega arith;
}

abbrev two_frames : List Stereo
two_frames = (1, 2) ∷ (3, 4) ∷ []

audio_push_frames_refines_example :
    IsSound (audio_push_frames two_frames start)
    × (contents (audio_push_frames two_frames start)
        ≡ newest ring_frames (contents start ++ two_frames))
audio_push_frames_refines_example =
    audio_push_frames_refines two_frames start start-IsSound (omega arith)

-- The ring with two frames in it.
abbrev sounding : AudioRing
sounding = audio_push_frames two_frames start

host_copy_audio_refines_example :
    ((host_copy_audio 4800 1 sounding).0 ≡ take 1 (newest (window_frames 4800) (contents sounding)))
    × IsSound (host_copy_audio 4800 1 sounding).1
    × (contents (host_copy_audio 4800 1 sounding).1
        ≡ drop 1 (newest (window_frames 4800) (contents sounding)))
host_copy_audio_refines_example =
    host_copy_audio_refines 4800 1 sounding
      (audio_push_frames_refines two_frames start start-IsSound (omega arith)).0 (omega arith)
