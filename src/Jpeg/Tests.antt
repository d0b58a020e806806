-- ===== src/Jpeg/Tests.antt =====
-- The theorems on the JPEG worker at a run in which a frame is handed over, encoded and collected.
use openwrt_nes_emulator.Base.{◌≡◌, refl, false, [], ◌∷◌, Bytes, arith, pos}
use openwrt_nes_emulator.Jpeg.{
  Frame, Job, Worker, encoding, collected, jpeg_worker_encode_packet, jpeg_worker_collect,
  thread_take, thread_encode, thread_finish, jpeg_worker_submit, jpeg_worker_set_session,
}
use openwrt_nes_emulator.Jpeg.Session.{
  initial, step, Run, starts, steps, set_session, submits, takes, encodes, finishes, Recent, calls,
  collect-Recent, encoding-not_ready,
}

-- An encoder that writes the pixels as they are.
abbrev plain : Frame → Bytes
plain f = f.pixels

abbrev opened : Worker
opened = step plain (submits (9 ∷ 8 ∷ []) 2 1 (pos 80) 5) (step plain (set_session 4) initial)

abbrev open_run : Run plain opened
open_run = steps (steps starts (set_session 4)) (submits (9 ∷ 8 ∷ []) 2 1 (pos 80) 5)

abbrev finished : Worker
finished = step plain (finishes 70) (step plain encodes (step plain takes opened))

abbrev finished_run : Run plain finished
finished_run = steps (steps (steps open_run takes) encodes) (finishes 70)

abbrev frame_bytes : Bytes
frame_bytes = 3 ∷ 80 ∷ 2 ∷ 0 ∷ 1 ∷ 0 ∷ 2 ∷ 0 ∷ 0 ∷ 0 ∷ 5 ∷ 0 ∷ 9 ∷ 8 ∷ []

collect-Recent_example :
    (f : Frame) × Recent plain finished finished_run f
    × (frame_bytes ≡ jpeg_worker_encode_packet plain f)
unfolding calls step jpeg_worker_collect thread_finish thread_encode thread_take jpeg_worker_submit
    jpeg_worker_set_session jpeg_worker_encode_packet
    openwrt_nes_emulator.Jpeg.jpeg_worker_next_generation
collect-Recent_example =
    collect-Recent plain finished finished_run 4096 frame_bytes (omega arith) refl

abbrev taken_job : Job
taken_job = opened.pending

encoding-not_ready_example : (step plain takes opened).completed_ready ≡ false
unfolding calls step thread_take jpeg_worker_submit jpeg_worker_set_session
encoding-not_ready_example =
    encoding-not_ready plain (step plain takes opened) (steps open_run takes) taken_job
      (omega arith) refl
