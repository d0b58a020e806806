-- ===== src/Host/Audio/Push.antt =====
-- What `audio_push_frames` of package/nes-emulator/src/host.c does to the queue of frames.
use openwrt_nes_emulator.Base.{
  drop-append_le, ℕ, ◌+◌, ◌-◌, ◌%◌, ◌^◌, ◌≤◌, ◌<◌, ◌≡◌, inl, inr, refl, ap, ap₂, sym, ◌∙◌, true,
  false, List, [], ◌∷◌, ◌++◌, length, take, drop, ltb, leb, ◌==◌, arith, length-append, length-drop,
  drop-append, take-append, drop-drop,
}
use mathlib.Core.List.{append-nil}
use openwrt_nes_emulator.Host.Audio.{
  Stereo, ring_frames, AudioRing, make_space, write_frames, audio_push_frames,
}
use openwrt_nes_emulator.Host.Audio.Cells.{
  window, length-window, window_agree, window_holds, window-append, window_around,
}
use openwrt_nes_emulator.Host.Audio.Queue.{
  IsSound, contents, written, length-written, written_frames, written_others, order,
}

-- The last `n` frames.
abbrev pub newest : ℕ → List Stereo → List Stereo
newest n xs = drop (length xs - n) xs

pub drop-window :
    (ring : List Stereo) (k m at : ℕ) → drop k (window ring (k + m) at) ≡ window ring m (at + k)
drop-window ring k m at =
    ap₂ drop (sym (length-window ring k at)) (window-append ring k m at)
    ∙ drop-append (window ring k at) (window ring m (at + k))

pub take-window :
    (ring : List Stereo) (k m at : ℕ) → take k (window ring (k + m) at) ≡ window ring k at
take-window ring k m at =
    ap₂ take (sym (length-window ring k at)) (window-append ring k m at)
    ∙ take-append (window ring k at) (window ring m (at + k))

-- The oldest frames given up.
unfoldable pub advance_read : (a : AudioRing) (k : ℕ) → IsSound a → k ≤ a.count → AudioRing
advance_read a k h le = record a { read_at = (a.read_at + k) % ring_frames; count = a.count - k }

pub advance_read_lem :
    (a : AudioRing) (k : ℕ) (h : IsSound a) (le : k ≤ a.count)
    → IsSound (advance_read a k h le) × (contents (advance_read a k h le) ≡ drop k (contents a))
unfolding advance_read
advance_read_lem a k h le =
    let whole : k + (a.count - k) ≡ a.count = omega arith in
    (
      record {
        cells = h.cells;
        reads = omega arith;
        holds = omega (arith, h.holds);
        writes = omega (arith, h.writes, h.reads);
      },
      window_around a.ring (a.count - k) (a.read_at + k)
          ∙ sym (drop-window a.ring k (a.count - k) a.read_at)
          ∙ ap (λ n. drop k (window a.ring n a.read_at)) whole,
    )

write_frames_lem :
    (frames : List Stereo) (a : AudioRing)
    → IsSound a
    → a.count + length frames ≤ ring_frames
    → IsSound (write_frames frames a) × (contents (write_frames frames a) ≡ contents a ++ frames)
unfolding write_frames
write_frames_lem frames a h fit =
    let inside : a.write_at < ring_frames = omega (arith, h.writes) in
    let room : length frames ≤ ring_frames = omega arith in
    let ring' = written a.ring frames a.write_at h.cells inside room in
    let old : window ring' a.count a.read_at ≡ window a.ring a.count a.read_at =
      window_agree ring' a.ring a.count a.read_at a.read_at (λ k below.
        written_others a.ring frames a.write_at h.cells inside room ((a.read_at + k) % ring_frames)
          (omega arith) (λ j under. omega (arith, h.writes, h.reads))) in
    let new : window ring' (length frames) a.write_at ≡ frames =
      window_holds ring' frames a.write_at
        (written_frames a.ring frames a.write_at h.cells inside room) in
    (
      record {
        cells = length-written a.ring frames a.write_at h.cells inside room;
        reads = h.reads;
        holds = fit;
        writes = omega (arith, h.writes, h.reads);
      },
      window-append ring' a.count (length frames) a.read_at
          ∙ ap₂ ◌++◌ old (
              sym (window_around ring' (length frames) (a.read_at + a.count))
              ∙ ap (window ring' (length frames)) (sym h.writes)
              ∙ new),
    )

make_space_lem :
    (n : ℕ) (a : AudioRing)
    → IsSound a
    → n ≤ ring_frames
    → IsSound (make_space n a)
      × (contents (make_space n a) ≡ drop (a.count + n - ring_frames) (contents a))
      × ((make_space n a).count + n ≤ ring_frames)
unfolding make_space
make_space_lem n a h fit = elim (order ring_frames (a.count + n)) [
  | inl full ↦
      let e : ltb ring_frames (a.count + n) ≡ true = ground arith in
      let less : a.count + n - ring_frames ≤ a.count = omega arith in
      let (is, same) = advance_read_lem a (a.count + n - ring_frames) h less in
      unfold advance_read in rw e (is, same, omega arith)
  | inr enough ↦
      let e : ltb ring_frames (a.count + n) ≡ false = ground arith in
      let none_dropped : a.count + n - ring_frames ≡ 0 = omega arith in
      rw (e, none_dropped) (h, refl, enough)
]

newest_new :
    (old frames : List Stereo)
    → ring_frames ≤ length frames
    → newest ring_frames (old ++ frames) ≡ drop (length frames - ring_frames) frames
newest_new old frames h =
    let e : length (old ++ frames) - ring_frames ≡ length old + (length frames - ring_frames) =
      omega (arith, length-append old frames) in
    ap (λ n. drop n (old ++ frames)) e
    ∙ sym (drop-drop (length frames - ring_frames) (length old) (old ++ frames))
    ∙ ap (drop (length frames - ring_frames)) (drop-append old frames)

newest_part :
    (old frames : List Stereo)
    → length old + length frames - ring_frames ≤ length old
    → newest ring_frames (old ++ frames)
      ≡ drop (length old + length frames - ring_frames) old ++ frames
newest_part old frames h =
    ap (λ n. drop (n - ring_frames) (old ++ frames)) (length-append old frames)
    ∙ drop-append_le (length old + length frames - ring_frames) old frames h

-- A sound ring with any number of frames below 2 ^ 63 pushed is sound, and holds the newest 48000
-- of the frames it held and those pushed, in order.
pub audio_push_frames_refines :
    (frames : List Stereo) (a : AudioRing)
    → IsSound a
    → length frames < 2 ^ 63
    → IsSound (audio_push_frames frames a)
      × (contents (audio_push_frames frames a) ≡ newest ring_frames (contents a ++ frames))
unfolding audio_push_frames
audio_push_frames_refines [] a h small =
    let fits : length (contents a ++ []) - ring_frames ≡ 0 =
      omega
        (arith, length-append (contents a) [], length-window a.ring a.count a.read_at, h.holds) in
    (h, sym (ap (λ n. drop n (contents a ++ [])) fits ∙ append-nil (contents a)))
audio_push_frames_refines (x ∷ xs) a h small =
    let n = length (x ∷ xs) in
    let some_frames : (length (x ∷ xs) == 0) ≡ false = ground arith in
    let few : ltb (2 ^ 63 - 1) (length (x ∷ xs)) ≡ false = ground arith in
    elim (order n ring_frames) [
      | inl less ↦
          let e : leb ring_frames (length (x ∷ xs)) ≡ false = ground arith in
          let (is, held, fit) = make_space_lem n a h (omega arith) in
          let (is', held') = write_frames_lem (x ∷ xs) (make_space n a) is fit in
          let size = length-window a.ring a.count a.read_at in
          rw (some_frames, few, e)
            (
              is',
              held'
                  ∙ ap (λ t. t ++ (x ∷ xs)) held
                  ∙ ap (λ c. drop (c + n - ring_frames) (contents a) ++ (x ∷ xs)) (sym size)
                  ∙ sym (newest_part (contents a) (x ∷ xs) (omega (arith, size, h.holds))),
            )
      | inr all_new ↦
          let e : leb ring_frames (length (x ∷ xs)) ≡ true = ground arith in
          let kept = drop (n - ring_frames) (x ∷ xs) in
          let empty = record a { read_at = 0; write_at = 0; count = 0 } in
          let (is, held) =
            write_frames_lem kept empty
              (record {
                cells = h.cells;
                reads = omega arith;
                holds = omega arith;
                writes = omega arith;
              })
              (omega (arith, length-drop (n - ring_frames) (x ∷ xs))) in
          rw (some_frames, few, e) (is, held ∙ sym (newest_new (contents a) (x ∷ xs) all_new))
    ]
