-- ===== src/Host/Audio/Copy.antt =====
-- What `host_copy_audio` of package/nes-emulator/src/host.c takes from the queue of frames.
use openwrt_nes_emulator.Base.{
  ℕ, zero, suc, ◌+◌, ◌-◌, ◌%◌, ◌≤◌, ◌<◌, ◌≡◌, inl, inr, refl, ap, ap₂, sym, ◌∙◌, true, false, List,
  [], ◌∷◌, ◌++◌, length, take, drop, get_or, min, ltb, ◌==◌, arith,
}
use mathlib.Core.Path.{subst}
use openwrt_nes_emulator.Host.Audio.{
  Stereo, ring_frames, AudioRing, window_frames, skip_stale, copy_out, take_count, host_copy_audio,
}
use openwrt_nes_emulator.Host.Audio.Cells.{
  silence, window, length-window, window-append, window_around,
}
use openwrt_nes_emulator.Host.Audio.Queue.{IsSound, contents, order, drop_all}
use openwrt_nes_emulator.Host.Audio.Push.{newest, take-window, advance_read, advance_read_lem}

skip_stale_lem :
    (recent : ℕ) (a : AudioRing)
    → IsSound a
    → IsSound (skip_stale recent a) × (contents (skip_stale recent a) ≡ newest recent (contents a))
unfolding skip_stale
skip_stale_lem recent a h =
    let size = length-window a.ring a.count a.read_at in
    elim (order recent a.count) [
      | inl more ↦
          let e : ltb recent a.count ≡ true = ground arith in
          let left : a.count - (a.count - recent) ≡ recent = omega arith in
          let (is, same) = advance_read_lem a (a.count - recent) h (omega arith) in
          let held : contents (advance_read a (a.count - recent) h (omega arith))
              ≡ newest recent (contents a) =
            same ∙ ap (λ n. drop (n - recent) (contents a)) (sym size) in
          unfold advance_read in
          rw e (
            subst
              (λ c.
                IsSound
                  (record a { read_at = (a.read_at + (a.count - recent)) % ring_frames; count = c })
                × (window a.ring c ((a.read_at + (a.count - recent)) % ring_frames)
                    ≡ newest recent (contents a)))
              left (is, held))
      | inr fresh ↦
          let e : ltb recent a.count ≡ false = ground arith in
          let none_dropped : length (contents a) - recent ≡ 0 = omega (arith, size) in
          rw e (h, sym (ap (λ n. drop n (contents a)) none_dropped))
    ]

drop-get_or :
    (at : ℕ) (ring : List Stereo)
    → at < length ring
    → drop at ring ≡ get_or ring at silence ∷ drop (suc at) ring
drop-get_or at [] h = absurd (omega arith)
drop-get_or zero (x ∷ ring) h = refl
drop-get_or (suc at) (x ∷ ring) h = drop-get_or at ring (omega arith)

take_cells :
    (ring : List Stereo) (k at : ℕ)
    → length ring ≡ ring_frames
    → at + k ≤ ring_frames
    → take k (drop at ring) ≡ window ring k at
take_cells ring zero at cells inside = refl
take_cells ring (suc k) at cells inside =
    let here : at ≡ at % ring_frames = omega arith in
    let next : suc at ≡ at + 1 = omega arith in
    ap (take (suc k)) (drop-get_or at ring (omega (arith, cells)))
    ∙ ap₂ ◌∷◌ (ap (λ i. get_or ring i silence) here)
        (ap (λ i. take k (drop i ring)) next ∙ take_cells ring k (at + 1) cells (omega arith))

copy_out_lem :
    (n : ℕ) (a : AudioRing)
    → IsSound a
    → n ≤ a.count
    → ((copy_out n a).0 ≡ take n (contents a))
      × IsSound (copy_out n a).1
      × (contents (copy_out n a).1 ≡ drop n (contents a))
unfolding copy_out
copy_out_lem n a h le =
    let first = min (ring_frames - a.read_at) n in
    let (is, held) = advance_read_lem a n h le in
    let whole : n + (a.count - n) ≡ a.count = omega arith in
    let taken : take n (contents a) ≡ window a.ring n a.read_at =
      ap (λ c. take n (window a.ring c a.read_at)) (sym whole)
      ∙ take-window a.ring n (a.count - n) a.read_at in
    let front = take_cells a.ring first a.read_at h.cells (omega (arith, h.reads)) in
    unfold advance_read in
    (
      elim (order first n) [
        | inl cut ↦
            let e : ltb first n ≡ true = ground arith in
            let parts : n ≡ first + (n - first) = omega arith in
            let around : 0 ≡ (a.read_at + first) % ring_frames = omega (arith, h.reads) in
            rw e (
              ap₂ ◌++◌ front (
                take_cells a.ring (n - first) 0 h.cells (omega (arith, h.holds))
                ∙ ap (window a.ring (n - first)) around
                ∙ window_around a.ring (n - first) (a.read_at + first))
              ∙ sym (window-append a.ring first (n - first) a.read_at)
              ∙ ap (λ k. window a.ring k a.read_at) (sym parts)
              ∙ sym taken)
        | inr uncut ↦
            let e : ltb first n ≡ false = ground arith in
            let all_first : first ≡ n = omega arith in
            rw e (front ∙ ap (λ k. window a.ring k a.read_at) all_first ∙ sym taken)
      ],
      is,
      held,
    )

take_all : (m : ℕ) (xs : List Stereo) → length xs ≤ m → take m xs ≡ xs
take_all zero [] h = refl
take_all zero (x ∷ xs) h = absurd (omega arith)
take_all (suc m) [] h = refl
take_all (suc m) (x ∷ xs) h = ap (λ t. x ∷ t) (take_all m xs (omega arith))

take_count_lem :
    (m : ℕ) (xs : List Stereo)
    → (take_count (length xs) m ≤ length xs)
      × (take (take_count (length xs) m) xs ≡ take m xs)
      × (drop (take_count (length xs) m) xs ≡ drop m xs)
take_count_lem m xs = elim (order (length xs) m) [
  | inl few ↦
      let e : ltb (length xs) m ≡ true = ground arith in
      rw e (
        omega arith,
        take_all (length xs) xs (omega arith) ∙ sym (take_all m xs (omega arith)),
        drop_all (length xs) xs (omega arith) ∙ sym (drop_all m xs (omega arith)),
      )
  | inr enough ↦ let e : ltb (length xs) m ≡ false = ground arith in rw e (enough, refl, refl)
]

-- From a sound ring, what is copied when some frames are asked for is the oldest of the window of
-- recent frames, in order, as many as are asked for or all there are; the ring is sound and holds
-- the rest of the window.
pub host_copy_audio_refines :
    (recent max_frames : ℕ) (a : AudioRing)
    → IsSound a
    → 0 < max_frames
    → ((host_copy_audio recent max_frames a).0
        ≡ take max_frames (newest (window_frames recent) (contents a)))
      × IsSound (host_copy_audio recent max_frames a).1
      × (contents (host_copy_audio recent max_frames a).1
          ≡ drop max_frames (newest (window_frames recent) (contents a)))
unfolding host_copy_audio
host_copy_audio_refines recent max_frames a h some_asked =
    let e : (max_frames == 0) ≡ false = ground arith in
    let fresh = skip_stale (window_frames recent) a in
    let (is, held) = skip_stale_lem (window_frames recent) a h in
    let size = length-window fresh.ring fresh.count fresh.read_at in
    let (le, taken, left) =
      subst
        (λ c.
          (take_count c max_frames ≤ c)
          × (take (take_count c max_frames) (contents fresh) ≡ take max_frames (contents fresh))
          × (drop (take_count c max_frames) (contents fresh) ≡ drop max_frames (contents fresh)))
        size (take_count_lem max_frames (contents fresh)) in
    let (out, is', rest) = copy_out_lem (take_count fresh.count max_frames) fresh is le in
    rw e (out ∙ taken ∙ ap (take max_frames) held, is', rest ∙ left ∙ ap (drop max_frames) held)
