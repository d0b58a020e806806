-- ===== src/Host/Audio/Queue.antt =====
-- The ring beside a queue of frames that forgets its oldest.
use openwrt_nes_emulator.Base.{
  ℕ, zero, suc, ◌+◌, ◌-◌, ◌%◌, ◌≤◌, ◌<◌, ◌≡◌, ◌≢◌, ◌⊎◌, inl, inr, refl, ap, ◌∙◌, List, [], ◌∷◌,
  length, take, drop, get_or, min, ltb, ltb→lt, if◌then◌else◌, arith, Bool-cases, length-take,
  length-drop,
}
use openwrt_nes_emulator.Host.Audio.{Stereo, ring_frames, AudioRing, overwrite}
use openwrt_nes_emulator.Host.Audio.Cells.{
  silence, cell, window, length-overwrite, overwrite_outside, overwrite_inside,
}

pub record IsSound (a : AudioRing) : Type 0 where
  pub cells : length a.ring ≡ ring_frames
  pub reads : a.read_at < ring_frames
  pub holds : a.count ≤ ring_frames
  pub writes : a.write_at ≡ (a.read_at + a.count) % ring_frames

-- The frames in the ring, from the oldest on.
abbrev pub contents : AudioRing → List Stereo
contents a = window a.ring a.count a.read_at

get_or-take :
    (n k : ℕ) (xs : List Stereo) → k < n → get_or (take n xs) k silence ≡ get_or xs k silence
get_or-take zero k xs h = absurd (omega arith)
get_or-take (suc n) k [] h = refl
get_or-take (suc n) zero (x ∷ xs) h = refl
get_or-take (suc n) (suc k) (x ∷ xs) h = get_or-take n k xs (omega arith)

get_or-drop :
    (n k : ℕ) (xs : List Stereo) → get_or (drop n xs) k silence ≡ get_or xs (n + k) silence
get_or-drop zero k xs = let e : k ≡ 0 + k = omega arith in ap (λ i. get_or xs i silence) e
get_or-drop (suc n) k [] = refl
get_or-drop (suc n) k (x ∷ xs) =
    let e : suc (n + k) ≡ suc n + k = omega arith in
    get_or-drop n k xs ∙ ap (λ i. get_or (x ∷ xs) i silence) e

pub drop_all : (n : ℕ) (xs : List Stereo) → length xs ≤ n → drop n xs ≡ []
drop_all zero [] h = refl
drop_all zero (x ∷ xs) h = absurd (omega arith)
drop_all (suc n) [] h = refl
drop_all (suc n) (x ∷ xs) h = drop_all n xs (omega arith)

pub order : (a b : ℕ) → (a < b) ⊎ (b ≤ a)
order a b = elim (Bool-cases (ltb a b)) [ inl e ↦ inl (ltb→lt a b e) | inr e ↦ inr (ground arith) ]

-- Frames less than the ring holds, written from `at` on and round its end.
module _ (ring frames : List Stereo) (at : ℕ) (cells : length ring ≡ ring_frames)
    (inside : at < ring_frames) (fit : length frames ≤ ring_frames) where
  abbrev first : ℕ
  first = min (ring_frames - at) (length frames)

  abbrev front : List Stereo
  front = overwrite ring at (take first frames)

  abbrev pub written : List Stereo
  written = if ltb first (length frames) then overwrite front 0 (drop first frames) else front

  start : length (take first frames) ≡ first
  start = omega (arith, length-take first frames)

  rest : length (drop first frames) ≡ length frames - first
  rest = length-drop first frames

  both : written ≡ overwrite front 0 (drop first frames)
  both = elim (Bool-cases (ltb first (length frames))) [
    | inl e ↦ rw e refl
    | inr e ↦
        let none_left : drop first frames ≡ [] = drop_all first frames (ground arith) in
        unfold overwrite in rw (e, none_left) refl
  ]

  pub length-written : length written ≡ ring_frames
  length-written =
      ap length both
      ∙ length-overwrite front 0 (drop first frames)
      ∙ length-overwrite ring at (take first frames)
      ∙ cells

  pub written_frames : (k : ℕ) → k < length frames → cell written (at + k) ≡ get_or frames k silence
  written_frames k h = ap (λ t. cell t (at + k)) both ∙ elim (order k first) [
    | inl before ↦
        let e : (at + k) % ring_frames ≡ at + k = omega arith in
        ap (λ i. get_or (overwrite front 0 (drop first frames)) i silence) e
        ∙ overwrite_outside front 0 (drop first frames) (at + k) (inr (omega (arith, rest)))
        ∙ overwrite_inside ring at (take first frames) k (omega (arith, start))
            (omega (arith, start, cells))
        ∙ get_or-take first k frames before
    | inr behind ↦
        let e : (at + k) % ring_frames ≡ 0 + (k - first) = omega arith in
        let same : first + (k - first) ≡ k = omega arith in
        ap (λ i. get_or (overwrite front 0 (drop first frames)) i silence) e
        ∙ overwrite_inside front 0 (drop first frames) (k - first) (omega (arith, rest))
            (omega (arith, rest, length-overwrite ring at (take first frames), cells))
        ∙ get_or-drop first (k - first) frames
        ∙ ap (λ i. get_or frames i silence) same
  ]

  pub written_others :
      (i : ℕ)
      → i < ring_frames
      → ((k : ℕ) → k < length frames → (at + k) % ring_frames ≢ i)
      → get_or written i silence ≡ get_or ring i silence
  written_others i h apart =
      ap (λ t. get_or t i silence) both
      ∙ overwrite_outside front 0 (drop first frames) i
          (inr (behind (order i (length (drop first frames)))))
      ∙ overwrite_outside ring at (take first frames) i (aside (order i at) (order i (at + first)))
    where
      behind :
          (i < length (drop first frames)) ⊎ (length (drop first frames) ≤ i)
          → 0 + length (drop first frames) ≤ i
      behind (inr h) = omega arith
      behind (inl h) = absurd (apart (first + i) (omega (arith, rest)) (omega (arith, rest)))

      aside :
          (i < at) ⊎ (at ≤ i)
          → (i < at + first) ⊎ (at + first ≤ i)
          → (i < at) ⊎ (at + length (take first frames) ≤ i)
      aside (inl h) o = inl h
      aside (inr h) (inr h') = inr (omega (arith, start))
      aside (inr h) (inl h') = absurd (apart (i - at) (omega arith) (omega arith))
