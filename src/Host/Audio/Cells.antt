-- ===== src/Host/Audio/Cells.antt =====
-- The cells of the ring, and the frames from one cell on round the ring.
use openwrt_nes_emulator.Base.{
  ℕ, zero, suc, ◌+◌, ◌%◌, ◌≤◌, ◌<◌, ◌≡◌, ◌⊎◌, inl, inr, refl, ap, ap₂, ◌∙◌, List, [], ◌∷◌, ◌++◌,
  length, set, get_or, arith, length-set, get_or-set_self, get_or-set_ne,
}
use openwrt_nes_emulator.Host.Audio.{Stereo, ring_frames, overwrite}

abbrev pub silence : Stereo
silence = (0, 0)

-- The frame at a cell, counted round the ring.
abbrev pub cell : List Stereo → ℕ → Stereo
cell ring i = get_or ring (i % ring_frames) silence

-- So many frames, from this cell on.
abbrev pub window : List Stereo → ℕ → ℕ → List Stereo
window ring zero at = []
window ring (suc n) at = cell ring at ∷ window ring n (at + 1)

pub length-overwrite :
    (ring : List Stereo) (at : ℕ) (xs : List Stereo) → length (overwrite ring at xs) ≡ length ring
unfolding overwrite
length-overwrite ring at [] = refl
length-overwrite ring at (x ∷ xs) =
    length-overwrite (set ring at x) (at + 1) xs ∙ length-set ring at x

pub overwrite_outside :
    (ring : List Stereo) (at : ℕ) (xs : List Stereo) (i : ℕ)
    → (i < at) ⊎ (at + length xs ≤ i)
    → get_or (overwrite ring at xs) i silence ≡ get_or ring i silence
unfolding overwrite
overwrite_outside ring at [] i h = refl
overwrite_outside ring at (x ∷ xs) i h =
    overwrite_outside (set ring at x) (at + 1) xs i
      (elim h [ inl a ↦ inl (omega arith) | inr b ↦ inr (omega arith) ])
    ∙ get_or-set_ne ring at i x silence (elim h [ inl a ↦ omega arith | inr b ↦ omega arith ])

pub overwrite_inside :
    (ring : List Stereo) (at : ℕ) (xs : List Stereo) (k : ℕ)
    → k < length xs
    → at + length xs ≤ length ring
    → get_or (overwrite ring at xs) (at + k) silence ≡ get_or xs k silence
unfolding overwrite
overwrite_inside ring at [] k h room = absurd (omega arith)
overwrite_inside ring at (x ∷ xs) zero h room =
    overwrite_outside (set ring at x) (at + 1) xs (at + 0) (inl (omega arith))
    ∙ ap (λ i. get_or (set ring at x) i silence) (omega arith)
    ∙ get_or-set_self ring at x silence (omega arith)
overwrite_inside ring at (x ∷ xs) (suc k) h room =
    ap (λ i. get_or (overwrite (set ring at x) (at + 1) xs) i silence) (omega arith)
    ∙ overwrite_inside (set ring at x) (at + 1) xs k (omega arith)
        (omega (arith, length-set ring at x))

pub length-window : (ring : List Stereo) (n at : ℕ) → length (window ring n at) ≡ n
length-window ring zero at = refl
length-window ring (suc n) at = ap suc (length-window ring n (at + 1))

pub window_agree :
    (ring ring' : List Stereo) (n at at' : ℕ)
    → ((k : ℕ) → k < n → cell ring (at + k) ≡ cell ring' (at' + k))
    → window ring n at ≡ window ring' n at'
window_agree ring ring' zero at at' same = refl
window_agree ring ring' (suc n) at at' same =
    ap₂ ◌∷◌ (ap (cell ring) (omega arith) ∙ same 0 (omega arith) ∙ ap (cell ring') (omega arith)) (
      window_agree ring ring' n (at + 1) (at' + 1) (λ k h.
        ap (cell ring) (omega arith) ∙ same (suc k) (omega arith) ∙ ap (cell ring') (omega arith)))

pub window_holds :
    (ring xs : List Stereo) (at : ℕ)
    → ((k : ℕ) → k < length xs → cell ring (at + k) ≡ get_or xs k silence)
    → window ring (length xs) at ≡ xs
window_holds ring [] at same = refl
window_holds ring (x ∷ xs) at same = ap₂ ◌∷◌ (ap (cell ring) (omega arith) ∙ same 0 (omega arith)) (
    window_holds ring xs (at + 1)
      (λ k h. ap (cell ring) (omega arith) ∙ same (suc k) (omega arith)))

pub window-append :
    (ring : List Stereo) (m n at : ℕ)
    → window ring (m + n) at ≡ window ring m at ++ window ring n (at + m)
window-append ring zero n at =
    let none_first : 0 + n ≡ n = omega arith in
    let from : at ≡ at + 0 = omega arith in ap₂ (λ k i. window ring k i) none_first from
window-append ring (suc m) n at =
    let one_first : suc m + n ≡ suc (m + n) = omega arith in
    let from : at + 1 + m ≡ at + suc m = omega arith in
    ap (λ k. window ring k at) one_first
    ∙ ap (λ t. cell ring at ∷ t)
        (window-append ring m n (at + 1) ∙ ap (λ i. window ring m (at + 1) ++ window ring n i) from)

-- Cells are counted round the ring.
pub window_around :
    (ring : List Stereo) (n at : ℕ) → window ring n (at % ring_frames) ≡ window ring n at
window_around ring n at =
    window_agree ring ring n (at % ring_frames) at
      (λ k h. ap (λ i. get_or ring i silence) (omega arith))
