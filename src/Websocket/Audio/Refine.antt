-- ===== src/Websocket/Audio/Refine.antt =====
-- The ring of audio packets beside a queue of packets.
use native.Mathlib.Decide.{ℕ_discrete}
use native.Mathlib.Numerals.{add-one}
use openwrt_nes_emulator.Base.{
  ℕ, zero, suc, ◌+◌, ◌-◌, ◌%◌, ◌≤◌, ◌<◌, ◌≡◌, refl, ◌≢◌, sym, ◌∙◌, ap, ap₂, false, List, [], ◌∷◌,
  ◌++◌, some, arith, length, get_or, set, length-set, get_or-set_self, get_or-set_ne, ◌==◌,
  Bool-cases, inl, inr,
}
use openwrt_nes_emulator.Websocket.Audio.{
  AudioPacket, AudioQueue, blank, audio_slots, audio_max_duration, websocket_audio_oldest,
  release_oldest, websocket_audio_drop_oldest, store_packet, audio_crowded,
}

-- The packets of the `n` slots from `h` on, round the ring.
abbrev pub window : List AudioPacket → ℕ → ℕ → List AudioPacket
window slots h zero = []
window slots h (suc n) = get_or slots h blank ∷ window slots ((h + 1) % audio_slots) n

-- What the ring holds, oldest packet first.
abbrev pub packets : AudioQueue → List AudioPacket
packets q = window q.slots q.head q.count

abbrev pub total : List AudioPacket → ℕ
total [] = 0
total (p ∷ ps) = p.duration_us + total ps

-- The ring is well formed: its indices are in range, its duration is that of its packets, and
-- stays within the bound.
pub record IsValid (q : AudioQueue) : Type 0 where
  pub three : length q.slots ≡ audio_slots
  pub head_in : q.head < audio_slots
  pub count_in : q.count ≤ audio_slots
  pub duration_is : q.duration ≡ total (packets q)
  pub short : q.duration ≤ audio_max_duration

abbrev pub tail : List AudioPacket → List AudioPacket
tail [] = []
tail (p ∷ ps) = ps

length-window : (slots : List AudioPacket) (h n : ℕ) → length (window slots h n) ≡ n
length-window slots h zero = refl
length-window slots h (suc n) = ap suc (length-window slots ((h + 1) % audio_slots) n)

pub length-packets : (q : AudioQueue) → length (packets q) ≡ q.count
length-packets q = length-window q.slots q.head q.count

-- A write to a slot outside a window does not show in it.
window-set_other :
    (slots : List AudioPacket) (h n i : ℕ) (p : AudioPacket)
    → h < 3
    → i < 3
    → n ≤ (i + 3 - h) % 3
    → window (set slots i p) h n ≡ window slots h n
window-set_other slots h zero i p hh hi hn = refl
window-set_other slots h (suc n) i p hh hi hn =
    ap₂ ◌∷◌ (get_or-set_ne slots i h p blank (omega arith))
      (window-set_other slots ((h + 1) % 3) n i p (omega arith) hi (omega arith))

-- A write just past a window extends it by one.
window-set_end :
    (slots : List AudioPacket) (h n i : ℕ) (p : AudioPacket)
    → length slots ≡ 3
    → h < 3
    → n < 3
    → i ≡ (h + n) % 3
    → window (set slots i p) h (suc n) ≡ window slots h n ++ (p ∷ [])
window-set_end slots h zero i p e hh hn hi =
    let here : i ≡ h = omega arith in
    rw here (ap (λ x. x ∷ []) (get_or-set_self slots h p blank (omega arith)))
window-set_end slots h (suc n) i p e hh hn hi =
    ap₂ ◌∷◌ (get_or-set_ne slots i h p blank (omega arith))
      (window-set_end slots ((h + 1) % 3) n i p e (omega arith) (omega arith) (omega arith))

window_of_ne_zero :
    (slots : List AudioPacket) (h n : ℕ)
    → n ≢ 0
    → window slots h n ≡ get_or slots h blank ∷ window slots ((h + 1) % 3) (n - 1)
window_of_ne_zero slots h zero p = absurd (p refl)
window_of_ne_zero slots h (suc n) p =
    let e : n ≡ suc n - 1 = omega arith in
    ap (λ k. get_or slots h blank ∷ window slots ((h + 1) % 3) k) e

total-append : (ps qs : List AudioPacket) → total (ps ++ qs) ≡ total ps + total qs
total-append [] qs = omega arith
total-append (p ∷ ps) qs = omega (arith, total-append ps qs)

-- What is left of a ring with `count` packets, where `count` is not 0.
module _ (q : AudioQueue) (v : IsValid q) (some_left : q.count ≢ 0) where
  oldest_of :
      get_or q.slots q.head blank ∷ window q.slots ((q.head + 1) % 3) (q.count - 1) ≡ packets q
  oldest_of = sym (window_of_ne_zero q.slots q.head q.count some_left)

  rest_kept :
      window (set q.slots q.head blank) ((q.head + 1) % 3) (q.count - 1)
      ≡ window q.slots ((q.head + 1) % 3) (q.count - 1)
  rest_kept =
      window-set_other q.slots ((q.head + 1) % 3) (q.count - 1) q.head blank (omega arith) v.head_in
        (omega arith)

  release-packets : packets (release_oldest (get_or q.slots q.head blank) q) ≡ tail (packets q)
  unfolding release_oldest
  release-packets = elim (Bool-cases (q.count - 1 == 0)) [
    | inl e ↦ let one : q.count ≡ 1 = ground arith in rw one refl
    | inr e ↦ rw e (rest_kept ∙ ap tail oldest_of)
  ]

  release-total :
      (get_or q.slots q.head blank).duration_us + total (tail (packets q)) ≡ total (packets q)
  release-total = rw (← oldest_of)

  last-total : q.count - 1 ≡ 0 → total (tail (packets q)) ≡ 0
  last-total e = let one : q.count ≡ 1 = omega arith in rw one refl

  duration-release :
      (release_oldest (get_or q.slots q.head blank) q).duration ≡ total (tail (packets q))
  unfolding release_oldest
  duration-release = ground (arith, v.duration_is, release-total, last-total)

  release-IsValid : IsValid (release_oldest (get_or q.slots q.head blank) q)
  unfolding release_oldest
  release-IsValid = record {
    three = length-set q.slots q.head blank ∙ v.three;
    head_in = ground arith;
    count_in = omega arith;
    duration_is = duration-release ∙ ap total (sym release-packets);
    short = omega (arith, duration-release, release-total, v.duration_is, v.short);
  }

oldest_of_some :
    (q : AudioQueue) → q.count ≢ 0 → websocket_audio_oldest q ≡ some (get_or q.slots q.head blank)
unfolding websocket_audio_oldest
oldest_of_some q h = ground arith

drop_of_some :
    (q : AudioQueue)
    → q.count ≢ 0
    → websocket_audio_drop_oldest q ≡ release_oldest (get_or q.slots q.head blank) q
unfolding websocket_audio_drop_oldest
drop_of_some q h = ground arith

drop_of_none : (q : AudioQueue) → q.count ≡ 0 → websocket_audio_drop_oldest q ≡ q
unfolding websocket_audio_drop_oldest
drop_of_none q h = ground arith

-- Dropping the oldest packet leaves the others, in order, and the ring well formed.
pub drop_oldest_refines :
    (q : AudioQueue)
    → IsValid q
    → IsValid (websocket_audio_drop_oldest q)
      × (packets (websocket_audio_drop_oldest q) ≡ tail (packets q))
drop_oldest_refines q v = elim (ℕ_discrete q.count 0) [
  | yes e ↦ rw (drop_of_none q e) (v, rw e)
  | no h ↦ rw (drop_of_some q h) (release-IsValid q v h, release-packets q v h)
]

-- A packet stored where there is room stands last.
pub store_packet_refines :
    (p : AudioPacket) (q : AudioQueue)
    → IsValid q
    → audio_crowded p.duration_us q ≡ false
    → IsValid (store_packet p q) × (packets (store_packet p q) ≡ packets q ++ (p ∷ []))
unfolding store_packet audio_crowded
store_packet_refines p q v e =
    let same : packets (store_packet p q) ≡ packets q ++ (p ∷ []) = rw add-one (
      window-set_end q.slots q.head q.count ((q.head + q.count) % 3) p v.three v.head_in
        (ground arith) refl) in
    (
      record {
        three = length-set q.slots ((q.head + q.count) % audio_slots) p ∙ v.three;
        head_in = v.head_in;
        count_in = ground arith;
        duration_is =
            omega (arith, v.duration_is, ap total same, total-append (packets q) (p ∷ []));
        short = ground (arith, v.short);
      },
      same,
    )
