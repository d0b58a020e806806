-- ===== src/Websocket/Audio/Room.antt =====
-- The loop of `websocket_queue_audio` that makes room, and the loop of `websocket_audio_clear`.
use native.Mathlib.Decide.{ℕ_discrete}
use openwrt_nes_emulator.Base.{
  ℕ, zero, suc, ◌+◌, ◌-◌, ◌≤◌, ◌≡◌, refl, ◌≢◌, sym, ◌∙◌, ap, true, false, List, [], ◌∷◌, arith,
  length, ltb, leb, ◌==◌, ◌||◌, Bool-cases, inl, inr, if◌then◌else◌,
}
use openwrt_nes_emulator.Websocket.Audio.{
  AudioPacket, AudioQueue, audio_slots, audio_max_duration, websocket_audio_drop_oldest,
  audio_crowded, make_room, clear_rounds, websocket_audio_clear,
}
use openwrt_nes_emulator.Websocket.Audio.Refine.{
  IsValid, packets, total, tail, length-packets, drop_oldest_refines,
}

-- The suffix of a queue that leaves room for a packet of this duration.
pub evict : ℕ → List AudioPacket → List AudioPacket
evict duration_us [] = []
evict duration_us (p ∷ ps) =
    if leb audio_slots (length (p ∷ ps)) || ltb audio_max_duration (total (p ∷ ps) + duration_us)
    then evict duration_us ps
    else p ∷ ps

crowded_of_valid :
    (d : ℕ) (q : AudioQueue)
    → IsValid q
    → audio_crowded d q
      ≡ (leb audio_slots (length (packets q)) || ltb audio_max_duration (total (packets q) + d))
unfolding audio_crowded
crowded_of_valid d q v = ground (arith, length-packets q, v.duration_is, v.short)

evict_step :
    (d : ℕ) (ps : List AudioPacket)
    → length ps ≢ 0
    → evict d ps ≡ (
        if leb audio_slots (length ps) || ltb audio_max_duration (total ps + d)
        then evict d (tail ps)
        else ps)
unfolding evict
evict_step d [] h = absurd (h refl)
evict_step d (p ∷ ps) h = refl

length-tail : (ps : List AudioPacket) → length (tail ps) ≡ length ps - 1
length-tail [] = omega arith
length-tail (p ∷ ps) = omega arith

pub packets_of_none : (q : AudioQueue) → q.count ≡ 0 → packets q ≡ []
packets_of_none q e = rw e

pub count-drop_oldest :
    (q : AudioQueue) → IsValid q → (websocket_audio_drop_oldest q).count ≡ q.count - 1
count-drop_oldest q v = omega (
  arith,
  length-packets (websocket_audio_drop_oldest q),
  ap length (drop_oldest_refines q v).1,
  length-tail (packets q),
  length-packets q,
)

module _ (fuel d : ℕ) (q : AudioQueue) where
  make_room_empty : q.count ≡ 0 → make_room (suc fuel) d q ≡ (q, 0)
  unfolding make_room
  make_room_empty h = rw h

  make_room_fits : audio_crowded d q ≡ false → make_room (suc fuel) d q ≡ (q, 0)
  unfolding make_room
  make_room_fits h = rw h (ground arith)

  make_room_drops :
      q.count ≢ 0
      → audio_crowded d q ≡ true
      → make_room (suc fuel) d q ≡ (
        (make_room fuel d (websocket_audio_drop_oldest q)).0,
        (make_room fuel d (websocket_audio_drop_oldest q)).1 + 1,
      )
  unfolding make_room
  make_room_drops h k = rw k (ground arith)

abbrev Made : ℕ → AudioQueue → AudioQueue × ℕ → Type 0
Made d q r =
    IsValid r.0
    × (packets r.0 ≡ evict d (packets q))
    × (length (evict d (packets q)) + r.1 ≡ q.count)

nothing_to_drop : (d : ℕ) (q : AudioQueue) → IsValid q → q.count ≡ 0 → Made d q (q, 0)
nothing_to_drop d q v e =
    let nil = packets_of_none q e in
    let spec : evict d (packets q) ≡ [] = rw nil (unfold evict in refl) in
    (v, nil ∙ sym spec, omega (arith, ap length spec))

-- The loop's test, as the specification makes it.
evict_of_valid :
    (d : ℕ) (q : AudioQueue)
    → IsValid q
    → q.count ≢ 0
    → evict d (packets q) ≡ (if audio_crowded d q then evict d (tail (packets q)) else packets q)
evict_of_valid d q v n =
    rw (crowded_of_valid d q v) (evict_step d (packets q) (omega (arith, length-packets q)))

all_fit :
    (d : ℕ) (q : AudioQueue) → IsValid q → q.count ≢ 0 → audio_crowded d q ≡ false → Made d q (q, 0)
all_fit d q v n c =
    let spec : evict d (packets q) ≡ packets q = evict_of_valid d q v n ∙ rw c refl in
    (v, sym spec, omega (arith, ap length spec, length-packets q))

one_dropped :
    (d : ℕ) (q : AudioQueue) (r : AudioQueue × ℕ)
    → IsValid q
    → q.count ≢ 0
    → audio_crowded d q ≡ true
    → Made d (websocket_audio_drop_oldest q) r
    → Made d q (r.0, r.1 + 1)
one_dropped d q r v n c m =
    let spec : evict d (packets q) ≡ evict d (packets (websocket_audio_drop_oldest q)) =
      evict_of_valid d q v n ∙ rw c (ap (evict d) (sym (drop_oldest_refines q v).1)) in
    (m.0, m.1 ∙ sym spec, omega (arith, ap length spec, m.2, count-drop_oldest q v))

-- With a round for each packet the loop leaves the ring well formed, holding the suffix with room,
-- and it counts what it has dropped.
pub make_room_refines :
    (fuel d : ℕ) (q : AudioQueue) → IsValid q → q.count ≤ fuel → Made d q (make_room fuel d q)
make_room_refines zero d q v h = unfold make_room in nothing_to_drop d q v (omega arith)
make_room_refines (suc fuel) d q v h = elim (ℕ_discrete q.count 0) [
  | yes e ↦ rw (make_room_empty fuel d q e) (nothing_to_drop d q v e)
  | no n ↦ elim (Bool-cases (audio_crowded d q)) [
    | inl c ↦ rw (make_room_drops fuel d q n c) (
        one_dropped d q _ v n c (
          make_room_refines fuel d (websocket_audio_drop_oldest q) (drop_oldest_refines q v).0
            (omega (arith, count-drop_oldest q v))))
    | inr c ↦ rw (make_room_fits fuel d q c) (all_fit d q v n c)
  ]
]

evict_room :
    (d : ℕ) (ps : List AudioPacket)
    → d ≤ audio_max_duration
    → (leb audio_slots (length (evict d ps)) || ltb audio_max_duration (total (evict d ps) + d))
      ≡ false
unfolding evict
evict_room d [] h = ground arith
evict_room d (p ∷ ps) h = ground (arith, evict_room d ps h)

-- A packet that is not too long for an empty ring has room once the loop is done.
pub make_room_not_crowded :
    (d : ℕ) (q : AudioQueue)
    → IsValid q
    → d ≤ audio_max_duration
    → audio_crowded d (make_room q.count d q).0 ≡ false
make_room_not_crowded d q v h =
    let m = make_room_refines q.count d q v (omega arith) in
    crowded_of_valid d (make_room q.count d q).0 m.0 ∙ rw (m.1) (evict_room d (packets q) h)

clear_rounds_empty :
    (fuel : ℕ) (q : AudioQueue)
    → IsValid q
    → q.count ≤ fuel
    → IsValid (clear_rounds fuel q) × ((clear_rounds fuel q).count ≡ 0)
unfolding clear_rounds
clear_rounds_empty zero q v h = (v, omega arith)
clear_rounds_empty (suc fuel) q v h = elim (Bool-cases (q.count == 0)) [
  | inl e ↦ rw e (v, ground arith)
  | inr e ↦ rw e (
      clear_rounds_empty fuel (websocket_audio_drop_oldest q) (drop_oldest_refines q v).0
        (omega (arith, count-drop_oldest q v)))
]

-- Clearing leaves a well-formed ring that holds nothing.
pub clear_lem :
    (q : AudioQueue)
    → IsValid q
    → IsValid (websocket_audio_clear q) × ((websocket_audio_clear q).count ≡ 0)
unfolding websocket_audio_clear
clear_lem q v = clear_rounds_empty q.count q v (omega arith)
