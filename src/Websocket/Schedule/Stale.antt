-- ===== src/Websocket/Schedule/Stale.antt =====
-- The two loops that drop stale audio packets, against the list of packets.
use openwrt_nes_emulator.Base.{
  ℕ, zero, suc, ◌+◌, ◌-◌, ◌≤◌, ◌≡◌, refl, sym, ◌∙◌, ap, true, false, ◌⊎◌, inl, inr, List, [], ◌∷◌,
  Option, none, some, arith, Bytes, length, ◌==◌, if◌then◌else◌, Bool-cases, get_or,
}
use openwrt_nes_emulator.Websocket.Audio.{
  AudioPacket, AudioQueue, blank, audio_fresh, websocket_audio_oldest, websocket_audio_drop_oldest,
  websocket_audio_take_oldest,
}
use openwrt_nes_emulator.Websocket.Audio.Refine.{
  IsValid, packets, window, tail, drop_oldest_refines,
}
use openwrt_nes_emulator.Websocket.Audio.Room.{count-drop_oldest, packets_of_none}
use openwrt_nes_emulator.Websocket.Schedule.{promote_audio, expire_audio}

-- The packets from the first fresh one on.
pub fresh_suffix : ℕ → List AudioPacket → List AudioPacket
fresh_suffix now [] = []
fresh_suffix now (p ∷ ps) = if audio_fresh now p then p ∷ ps else fresh_suffix now ps

-- The ring's oldest packet is the head of its list.
abbrev pub head? : List AudioPacket → Option AudioPacket
head? [] = none
head? (p ∷ ps) = some p

oldest-eq-head? : (q : AudioQueue) → websocket_audio_oldest q ≡ head? (packets q)
unfolding websocket_audio_oldest
oldest-eq-head? q = window_head q.slots q.head q.count
  where
    window_head :
        (slots : List AudioPacket) (h n : ℕ)
        → (if n == 0 then none else some (get_or slots h blank)) ≡ head? (window slots h n)
    window_head slots h zero = refl
    window_head slots h (suc n) = ground arith

-- Taking is dropping, with the frame handed over.
take_oldest-eq :
    (q : AudioQueue) (p : AudioPacket)
    → websocket_audio_oldest q ≡ some p
    → websocket_audio_take_oldest q ≡ some (p.frame, websocket_audio_drop_oldest q)
unfolding websocket_audio_take_oldest websocket_audio_drop_oldest
take_oldest-eq q p h = ground (arith, h)

head?-cases :
    (ps : List AudioPacket)
    → ((head? ps ≡ none) × (ps ≡ []))
      ⊎ ((p : AudioPacket) × (head? ps ≡ some p) × (ps ≡ p ∷ tail ps))
head?-cases [] = inl (refl, refl)
head?-cases (p ∷ ps) = inr (p, refl, refl)

abbrev pub frame? : Option AudioPacket → Option Bytes
frame? none = none
frame? (some p) = some p.frame

-- What the loop of `websocket_promote_next` is to return for a queue that holds `ps`.
abbrev pub Promotes : ℕ → List AudioPacket → Option Bytes × AudioQueue × ℕ → Type 0
Promotes now ps r =
    (r.0 ≡ frame? (head? (fresh_suffix now ps)))
    × IsValid r.1
    × (packets r.1 ≡ tail (fresh_suffix now ps))
    × (length (fresh_suffix now ps) + r.2 ≡ length ps)

-- What the loop of `websocket_expire_stale_media` is to return.
abbrev pub Expires : ℕ → List AudioPacket → AudioQueue × ℕ → Type 0
Expires now ps r =
    IsValid r.0
    × (packets r.0 ≡ fresh_suffix now ps)
    × (length (fresh_suffix now ps) + r.1 ≡ length ps)

module _ (fuel now : ℕ) (q : AudioQueue) where
  promote_audio-none :
      websocket_audio_oldest q ≡ none → promote_audio (suc fuel) now q ≡ (none, q, 0)
  unfolding promote_audio
  promote_audio-none h = rw (h, promote_audio)

  promote_audio-fresh :
      (p : AudioPacket)
      → websocket_audio_oldest q ≡ some p
      → audio_fresh now p ≡ true
      → promote_audio (suc fuel) now q ≡ (some p.frame, websocket_audio_drop_oldest q, 0)
  unfolding promote_audio
  promote_audio-fresh p h f = ground (arith, take_oldest-eq q p h)

  promote_audio-stale :
      (p : AudioPacket)
      → websocket_audio_oldest q ≡ some p
      → audio_fresh now p ≡ false
      → promote_audio (suc fuel) now q ≡ (
        (promote_audio fuel now (websocket_audio_drop_oldest q)).0,
        (promote_audio fuel now (websocket_audio_drop_oldest q)).1,
        (promote_audio fuel now (websocket_audio_drop_oldest q)).2 + 1,
      )
  unfolding promote_audio
  promote_audio-stale p h f = ground arith

  expire_audio-none : websocket_audio_oldest q ≡ none → expire_audio (suc fuel) now q ≡ (q, 0)
  unfolding expire_audio
  expire_audio-none h = ground arith

  expire_audio-fresh :
      (p : AudioPacket)
      → websocket_audio_oldest q ≡ some p
      → audio_fresh now p ≡ true
      → expire_audio (suc fuel) now q ≡ (q, 0)
  unfolding expire_audio
  expire_audio-fresh p h f = ground arith

  expire_audio-stale :
      (p : AudioPacket)
      → websocket_audio_oldest q ≡ some p
      → audio_fresh now p ≡ false
      → expire_audio (suc fuel) now q ≡ (
        (expire_audio fuel now (websocket_audio_drop_oldest q)).0,
        (expire_audio fuel now (websocket_audio_drop_oldest q)).1 + 1,
      )
  unfolding expire_audio
  expire_audio-stale p h f = ground arith

fresh_suffix_nil : (now : ℕ) (ps : List AudioPacket) → ps ≡ [] → fresh_suffix now ps ≡ []
unfolding fresh_suffix
fresh_suffix_nil now ps h = rw h

fresh_suffix_step :
    (now : ℕ) (p : AudioPacket) (ps : List AudioPacket)
    → ps ≡ p ∷ tail ps
    → fresh_suffix now ps ≡ (if audio_fresh now p then ps else fresh_suffix now (tail ps))
unfolding fresh_suffix
fresh_suffix_step now p [] h = absurd (omega (arith, ap length h))
fresh_suffix_step now p (r ∷ rs) h = ground arith

length-tail : (ps : List AudioPacket) → length (tail ps) ≡ length ps - 1
length-tail [] = omega arith
length-tail (p ∷ ps) = omega arith

-- The queue in hand, and the facts about its oldest packet, for one round of either loop.
module _ (now : ℕ) (q : AudioQueue) (v : IsValid q) where
  stops_empty :
      packets q ≡ [] → Promotes now (packets q) (none, q, 0) × Expires now (packets q) (q, 0)
  stops_empty e =
      let s : fresh_suffix now (packets q) ≡ [] = fresh_suffix_nil now (packets q) e in
      (
        (rw s refl, v, e ∙ ap tail (sym s), omega (arith, ap length s, ap length e)),
        (v, e ∙ sym s, omega (arith, ap length s, ap length e)),
      )

  module _ (p : AudioPacket) (h : packets q ≡ p ∷ tail (packets q)) where
    stops_fresh :
        audio_fresh now p ≡ true
        → Promotes now (packets q) (some p.frame, websocket_audio_drop_oldest q, 0)
          × Expires now (packets q) (q, 0)
    stops_fresh f =
        let s : fresh_suffix now (packets q) ≡ packets q =
          fresh_suffix_step now p (packets q) h ∙ rw f refl in
        let d = drop_oldest_refines q v in
        (
          (rw (s ∙ h) refl, d.0, d.1 ∙ ap tail (sym s), omega (arith, ap length s)),
          (v, sym s, omega (arith, ap length s)),
        )

    suffix_stale :
        audio_fresh now p ≡ false
        → fresh_suffix now (packets q) ≡ fresh_suffix now (packets (websocket_audio_drop_oldest q))
    suffix_stale f =
        fresh_suffix_step now p (packets q) h
        ∙ rw f (ap (fresh_suffix now) (sym (drop_oldest_refines q v).1))

    shorter : length (packets q) ≡ length (packets (websocket_audio_drop_oldest q)) + 1
    shorter =
        omega (arith, ap length h, ap length (drop_oldest_refines q v).1, length-tail (packets q))

-- With a round for each packet, the loop of `websocket_promote_next` hands over the frame of the
-- first fresh packet, drops and counts the stale ones before it, and keeps those behind it.
pub promote_audio_refines :
    (fuel now : ℕ) (q : AudioQueue)
    → IsValid q
    → q.count ≤ fuel
    → Promotes now (packets q) (promote_audio fuel now q)
promote_audio_refines zero now q v h =
    unfold promote_audio in (stops_empty now q v (packets_of_none q (omega arith))).0
promote_audio_refines (suc fuel) now q v h = elim (head?-cases (packets q)) [
  | inl (e, nil) ↦
      rw (promote_audio-none fuel now q (oldest-eq-head? q ∙ e)) (stops_empty now q v nil).0
  | inr (p, e, step) ↦ elim (Bool-cases (audio_fresh now p)) [
    | inl f ↦
        rw (promote_audio-fresh fuel now q p (oldest-eq-head? q ∙ e) f)
          (stops_fresh now q v p step f).0
    | inr f ↦
        let next =
          promote_audio_refines fuel now (websocket_audio_drop_oldest q) (drop_oldest_refines q v).0
            (omega (arith, count-drop_oldest q v)) in
        let s = suffix_stale now q v p step f in
        rw (promote_audio-stale fuel now q p (oldest-eq-head? q ∙ e) f) (
          next.0 ∙ ap (λ ps. frame? (head? ps)) (sym s),
          next.1,
          next.2 ∙ ap tail (sym s),
          omega (arith, ap length s, next.3, shorter now q v p step),
        )
  ]
]

-- So does the first loop of `websocket_expire_stale_media`, which keeps the first fresh packet.
pub expire_audio_refines :
    (fuel now : ℕ) (q : AudioQueue)
    → IsValid q
    → q.count ≤ fuel
    → Expires now (packets q) (expire_audio fuel now q)
expire_audio_refines zero now q v h =
    unfold expire_audio in (stops_empty now q v (packets_of_none q (omega arith))).1
expire_audio_refines (suc fuel) now q v h = elim (head?-cases (packets q)) [
  | inl (e, nil) ↦
      rw (expire_audio-none fuel now q (oldest-eq-head? q ∙ e)) (stops_empty now q v nil).1
  | inr (p, e, step) ↦ elim (Bool-cases (audio_fresh now p)) [
    | inl f ↦
        rw (expire_audio-fresh fuel now q p (oldest-eq-head? q ∙ e) f)
          (stops_fresh now q v p step f).1
    | inr f ↦
        let next =
          expire_audio_refines fuel now (websocket_audio_drop_oldest q) (drop_oldest_refines q v).0
            (omega (arith, count-drop_oldest q v)) in
        let s = suffix_stale now q v p step f in
        rw (expire_audio-stale fuel now q p (oldest-eq-head? q ∙ e) f)
          (next.0, next.1 ∙ sym s, omega (arith, ap length s, next.2, shorter now q v p step))
  ]
]
