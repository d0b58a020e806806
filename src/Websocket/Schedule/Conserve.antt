-- ===== src/Websocket/Schedule/Conserve.antt =====
-- The frames held, and those counted as dropped, over promotion and expiry.
use openwrt_nes_emulator.Base.{
  ℕ, ◌+◌, ◌≤◌, ◌<◌, ◌≡◌, refl, ◌∙◌, ap, true, inl, inr, List, [], ◌∷◌, Option, none, some, arith,
  Bytes, length, if◌then◌else◌, Bool-cases, Option-cases, u64_mod,
}
use openwrt_nes_emulator.Websocket.Audio.{AudioPacket, AudioQueue}
use openwrt_nes_emulator.Websocket.Audio.Refine.{IsValid, packets, tail, length-packets}
use openwrt_nes_emulator.Websocket.Output.{
  OutputKind, Active, Client, count_drops, is_some, websocket_activate, websocket_clear_active,
}
use openwrt_nes_emulator.Websocket.Output.Media.{CounterHasRoom, one_if}
use openwrt_nes_emulator.Websocket.Output.Conserve.{accounted}
use openwrt_nes_emulator.Websocket.Schedule.Stale.{
  fresh_suffix, head?, frame?, promote_audio_refines, expire_audio_refines,
}
use openwrt_nes_emulator.Websocket.Schedule.{
  promote_audio, promote_video, promote_media, promote_text, websocket_promote_next, expire_audio,
  expire_video, websocket_expire_stale_media, active_stale,
}

promote_video-accounted :
    (now clock : ℕ) (c : Client)
    → c.out ≡ none
    → c.dropped_packets + 1 < u64_mod
    → accounted (promote_video now clock c) ≡ accounted c
unfolding promote_video accounted
promote_video-accounted now clock c idle room = ground arith

-- The ring without its stale packets, and the packets dropped.
abbrev after_audio : ℕ → AudioQueue → Client → Client
after_audio n q c = count_drops n (record c { audio_queue = q })

after_audio-accounted :
    (n : ℕ) (q : AudioQueue) (c : Client)
    → n ≤ 3
    → CounterHasRoom c
    → accounted (after_audio n q c) + c.audio_queue.count ≡ accounted c + q.count + n
unfolding accounted count_drops
after_audio-accounted n q c h room = omega arith

activate-accounted :
    (clock : ℕ) (frame : Bytes) (opcode : ℕ) (kind : OutputKind) (c : Client)
    → c.out ≡ none
    → accounted (websocket_activate clock frame opcode kind c) ≡ accounted c + 1
unfolding accounted websocket_activate
activate-accounted clock frame opcode kind c h = ground arith

length-tail :
    (ps : List AudioPacket) → length (tail ps) + one_if (is_some (frame? (head? ps))) ≡ length ps
length-tail [] = omega arith
length-tail (p ∷ ps) = omega arith

-- Each packet of the ring is handed over, dropped or kept.
promote_audio-balance :
    (now : ℕ) (q : AudioQueue)
    → IsValid q
    → let p = promote_audio q.count now q in p.1.count + p.2 + one_if (is_some p.0) ≡ q.count
promote_audio-balance now q v =
    let p = promote_audio q.count now q in
    let r = promote_audio_refines q.count now q v (omega arith) in
    omega (
      arith,
      r.3,
      length-packets q,
      length-packets p.1,
      ap length r.2,
      length-tail (fresh_suffix now (packets q)),
      ap (λ o. one_if (is_some o)) r.0,
    )

promote_media-accounted :
    (now clock : ℕ) (c : Client)
    → c.out ≡ none
    → IsValid c.audio_queue
    → CounterHasRoom c
    → accounted (promote_media now clock c) ≡ accounted c
unfolding promote_media count_drops
promote_media-accounted now clock c idle v room =
    let p = promote_audio c.audio_queue.count now c.audio_queue in
    let c' = after_audio p.2 p.1 c in
    let balance = promote_audio-balance now c.audio_queue v in
    let after = after_audio-accounted p.2 p.1 c (omega (arith, balance, v.count_in)) room in
    elim (Option-cases p.0) [
      | inl e ↦
          rw (e, promote_media)
            (promote_video-accounted now clock c' idle (omega (arith, balance, v.count_in))
              ∙ omega (arith, balance, after, ap (λ o. one_if (is_some o)) e))
      | inr (frame, e) ↦
          rw (e, promote_media)
            (activate-accounted clock frame 0x2 OutputKind.audio c' idle
              ∙ omega (arith, balance, after, ap (λ o. one_if (is_some o)) e))
    ]

promote_text-accounted :
    (now clock : ℕ) (c : Client)
    → c.out ≡ none
    → IsValid c.audio_queue
    → CounterHasRoom c
    → accounted (promote_text now clock c) ≡ accounted c
unfolding promote_text accounted
promote_text-accounted now clock c idle v room =
    ground (arith, promote_media-accounted now clock c idle v room)

-- Promotion loses no frame unseen: what is held and what is counted as dropped stay the same
-- together.
pub promote_next-accounted :
    (now clock : ℕ) (c : Client)
    → IsValid c.audio_queue
    → CounterHasRoom c
    → accounted (websocket_promote_next now clock c) ≡ accounted c
unfolding websocket_promote_next accounted
promote_next-accounted now clock c v room = ground (arith, promote_text-accounted now clock c)

expire_video-accounted :
    (now : ℕ) (c : Client)
    → c.dropped_packets + 1 < u64_mod
    → accounted (expire_video now c) ≡ accounted c
unfolding expire_video accounted
expire_video-accounted now c room = ground arith

-- Dropping the active frame: one frame less, one drop more.
discard_active-accounted :
    (c : Client) (a : Active)
    → c.out ≡ some a
    → c.dropped_packets + 1 < u64_mod
    → accounted (count_drops 1 (websocket_clear_active c)) ≡ accounted c
unfolding accounted count_drops websocket_clear_active
discard_active-accounted c a e room = ground arith

-- The client once the ring and the waiting video are rid of what is stale.
module _ (now : ℕ) (c : Client) (v : IsValid c.audio_queue) where
  expired : AudioQueue × ℕ
  expired = expire_audio c.audio_queue.count now c.audio_queue

  purged : Client
  purged = expire_video now (after_audio expired.1 expired.0 c)

  expired_lem : IsValid expired.0 × (expired.0.count + expired.1 ≡ c.audio_queue.count)
  unfolding expired
  expired_lem =
      let r = expire_audio_refines c.audio_queue.count now c.audio_queue v (omega arith) in
      (
        r.0,
        omega (arith, r.2, length-packets c.audio_queue, length-packets expired.0, ap length r.1),
      )

  purged-audio_queue : purged.audio_queue ≡ expired.0
  unfolding purged expire_video count_drops
  purged-audio_queue = ground arith

  purged-out : purged.out ≡ c.out
  unfolding purged expire_video count_drops
  purged-out = ground arith

  module _ (room : c.dropped_packets + 16 < u64_mod) where
    purged-dropped : purged.dropped_packets ≤ c.dropped_packets + 4
    unfolding purged expire_video count_drops
    purged-dropped = ground (arith, expired_lem.1, v.count_in)

    dropped_before : (after_audio expired.1 expired.0 c).dropped_packets + 1 < u64_mod
    unfolding count_drops
    dropped_before = omega (arith, expired_lem.1, v.count_in)

    purged-accounted : accounted purged ≡ accounted c
    unfolding purged
    purged-accounted =
        expire_video-accounted now (after_audio expired.1 expired.0 c) dropped_before
        ∙ omega (
          arith,
          after_audio-accounted expired.1 expired.0 c (omega (arith, expired_lem.1, v.count_in))
              (omega arith),
          expired_lem.1,
        )

    discarded-IsValid : IsValid (count_drops 1 (websocket_clear_active purged)).audio_queue
    unfolding count_drops websocket_clear_active
    discarded-IsValid = rw purged-audio_queue expired_lem.0

    discarded-room : CounterHasRoom (count_drops 1 (websocket_clear_active purged))
    unfolding count_drops websocket_clear_active
    discarded-room = omega (arith, purged-dropped)

active_stale-some :
    (now : ℕ) (o : Option Active) → active_stale now o ≡ true → (a : Active) × (o ≡ some a)
unfolding active_stale
active_stale-some now none h = cc
active_stale-some now (some a) h = (a, refl)

expire_stale_media_lem :
    (now clock : ℕ) (c : Client) (v : IsValid c.audio_queue)
    → websocket_expire_stale_media now clock c ≡ (
        if active_stale now (purged now c v).out
        then websocket_promote_next now clock
            (count_drops 1 (websocket_clear_active (purged now c v)))
        else purged now c v)
unfolding websocket_expire_stale_media purged expired
expire_stale_media_lem now clock c v = refl

-- With room in the drop counter, expiry loses no frame unseen: what is held and what is counted as
-- dropped stay the same together, also where the active frame is given up for the next one.
pub expire_stale_media-accounted :
    (now clock : ℕ) (c : Client)
    → IsValid c.audio_queue
    → c.dropped_packets + 16 < u64_mod
    → accounted (websocket_expire_stale_media now clock c) ≡ accounted c
expire_stale_media-accounted now clock c v room =
    let p = purged now c v in
    let few = purged-dropped now c v room in
    rw (expire_stale_media_lem now clock c v) (elim (Bool-cases (active_stale now p.out)) [
      | inl e ↦
          let (a, s) = active_stale-some now p.out e in
          rw e (
            promote_next-accounted now clock (count_drops 1 (websocket_clear_active p))
              (discarded-IsValid now c v room) (discarded-room now c v room)
            ∙ discard_active-accounted p a s (omega arith)
            ∙ purged-accounted now c v room)
      | inr e ↦ rw e (purged-accounted now c v room)
    ])
