-- ===== src/Websocket/Flush/Stream.antt =====
-- The bytes that `websocket_flush` hands to the kernel, beside the frames that it makes active.
use mathlib.Core.List.{append_assoc, append-nil}
use openwrt_nes_emulator.Base.{
  if◌then◌else◌, ℕ, zero, suc, ◌+◌, ◌-◌, ◌≤◌, ◌≡◌, refl, sym, ◌∙◌, ap, Bool, true, false, ◌⊎◌, inl,
  inr, List, [], ◌∷◌, ◌++◌, Option, none, some, arith, Bytes, length, ltb, ◌==◌, Bool-cases,
  Option-cases, take, drop, length-append, length-take, take-append-drop, drop-drop, drop-nil,
}
use openwrt_nes_emulator.Websocket.Output.{Active, Client, websocket_clear_active}
use openwrt_nes_emulator.Websocket.Schedule.{
  websocket_promote_next, promote_text, promote_media, promote_video,
}
use openwrt_nes_emulator.Websocket.Flush.{
  Socket, IsHonest, Round, SendResult, sent, interrupted, would_block, broken, Flushed,
  flush_rounds, websocket_flush, flush_bytes, flush_syscalls, advance, note_ping, note_close,
  wanted, prefix_wire,
}

-- What is still to be sent of the active frame.
abbrev pub unsent_part : Option Active → Bytes
unsent_part none = []
unsent_part (some a) = drop a.off a.frame

-- No more of the active frame is sent than there is.
abbrev pub InFrame : Option Active → Type 0
InFrame none = Unit
InFrame (some a) = a.off ≤ length a.frame

abbrev pub concat : List Bytes → Bytes
concat [] = []
concat (f ∷ fs) = f ++ concat fs

-- A promoted frame starts at its first byte.
abbrev Starts : Option Active → Type 0
Starts none = Unit
Starts (some a) = a.off ≡ 0

promote_next-Starts :
    (now clock : ℕ) (c : Client) → c.out ≡ none → Starts (websocket_promote_next now clock c).out
unfolding websocket_promote_next promote_text promote_media promote_video
promote_next-Starts now clock c idle = ground arith

-- The frame that a promotion has made active, as a list of frames.
abbrev pub begun : Option Active → List Bytes
begun none = []
begun (some a) = a.frame ∷ []

begun_lem : (o : Option Active) → Starts o → (unsent_part o ≡ concat (begun o)) × InFrame o
begun_lem none h = (refl, tt)
begun_lem (some a) h = (rw h (sym (append-nil a.frame)), omega arith)

-- The frame that a `send` of `n` bytes makes active: none while the frame before is not all sent.
unfoldable pub begun_by : Round → Active → ℕ → Client → List Bytes
begun_by r a n c = if ltb (a.off + n) (length a.frame) then [] else begun (advance r a n c).out

-- The frames that the rounds of a flush make active, in the order in which they become so.
unfoldable pub activated_frames : ℕ → ℕ → ℕ → Socket → Client → List Bytes
activated_frames zero i bytes env c = []
activated_frames (suc budget) i bytes env c = elim c.out [
  | none ↦ []
  | some a ↦ elim (bytes == 0) [
    | true ↦ []
    | false ↦ elim ((env i (wanted bytes a)).result) [
      | sent n ↦
          begun_by (env i (wanted bytes a)) a n c
          ++ activated_frames budget (i + 1) (bytes - n) env
              (advance (env i (wanted bytes a)) a n c)
      | interrupted ↦ activated_frames budget (i + 1) bytes env c
      | would_block ↦ []
      | broken ↦ []
    ]
  ]
]

advance_partial :
    (r : Round) (a : Active) (n : ℕ) (c : Client)
    → ltb (a.off + n) (length a.frame) ≡ true
    → (advance r a n c).out ≡ some (record a { off = a.off + n; progress_ms = r.progressed_at })
unfolding advance
advance_partial r a n c h = rw h refl

advance_whole :
    (r : Round) (a : Active) (n : ℕ) (c : Client)
    → ltb (a.off + n) (length a.frame) ≡ false
    → Starts (advance r a n c).out
unfolding advance note_close note_ping websocket_clear_active
advance_whole r a n c h = rw h (
    promote_next-Starts r.progressed_at r.activated_at
      (note_close r.progressed_at a.opcode (
        websocket_clear_active (record (note_ping r.progressed_at a c) {
          out = some (record a { off = a.off + n; progress_ms = r.progressed_at });
        })))
      (ground arith))

drop_all : (n : ℕ) (xs : Bytes) → length xs ≤ n → drop n xs ≡ []
drop_all n [] h = drop-nil n
drop_all zero (x ∷ xs) h = absurd (omega arith)
drop_all (suc n) (x ∷ xs) h = drop_all n xs (omega arith)

-- One `send`: the bytes taken and what is then still to be sent make up what was to be sent before,
-- and the frames begun since.
advance_stream :
    (r : Round) (a : Active) (n : ℕ) (c : Client)
    → a.off + n ≤ length a.frame
    → (take n (drop a.off a.frame) ++ unsent_part (advance r a n c).out
        ≡ drop a.off a.frame ++ concat (begun_by r a n c))
      × InFrame (advance r a n c).out
unfolding begun_by
advance_stream r a n c h = elim (Bool-cases (ltb (a.off + n) (length a.frame))) [
  | inl e ↦ rw e (
      rw (advance_partial r a n c e) (
        ap (λ t. take n (drop a.off a.frame) ++ t) (sym (drop-drop n a.off a.frame))
            ∙ take-append-drop n (drop a.off a.frame)
            ∙ sym (append-nil (drop a.off a.frame)),
        omega arith,
      ))
  | inr e ↦
      let o = (advance r a n c).out in
      let fresh = begun_lem o (advance_whole r a n c e) in
      let all : take n (drop a.off a.frame) ≡ drop a.off a.frame =
        sym (append-nil (take n (drop a.off a.frame)))
        ∙ ap (λ t. take n (drop a.off a.frame) ++ t)
            (sym (drop-drop n a.off a.frame ∙ drop_all (a.off + n) a.frame (ground arith)))
        ∙ take-append-drop n (drop a.off a.frame) in
      rw e (rw (all, fresh.0) refl, fresh.1)
]

concat-append : (fs gs : List Bytes) → concat (fs ++ gs) ≡ concat fs ++ concat gs
concat-append [] gs = refl
concat-append (f ∷ fs) gs =
    ap (λ t. f ++ t) (concat-append fs gs) ∙ sym (append_assoc f (concat fs) (concat gs))

-- The bytes sent, and what is then left of the active frame, are what was left of it before, and
-- these frames behind it.
abbrev pub Streams : Client → Flushed → List Bytes → Type 0
Streams c r fs = r.wire ++ unsent_part r.client.out ≡ unsent_part c.out ++ concat fs

-- One more `send` in front.
sent_before :
    (c : Client) (a : Active) (w : Bytes) (c' : Client) (r : Flushed) (fs gs : List Bytes)
    → c.out ≡ some a
    → w ++ unsent_part c'.out ≡ drop a.off a.frame ++ concat fs
    → Streams c' r gs
    → Streams c (record { fine = r.fine; client = r.client; wire = w ++ r.wire }) (fs ++ gs)
sent_before c a w c' r fs gs e h k =
    append_assoc w r.wire (unsent_part r.client.out)
    ∙ ap (λ t. w ++ t) k
    ∙ sym (append_assoc w (unsent_part c'.out) (concat gs))
    ∙ ap (λ t. t ++ concat gs) h
    ∙ append_assoc (drop a.off a.frame) (concat fs) (concat gs)
    ∙ rw (e, concat-append fs gs) refl

-- What the rounds do is claimed of these frames.
abbrev Bounded : ℕ → Client → Flushed → List Bytes → Type 0
Bounded bytes c r fs = Streams c r fs × (length r.wire ≤ bytes)

stopped :
    (bytes : ℕ) (c : Client) (fine : Bool)
    → Bounded bytes c (record { fine = fine; client = c; wire = [] }) []
stopped bytes c fine = (sym (append-nil (unsent_part c.out)), omega arith)

module _ (budget i bytes : ℕ) (env : Socket) (c : Client) where
  flush_idle :
      c.out ≡ none
      → (flush_rounds (suc budget) i bytes env c ≡ record { fine = true; client = c; wire = [] })
        × (activated_frames (suc budget) i bytes env c ≡ [])
  unfolding flush_rounds activated_frames
  flush_idle h = (ground arith, ground arith)

  flush_spent :
      (bytes == 0) ≡ true
      → (flush_rounds (suc budget) i bytes env c ≡ record { fine = true; client = c; wire = [] })
        × (activated_frames (suc budget) i bytes env c ≡ [])
  unfolding flush_rounds activated_frames
  flush_spent h = (ground arith, ground arith)

  module _ (a : Active) (active : c.out ≡ some a) (left : (bytes == 0) ≡ false) where
    flush_sent :
        (n : ℕ)
        → (env i (wanted bytes a)).result ≡ sent n
        → (flush_rounds (suc budget) i bytes env c
            ≡ prefix_wire (take n (drop a.off a.frame)) (
                flush_rounds budget
                  (i + 1)
                  (bytes - n)
                  env
                  (advance (env i (wanted bytes a)) a n c)))
          × (activated_frames (suc budget) i bytes env c
              ≡ begun_by (env i (wanted bytes a)) a n c
                ++ activated_frames budget
                    (i + 1)
                    (bytes - n)
                    env
                    (advance (env i (wanted bytes a)) a n c))
    unfolding flush_rounds activated_frames
    flush_sent n h = (ground arith, ground arith)

    flush_interrupted :
        (env i (wanted bytes a)).result ≡ interrupted
        → (flush_rounds (suc budget) i bytes env c ≡ flush_rounds budget (i + 1) bytes env c)
          × (activated_frames (suc budget) i bytes env c
              ≡ activated_frames budget (i + 1) bytes env c)
    unfolding flush_rounds activated_frames
    flush_interrupted h = (ground arith, ground arith)

    flush_stopped :
        ((env i (wanted bytes a)).result ≡ would_block) ⊎ ((env i (wanted bytes a)).result ≡ broken)
        → (fine : Bool) × (flush_rounds (suc budget) i bytes env c
            ≡ record { fine = fine; client = c; wire = [] })
          × (activated_frames (suc budget) i bytes env c ≡ [])
    unfolding flush_rounds activated_frames
    flush_stopped (inl h) = (true, ground arith, ground arith)
    flush_stopped (inr h) = (false, ground arith, ground arith)

SendResult-cases :
    (s : SendResult)
    → ((n : ℕ) × (s ≡ sent n)) ⊎ (s ≡ interrupted) ⊎ ((s ≡ would_block) ⊎ (s ≡ broken))
SendResult-cases (sent n) = inl (n, refl)
SendResult-cases interrupted = inr (inl refl)
SendResult-cases would_block = inr (inr (inl refl))
SendResult-cases broken = inr (inr (inr refl))

-- A successful `send` in front of the rounds that follow.
one_more :
    (bytes : ℕ) (env : Socket) (i : ℕ) (c : Client) (a : Active) (n : ℕ)
    → c.out ≡ some a
    → InFrame (some a)
    → IsHonest env
    → (env i (wanted bytes a)).result ≡ sent n
    → (later : Flushed) (gs : List Bytes)
    → (InFrame (advance (env i (wanted bytes a)) a n c).out
        → Bounded (bytes - n) (advance (env i (wanted bytes a)) a n c) later gs)
    → Bounded bytes c
        (prefix_wire (take n (drop a.off a.frame)) later)
        (begun_by (env i (wanted bytes a)) a n c ++ gs)
one_more bytes env i c a n e inside honest h later gs k =
    let r = env i (wanted bytes a) in
    let (_, fits) = honest i (wanted bytes a) n h in
    let (stream, next) = advance_stream r a n c (omega arith) in
    let (streams, short) = k next in
    (
      sent_before c a (take n (drop a.off a.frame)) (advance r a n c) later (begun_by r a n c) gs e
          stream streams,
      omega (
        arith,
        short,
        length-append (take n (drop a.off a.frame)) later.wire,
        length-take n (drop a.off a.frame),
      ),
    )

flush_rounds_stream :
    (budget i bytes : ℕ) (env : Socket) (c : Client)
    → IsHonest env
    → InFrame c.out
    → Bounded bytes c (flush_rounds budget i bytes env c) (activated_frames budget i bytes env c)
unfolding flush_rounds activated_frames
flush_rounds_stream zero i bytes env c honest inside = stopped bytes c true
flush_rounds_stream (suc budget) i bytes env c honest inside = elim (Option-cases c.out) [
  | inl idle ↦
      let (run, begun_now) = flush_idle budget i bytes env c idle in
      rw (run, begun_now) (stopped bytes c true)
  | inr (a, e) ↦ elim (Bool-cases (bytes == 0)) [
    | inl z ↦
        let (run, begun_now) = flush_spent budget i bytes env c z in
        rw (run, begun_now) (stopped bytes c true)
    | inr l ↦ elim (SendResult-cases (env i (wanted bytes a)).result) [
      | inl (n, h) ↦
          let (run, begun_now) = flush_sent budget i bytes env c a e l n h in
          rw (run, begun_now)
            (one_more bytes env i c a n e (rw e at inside) honest h
              (flush_rounds budget (i + 1) (bytes - n) env (advance (env i (wanted bytes a)) a n c))
              (activated_frames budget (i + 1) (bytes - n) env
                (advance (env i (wanted bytes a)) a n c))
              (λ k.
                flush_rounds_stream budget (i + 1) (bytes - n) env
                  (advance (env i (wanted bytes a)) a n c) honest k))
      | inr (inl h) ↦
          let (run, begun_now) = flush_interrupted budget i bytes env c a e l h in
          rw (run, begun_now) (flush_rounds_stream budget (i + 1) bytes env c honest inside)
      | inr (inr h) ↦
          let (fine, run, begun_now) = flush_stopped budget i bytes env c a e l h in
          rw (run, begun_now) (stopped bytes c fine)
    ]
  ]
]

-- The socket being honest, and no more sent of the active frame than there is, a flush hands at
-- most its byte budget to the kernel; and the bytes that it hands over, with what is then left of
-- the active frame, are what was left of the active frame before, followed by the frames that the
-- flush made active, each whole, once and in the order in which they became active.
pub flush_stream :
    (env : Socket) (c : Client)
    → IsHonest env
    → InFrame c.out
    → Streams c (websocket_flush env c) (activated_frames flush_syscalls 0 flush_bytes env c)
      × (length (websocket_flush env c).wire ≤ flush_bytes)
unfolding websocket_flush
flush_stream env c honest inside =
    flush_rounds_stream flush_syscalls 0 flush_bytes env c honest inside
