-- ===== src/Websocket/Input/Process.antt =====
-- The loop of `websocket_process`: its rounds, and where it ends.
use openwrt_nes_emulator.Base.{
  ℕ, zero, suc, ◌+◌, ◌%◌, ◌≤◌, ◌<◌, ◌≡◌, refl, ap, Bool, true, false, ◌||◌, ◌⊎◌, [], ◌∷◌, arith,
  Bytes, length, get_or, take, drop, ltb, leb, length-drop, length-take, Bool-cases, inl, inr,
}
use openwrt_nes_emulator.Websocket.Close.{websocket_protocol_error}
use openwrt_nes_emulator.Websocket.Input.{
  message_max, Header, header, partial_header, bad_header, read_length, check_length, unmask,
  InFrame, Read, incomplete, fault, frame, take_frame, read_frame, Session, handle_frame,
  process_rounds, websocket_process,
}

-- The sizes of a read: a header has at least two bytes, its payload at most 4096.
abbrev Sized : Header → Type 0
Sized (header n size) = (n ≤ message_max) × (2 ≤ size)
Sized h = Unit

read_length-Sized :
    (short : ℕ) (ws : Bytes) (n size : ℕ) → read_length short ws ≡ header n size → 2 ≤ size
unfolding read_length
read_length-Sized short ws n size e = ground arith

check_length-Sized :
    (opcode : ℕ) (fin : Bool) (h : Header) (n size : ℕ)
    → check_length opcode fin h ≡ header n size
    → (h ≡ header n size) × (n ≤ message_max)
unfolding check_length
check_length-Sized opcode fin (header m k) n size e = ground arith
check_length-Sized opcode fin partial_header n size e = cc
check_length-Sized opcode fin (bad_header c) n size e = cc

-- What a frame that is handed over takes of the buffer.
abbrev pub Takes : Bytes → InFrame → Type 0
Takes ws f = (length f.rest + 6 ≤ length ws) × (length f.payload ≤ message_max)

length-unmask : (mask : Bytes) (i : ℕ) (bs : Bytes) → length (unmask mask i bs) ≡ length bs
unfolding unmask
length-unmask mask i [] = refl
length-unmask mask i (b ∷ bs) = ap suc (length-unmask mask (i + 1) bs)

take_frame-Takes :
    (opcode : ℕ) (fin : Bool) (ws : Bytes) (n size : ℕ) (f : InFrame)
    → n ≤ message_max
    → 2 ≤ size
    → take_frame opcode fin ws (header n size) ≡ frame f
    → Takes ws f
unfolding take_frame
take_frame-Takes opcode fin ws n size f small two e = ground (
  arith,
  length-drop (size + 4 + n) ws,
  length-unmask (take 4 (drop size ws)) 0 (take n (drop (size + 4) ws)),
  length-take n (drop (size + 4) ws),
)

take_frame-cases :
    (opcode : ℕ) (fin : Bool) (ws : Bytes) (h : Header) (f : InFrame)
    → take_frame opcode fin ws h ≡ frame f
    → (n : ℕ) × (size : ℕ) × (h ≡ header n size)
unfolding take_frame
take_frame-cases opcode fin ws partial_header f e = cc
take_frame-cases opcode fin ws (bad_header c) f e = cc
take_frame-cases opcode fin ws (header n size) f e = (n, size, refl)

read_frame-take :
    (ws : Bytes) (f : InFrame)
    → read_frame ws ≡ frame f
    → let first = get_or ws 0 0 in
      take_frame
        (first % 16)
        (leb 128 first)
        ws
        (check_length (first % 16) (leb 128 first) (read_length (get_or ws 1 0 % 128) ws))
      ≡ frame f
unfolding read_frame
read_frame-take ws f e = ground arith

-- A frame taken off is at least six bytes long, and its payload is within the bound.
pub read_frame-Takes : (ws : Bytes) (f : InFrame) → read_frame ws ≡ frame f → Takes ws f
read_frame-Takes ws f e =
    let first = get_or ws 0 0 in
    let h = read_length (get_or ws 1 0 % 128) ws in
    let c = check_length (first % 16) (leb 128 first) h in
    let t = read_frame-take ws f e in
    let (n, size, is) = take_frame-cases (first % 16) (leb 128 first) ws c f t in
    let (was, small) = check_length-Sized (first % 16) (leb 128 first) h n size is in
    take_frame-Takes (first % 16) (leb 128 first) ws n size f small
      (read_length-Sized (get_or ws 1 0 % 128) ws n size was) (rw is at t)

-- Where the loop ends: with 0, for want of bytes, or since the client is dead; with -1 at a fault,
-- which leaves the buffer as it is.
pub data Ends : Bool × Session → Type 0 where
  drained : (s : Session) → length s.ws_in < 2 → Ends (true, s)
  dies : (s : Session) → s.client.dead ≡ true → Ends (true, s)
  waits : (s : Session) → read_frame s.ws_in ≡ incomplete → Ends (true, s)
  fails : (s : Session) (code : ℕ) → read_frame s.ws_in ≡ fault code → Ends (false, s)

pub Read-cases :
    (r : Read)
    → (r ≡ incomplete) ⊎ (((code : ℕ) × (r ≡ fault code)) ⊎ ((f : InFrame) × (r ≡ frame f)))
Read-cases incomplete = inl refl
Read-cases (fault code) = inr (inl (code, refl))
Read-cases (frame f) = inr (inr (f, refl))

stop-cases :
    (s : Session)
    → (ltb (length s.ws_in) 2 || s.client.dead) ≡ true
    → (length s.ws_in < 2) ⊎ (s.client.dead ≡ true)
stop-cases s h = ground arith

module _ (memory : Bool) (clock : ℕ) (websocket_message : Bytes → Session → Bool × Session) where
  module _ (fuel : ℕ) (s : Session) where
    pub rounds-stop :
        (ltb (length s.ws_in) 2 || s.client.dead) ≡ true
        → process_rounds memory clock websocket_message (suc fuel) s ≡ (true, s)
    unfolding process_rounds
    rounds-stop h = ground arith

    module _ (go : (ltb (length s.ws_in) 2 || s.client.dead) ≡ false) where
      pub rounds-wait :
          read_frame s.ws_in ≡ incomplete
          → process_rounds memory clock websocket_message (suc fuel) s ≡ (true, s)
      unfolding process_rounds
      rounds-wait e = ground arith

      pub rounds-fault :
          (code : ℕ)
          → read_frame s.ws_in ≡ fault code
          → process_rounds memory clock websocket_message (suc fuel) s
            ≡ (false, record s { client = websocket_protocol_error memory clock code s.client })
      unfolding process_rounds
      rounds-fault code e = ground arith

      pub rounds-frame :
          (f : InFrame)
          → read_frame s.ws_in ≡ frame f
          → process_rounds memory clock websocket_message (suc fuel) s
            ≡ process_rounds memory clock websocket_message fuel
                (record (handle_frame memory clock websocket_message f.fin f.opcode f.payload s) {
                  ws_in = f.rest;
                })
      unfolding process_rounds
      rounds-frame f e = ground arith

  process_rounds-Ends :
      (fuel : ℕ) (s : Session)
      → length s.ws_in ≤ fuel
      → Ends (process_rounds memory clock websocket_message fuel s)
  process_rounds-Ends zero s h = unfold process_rounds in drained s (omega arith)
  process_rounds-Ends (suc fuel) s h = elim (Bool-cases (ltb (length s.ws_in) 2 || s.client.dead)) [
    | inl stop ↦
        rw (rounds-stop fuel s stop)
          (elim (stop-cases s stop) [ inl few ↦ drained s few | inr dead ↦ dies s dead ])
    | inr go ↦ elim (Read-cases (read_frame s.ws_in)) [
      | inl e ↦ rw (rounds-wait fuel s go e) (waits s e)
      | inr (inl (code, e)) ↦ rw (rounds-fault fuel s go code e) (fails _ code e)
      | inr (inr (f, e)) ↦
          let (shorter, _) = read_frame-Takes s.ws_in f e in
          rw (rounds-frame fuel s go f e) (process_rounds-Ends fuel _ (omega arith))
    ]
  ]

  -- The loop runs to its end: it never gives up for want of rounds. It ends with the result 0 when
  -- fewer than two bytes are left, the client is dead or the next frame is not all there, and with
  -- -1 at a fault, where the faulty frame still stands in the buffer.
  pub websocket_process-Ends :
      (s : Session) → Ends (websocket_process memory clock websocket_message s)
  unfolding websocket_process
  websocket_process-Ends s = process_rounds-Ends (length s.ws_in) s (omega arith)
