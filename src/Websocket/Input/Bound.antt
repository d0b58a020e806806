-- ===== src/Websocket/Input/Bound.antt =====
-- The bound on a message put together from fragments.
use openwrt_nes_emulator.Base.{
  ℕ, zero, suc, ◌≤◌, ◌≡◌, ap, Bool, ◌||◌, arith, Bytes, length, ltb, length-append, Bool-cases, inl,
  inr,
}
use openwrt_nes_emulator.Websocket.Input.{
  message_max, read_frame, Session, deliver, handle_close, handle_pong, handle_text,
  handle_continuation, handle_frame, process_rounds, websocket_process,
}
use openwrt_nes_emulator.Websocket.Input.Process.{
  Read-cases, read_frame-Takes, rounds-stop, rounds-wait, rounds-fault, rounds-frame,
}

-- A message that is put together stays within `WS_MESSAGE_MAX`.
abbrev pub WithinBound : Session → Type 0
WithinBound s = length s.ws_message ≤ message_max

-- `websocket_message` reads the message and leaves its buffer alone.
abbrev pub LeavesBuffer : (Bytes → Session → Bool × Session) → Type 0
LeavesBuffer handler = (text : Bytes) (s : Session) → (handler text s).1.ws_message ≡ s.ws_message

module _ (memory : Bool) (clock : ℕ) (websocket_message : Bytes → Session → Bool × Session)
    (keeps : LeavesBuffer websocket_message) where
  ws_message-deliver :
      (text : Bytes) (s : Session)
      → (deliver memory clock websocket_message text s).ws_message ≡ s.ws_message
  unfolding deliver
  ws_message-deliver text s = ground (arith, keeps text s)

  ws_message-handle_close :
      (payload : Bytes) (s : Session)
      → (handle_close memory clock websocket_message payload s).ws_message ≡ s.ws_message
  unfolding handle_close
  ws_message-handle_close payload s = ground arith

  ws_message-handle_pong :
      (payload : Bytes) (s : Session)
      → (handle_pong memory clock websocket_message payload s).ws_message ≡ s.ws_message
  unfolding handle_pong
  ws_message-handle_pong payload s = ground arith

  module _ (fin : Bool) (payload : Bytes) (s : Session) (small : length payload ≤ message_max)
      (h : WithinBound s) where
    handle_text-WithinBound : WithinBound (handle_text memory clock websocket_message fin payload s)
    unfolding handle_text
    handle_text-WithinBound = ground (arith, ap length (ws_message-deliver payload s))

    handle_continuation-WithinBound :
        WithinBound (handle_continuation memory clock websocket_message fin payload s)
    unfolding handle_continuation
    handle_continuation-WithinBound = ground (arith, length-append s.ws_message payload)

    handle_frame-WithinBound :
        (opcode : ℕ)
        → WithinBound (handle_frame memory clock websocket_message fin opcode payload s)
    unfolding handle_frame
    handle_frame-WithinBound opcode = ground (
      arith,
      ap length (ws_message-handle_close payload s),
      ap length (ws_message-handle_pong payload s),
      handle_text-WithinBound,
      handle_continuation-WithinBound,
    )

  process_rounds-WithinBound :
      (fuel : ℕ) (s : Session)
      → WithinBound s
      → WithinBound (process_rounds memory clock websocket_message fuel s).1
  process_rounds-WithinBound zero s h = unfold process_rounds in h
  process_rounds-WithinBound (suc fuel) s h =
      elim (Bool-cases (ltb (length s.ws_in) 2 || s.client.dead)) [
        | inl stop ↦ rw (rounds-stop memory clock websocket_message fuel s stop) h
        | inr go ↦ elim (Read-cases (read_frame s.ws_in)) [
          | inl e ↦ rw (rounds-wait memory clock websocket_message fuel s go e) h
          | inr (inl (code, e)) ↦
              rw (rounds-fault memory clock websocket_message fuel s go code e) h
          | inr (inr (f, e)) ↦ rw (rounds-frame memory clock websocket_message fuel s go f e) (
              process_rounds-WithinBound fuel _ (
                handle_frame-WithinBound f.fin f.payload s (read_frame-Takes s.ws_in f e).1 h
                  f.opcode))
        ]
      ]

  -- If the handler of a message leaves the message buffer alone, the message put together from
  -- fragments stays within `WS_MESSAGE_MAX`, whatever bytes the peer sends.
  pub websocket_process-WithinBound :
      (s : Session)
      → WithinBound s
      → WithinBound (websocket_process memory clock websocket_message s).1
  unfolding websocket_process
  websocket_process-WithinBound s h = process_rounds-WithinBound (length s.ws_in) s h
