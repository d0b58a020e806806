-- ===== src/Websocket/Input.antt =====
-- WebSocket frames in: `websocket_process` and `close_code_valid` of package/nes-emulator/src/http.c.
-- `ws_in` with `ws_in_len` is one list of bytes. The handler of a whole text message
-- (`websocket_message`) is an argument, as are the memory flag and the clock of the output half.
pub mod Frames
pub mod Process
pub mod Bound
mod Tests
use openwrt_nes_emulator.Base.{
  ℕ, zero, suc, ◌+◌, ◌-◌, ◌*◌, ◌/◌, ◌%◌, Bool, true, false, not, ◌&&◌, ◌||◌, List, [], ◌∷◌, ◌++◌,
  Option, none, some, Bytes, length, get_or, take, drop, bit_xor, ltb, leb, ◌==◌, if◌then◌else◌,
  u64_mod, same_bytes,
}
use openwrt_nes_emulator.Text.Utf8.{utf8_valid}
use openwrt_nes_emulator.Websocket.Output.{Client, websocket_queue}
use openwrt_nes_emulator.Websocket.Close.{
  websocket_close, websocket_protocol_error, websocket_receive_close,
}

-- The value of bytes, the most significant first.
abbrev pub load_be : ℕ → Bytes → ℕ
load_be acc [] = acc
load_be acc (b ∷ bs) = load_be (acc * 256 + b) bs

-- `WS_MESSAGE_MAX`
abbrev pub message_max : ℕ
message_max = 4096

-- What the first bytes say: more are needed, a fault with its close code, or the payload length
-- and the length of the header without the mask.
pub data Header : Type 0 where
  partial_header : Header
  bad_header : ℕ → Header
  header : ℕ → ℕ → Header

-- The payload length, from the second byte on.
unfoldable pub read_length : ℕ → Bytes → Header
read_length short ws_in =
    if short == 126
    then (let n = load_be 0 (take 2 (drop 2 ws_in)) in
        if ltb (length ws_in) 4
        then partial_header
        else if ltb n 126
        then bad_header 1002
        else header n 4)
    else if short == 127
    then (let n = load_be 0 (take 8 (drop 2 ws_in)) in
        if ltb (length ws_in) 10
        then partial_header
        else if not (get_or ws_in 2 0 / 128 % 2 == 0)
        then bad_header 1002
        else if leb n 0xffff
        then bad_header 1002
        else header n 10)
    else header short 2

-- The tests on the opcode and the length, in their order.
unfoldable pub check_length : ℕ → Bool → Header → Header
check_length opcode fin (header n size) =
    if leb 0x8 opcode && (not fin || ltb 125 n)
    then bad_header 1002
    else if ltb message_max n || ltb (u64_mod - 1 - 4) size || ltb (u64_mod - 1 - size - 4) n
    then bad_header 1009
    else header n size
check_length opcode fin h = h

-- `payload[i] ^= mask[i & 3]`, from index `i` on
unfoldable pub unmask : Bytes → ℕ → Bytes → Bytes
unmask mask i [] = []
unmask mask i (b ∷ bs) = bit_xor b (get_or mask (i % 4) 0) ∷ unmask mask (i + 1) bs

-- A frame to handle, its payload unmasked, and what follows it in the buffer.
pub record InFrame : Type 0 where
  pub fin : Bool
  pub opcode : ℕ
  pub payload : Bytes
  pub rest : Bytes

pub data Read : Type 0 where
  incomplete : Read
  fault : ℕ → Read
  frame : InFrame → Read

-- The frame behind a header that is accepted, if it is all there.
unfoldable pub take_frame : ℕ → Bool → Bytes → Header → Read
unfolding unmask
take_frame opcode fin ws_in partial_header = incomplete
take_frame opcode fin ws_in (bad_header code) = fault code
take_frame opcode fin ws_in (header n size) =
    if ltb (length ws_in) (size + 4 + n)
    then incomplete
    else frame (record {
      fin = fin;
      opcode = opcode;
      payload = unmask (take 4 (drop size ws_in)) 0 (take n (drop (size + 4) ws_in));
      rest = drop (size + 4 + n) ws_in;
    })

-- The loop's body up to the unmasked payload.
unfoldable pub read_frame : Bytes → Read
read_frame ws_in =
    let first = get_or ws_in 0 0 in
    let second = get_or ws_in 1 0 in
    if ltb (length ws_in) 2
    then incomplete
    else if not (first / 16 % 8 == 0) || ltb second 128
    then fault 1002
    else take_frame (first % 16) (leb 128 first) ws_in
        (check_length (first % 16) (leb 128 first) (read_length (second % 128) ws_in))

unfoldable pub close_code_valid : ℕ → Bool
close_code_valid code =
    if ltb code 1000
      || leb 5000 code
      || code == 1004
      || code == 1005
      || code == 1006
      || code == 1015
    then false
    else not (leb 1016 code && leb code 2999)

-- The input half of `struct client`, beside the output half.
pub record Session : Type 0 where
  pub client : Client
  pub ws_in : Bytes
  pub ws_message : Bytes
  pub ws_fragment_opcode : ℕ
  pub ping_payload : Bytes

module _ (memory : Bool) (clock : ℕ) (websocket_message : Bytes → Session → Bool × Session) where
  abbrev on_client : (Client → Client) → Session → Session
  on_client f s = record s { client = f s.client }

  abbrev close_with : ℕ → Session → Session
  close_with code = on_client (websocket_close memory clock code)

  -- A whole message: closed with 1007 unless the handler accepts it.
  unfoldable pub deliver : Bytes → Session → Session
  deliver text s =
      let (accepted, s') = websocket_message text s in if accepted then s' else close_with 1007 s'

  unfoldable pub handle_close : Bytes → Session → Session
  handle_close payload s =
      if length payload == 1
      then on_client (websocket_protocol_error memory clock 1002) s
      else if leb 2 (length payload)
      then (if not (close_code_valid (get_or payload 0 0 * 256 + get_or payload 1 0))
            || not (utf8_valid (drop 2 payload))
          then on_client (websocket_protocol_error memory clock 1002) s
          else on_client (websocket_receive_close memory clock payload) s)
      else on_client (websocket_receive_close memory clock []) s

  unfoldable pub handle_pong : Bytes → Session → Session
  handle_pong payload s =
      if s.client.ping_outstanding && length payload == 8 && same_bytes payload s.ping_payload
      then on_client (λ c. record c { ping_outstanding = false; ping_sent_ms = 0 }) s
      else s

  unfoldable pub handle_text : Bool → Bytes → Session → Session
  handle_text fin payload s =
      if not (s.ws_fragment_opcode == 0)
      then close_with 1002 s
      else if fin
      then deliver payload s
      else record s { ws_message = payload; ws_fragment_opcode = 0x1 }

  unfoldable pub handle_continuation : Bool → Bytes → Session → Session
  handle_continuation fin payload s =
      if s.ws_fragment_opcode == 0 || ltb (message_max - length s.ws_message) (length payload)
      then close_with (if s.ws_fragment_opcode == 0 then 1002 else 1009) s
      else if fin
      then (let s' =
            deliver (s.ws_message ++ payload) (record s { ws_message = s.ws_message ++ payload }) in
          record s' { ws_message = []; ws_fragment_opcode = 0 })
      else record s { ws_message = s.ws_message ++ payload }

  -- The dispatch on the opcode.
  unfoldable pub handle_frame : Bool → ℕ → Bytes → Session → Session
  handle_frame fin opcode payload s =
      if opcode == 0x8
      then handle_close payload s
      else if s.client.closing
      then s
      else if opcode == 0x9
      then on_client (λ c. (websocket_queue memory clock 0xa payload true c).1) s
      else if opcode == 0xa
      then handle_pong payload s
      else if opcode == 0x2
      then close_with 1003 s
      else if opcode == 0x1
      then handle_text fin payload s
      else if opcode == 0x0
      then handle_continuation fin payload s
      else close_with 1002 s

  -- The loop, with a round for each byte at most; the flag is the result 0.
  unfoldable pub process_rounds : ℕ → Session → Bool × Session
  process_rounds zero s = (true, s)
  process_rounds (suc fuel) s = elim (ltb (length s.ws_in) 2 || s.client.dead) [
    | true ↦ (true, s)
    | false ↦ elim (read_frame s.ws_in) [
      | incomplete ↦ (true, s)
      | fault code ↦ (false, on_client (websocket_protocol_error memory clock code) s)
      | frame f ↦
          process_rounds fuel (record (handle_frame f.fin f.opcode f.payload s) { ws_in = f.rest })
    ]
  ]

  unfoldable pub websocket_process : Session → Bool × Session
  unfolding process_rounds
  websocket_process s = process_rounds (length s.ws_in) s
