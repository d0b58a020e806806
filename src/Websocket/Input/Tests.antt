-- ===== src/Websocket/Input/Tests.antt =====
-- Runs of the input loop at small buffers, and the theorems at sessions that they apply to.
use openwrt_nes_emulator.Base.{◌≡◌, refl, true, false, Bool, [], ◌∷◌, ◌++◌, none, arith, Bytes}
use openwrt_nes_emulator.Websocket.Audio.{blank}
use openwrt_nes_emulator.Websocket.Output.{Client}
use openwrt_nes_emulator.Websocket.Input.{frame, read_frame, Session, websocket_process}
use openwrt_nes_emulator.Websocket.Input.Frames.{MaskingKey, client_frame, read_frame-client_frame}
use openwrt_nes_emulator.Websocket.Input.Process.{Ends, websocket_process-Ends}
use openwrt_nes_emulator.Websocket.Input.Bound.{WithinBound, websocket_process-WithinBound}

abbrev key : MaskingKey
key = record { k0 = 17; k1 = 34; k2 = 51; k3 = 68 }

abbrev quiet : Client
quiet = record {
  dead = false;
  closing = false;
  close_frame_sent = false;
  close_frame_received = false;
  close_deadline_ms = 0;
  ping_queued = false;
  ping_outstanding = false;
  ping_sent_ms = 0;
  last_ping_ms = 0;
  out = none;
  control_out = none;
  status_out = none;
  heartbeat_out = none;
  audio_queue = record { slots = blank ∷ blank ∷ blank ∷ []; head = 0; count = 0; duration = 0 };
  video_out = none;
  dropped_packets = 0;
}

-- The first fragment of a text, then half a frame.
abbrev talking : Session
talking = record {
  client = quiet;
  ws_in = 0x01 ∷ 0x82 ∷ 1 ∷ 2 ∷ 3 ∷ 4 ∷ 96 ∷ 96 ∷ 0x80 ∷ 0x81 ∷ [];
  ws_message = [];
  ws_fragment_opcode = 0;
  ping_payload = [];
}

abbrev accept_all : Bytes → Session → Bool × Session
accept_all text s = (true, s)

read_frame-client_frame_example :
    read_frame (client_frame true 0x9 key (1 ∷ 200 ∷ []) ++ (0x81 ∷ []))
    ≡ frame (record { fin = true; opcode = 0x9; payload = 1 ∷ 200 ∷ []; rest = 0x81 ∷ [] })
read_frame-client_frame_example =
    read_frame-client_frame true 0x9 key (1 ∷ 200 ∷ []) (0x81 ∷ []) (omega arith) (omega arith) refl
      (omega arith) (omega arith)

websocket_process-Ends_example : Ends (websocket_process true 9 accept_all talking)
websocket_process-Ends_example = websocket_process-Ends true 9 accept_all talking

websocket_process-WithinBound_example : WithinBound (websocket_process true 9 accept_all talking).1
websocket_process-WithinBound_example =
    websocket_process-WithinBound true 9 accept_all (λ text s. refl) talking (omega arith)
