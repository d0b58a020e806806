-- ===== src/Websocket/Close.antt =====
-- The closing handshake of package/nes-emulator/src/http.c.
pub mod Drain
use openwrt_nes_emulator.Base.{ℕ, ◌/◌, ◌%◌, Bool, true, false, List, [], ◌∷◌, Bytes, if◌then◌else◌}
use openwrt_nes_emulator.Websocket.Output.{Client, Queued, queued, failed, refused, websocket_queue}

abbrev dead_unless_queued : Queued → Client → Client
dead_unless_queued queued c = c
dead_unless_queued _ c = record c { dead = true }

unfoldable pub websocket_close : Bool → ℕ → ℕ → Client → Client
unfolding websocket_queue
websocket_close memory clock code c =
    let (result, c') =
      websocket_queue memory clock 0x8 (code / 256 % 256 ∷ code % 256 ∷ []) true
        (record c { closing = true }) in
    if c.closing then c else dead_unless_queued result c'

-- The result -1 is the same on both branches.
unfoldable pub websocket_protocol_error : Bool → ℕ → ℕ → Client → Client
unfolding websocket_close
websocket_protocol_error memory clock code c =
    if c.closing then record c { dead = true } else websocket_close memory clock code c

unfoldable pub websocket_receive_close : Bool → ℕ → Bytes → Client → Client
unfolding websocket_queue
websocket_receive_close memory clock payload c =
    let (result, c') =
      websocket_queue memory clock 0x8 payload true
        (record c { close_frame_received = true; closing = true }) in
    if c.closing then record c { close_frame_received = true } else dead_unless_queued result c'
