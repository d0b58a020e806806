-- ===== src/Websocket.antt =====
-- The WebSocket half of package/nes-emulator/src/http.c: frames out, the bounded output slots of a
-- client, what is sent next, the closing handshake, and frames in.
pub mod Frame
pub mod Audio
pub mod Output
pub mod Schedule
pub mod Flush
pub mod Close
pub mod Input
mod Tests
