-- ===== src/Rpc.antt =====
-- The client for the router's web interface: package/nes-emulator/src/rpc_client.c. What the peer
-- sends is a value of `Incoming`, in the pieces in which `recv` returns it; a result -1 is `err`
-- with what `errno` says, and waiting for the socket is part of `recv`.
pub mod Reader
pub mod Chunk
pub mod Response
pub mod Arguments
mod Tests
