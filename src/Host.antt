-- ===== src/Host.antt =====
-- The emulation host of package/nes-emulator/src/host.c: what the core hands over to the network.
pub mod Audio
mod Tests
