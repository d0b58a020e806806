-- ===== src/Text.antt =====
-- The text routines of package/nes-emulator/src/http.c and host.c.
pub mod Utf8
pub mod Buffer
mod Tests
