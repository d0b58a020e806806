-- ===== src/Inputs.antt =====
-- The buttons that the viewers press: `recompute_inputs`, `expire_input_leases` and the effect of
-- `apply_input_json` of package/nes-emulator/src/http.c, and `host_set_joy_mask` of host.c. A mask is
-- 16 bits wide, and has a bit for each button.
pub mod Buttons
pub mod Leases
mod Tests
use openwrt_nes_emulator.Base.{
  ℕ, zero, suc, ◌+◌, ◌-◌, ◌%◌, ◌/◌, ◌^◌, Bool, true, false, not, ◌&&◌, ◌||◌, List, [], ◌∷◌, Option,
  none, some, ltb, leb, ◌==◌, if◌then◌else◌, sub64, bit_or, bit_and,
}

-- `WS_INPUT_LEASE_MS` and `NES_JOY_BITS`
abbrev pub lease_ms : ℕ
lease_ms = 3500

abbrev pub joy_bits : ℕ
joy_bits = 16

-- The part of `struct client` that these functions use; `connected` says that `fd >= 0`.
pub record Viewer : Type 0 where
  pub connected : Bool
  pub dead : Bool
  pub closing : Bool
  pub is_websocket : Bool
  pub joy0 : ℕ
  pub joy1 : ℕ
  pub last_input_ms : ℕ

-- The masks of both ports.
pub record Joys : Type 0 where
  pub port0 : ℕ
  pub port1 : ℕ

abbrev pub is_playing : Viewer → Bool
is_playing c = c.connected && not c.dead && not c.closing && c.is_websocket

-- The loop, with the masks put together before.
unfoldable pub gather : Joys → List Viewer → Joys
gather masks [] = masks
gather masks (c ∷ clients) =
    gather
      (if is_playing c
        then record { port0 = bit_or masks.port0 c.joy0; port1 = bit_or masks.port1 c.joy1 }
        else masks)
      clients

-- A port that differs is set.
unfoldable pub set_ports : Joys → Joys → Joys
set_ports masks host =
    let host0 = if host.port0 == masks.port0 then host else record host { port0 = masks.port0 } in
    if host0.port1 == masks.port1 then host0 else record host0 { port1 = masks.port1 }

unfoldable pub recompute_inputs : List Viewer → Joys → Joys
unfolding gather set_ports
recompute_inputs clients host = set_ports (gather (record { port0 = 0; port1 = 0 }) clients) host

-- The clients that the loop of `expire_input_leases` passes over.
abbrev pub keeps : ℕ → Viewer → Bool
keeps now c =
    not c.connected
    || c.dead
    || c.closing
    || not c.is_websocket
    || (c.joy0 == 0 && c.joy1 == 0)
    || ltb (sub64 now c.last_input_ms) lease_ms

-- The clients with the flag that says whether one changed.
unfoldable pub expire_input_leases : ℕ → List Viewer → Bool × List Viewer
expire_input_leases now [] = (false, [])
expire_input_leases now (c ∷ clients) =
    let (changed, rest) = expire_input_leases now clients in
    if keeps now c then (changed, c ∷ rest) else (true, record c { joy0 = 0; joy1 = 0 } ∷ rest)

-- What the event loop does with leases before it waits.
unfoldable pub expire_round : ℕ → List Viewer → Joys → List Viewer × Joys
unfolding expire_input_leases recompute_inputs
expire_round now clients host =
    let (changed, clients') = expire_input_leases now clients in
    (clients', if changed then recompute_inputs clients' host else host)
