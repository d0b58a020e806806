-- ===== src/Inputs/Tests.antt =====
-- The theorem on leases with two viewers, one of whom went silent.
use openwrt_nes_emulator.Base.{ℕ, ◌≡◌, Bool, true, false, List, [], ◌∷◌}
use openwrt_nes_emulator.Inputs.{Viewer, Joys, recompute_inputs, expire_round}
use openwrt_nes_emulator.Inputs.Buttons.{button}
use openwrt_nes_emulator.Inputs.Leases.{
  mask_of, any, holds, InStep, recompute_inputs-InStep, expire_round-InStep,
}

abbrev viewer_at : ℕ → ℕ → Viewer
viewer_at mask heard = record {
  connected = true;
  dead = false;
  closing = false;
  is_websocket = true;
  joy0 = mask;
  joy1 = 0;
  last_input_ms = heard;
}

abbrev two_viewers : List Viewer
two_viewers = viewer_at 128 1000 ∷ viewer_at 1 9000 ∷ []

abbrev pressed : Joys
pressed = recompute_inputs two_viewers (record { port0 = 0; port1 = 0 })

expire_round-InStep_example :
    InStep (expire_round 10000 two_viewers pressed).0 (expire_round 10000 two_viewers pressed).1
    × ((second : Bool) (k : ℕ)
        → button (mask_of second (expire_round 10000 two_viewers pressed).1) k
          ≡ any (holds second k 10000) two_viewers)
expire_round-InStep_example =
    expire_round-InStep 10000 two_viewers pressed
      (recompute_inputs-InStep two_viewers (record { port0 = 0; port1 = 0 }))
