-- ===== src/Inputs/Leases.antt =====
-- Which buttons are pressed in the host.
use openwrt_nes_emulator.Base.{
  and_true, and_false, ℕ, ◌≡◌, refl, ap, ap₂, sym, ◌∙◌, Bool, true, false, not, ◌&&◌, ◌||◌, List,
  [], ◌∷◌, ltb, ◌==◌, if◌then◌else◌, sub64, bit_or, Bool-cases, inl, inr, ==_iff, and_split,
}
use openwrt_nes_emulator.Inputs.{
  Viewer, Joys, is_playing, lease_ms, keeps, gather, set_ports, recompute_inputs,
  expire_input_leases, expire_round,
}
use openwrt_nes_emulator.Inputs.Buttons.{button, button-zero, button-bit_or}

-- The mask of a port, the first or the second.
abbrev pub mask_of : Bool → Joys → ℕ
mask_of second masks = if second then masks.port1 else masks.port0

abbrev pub joy_of : Bool → Viewer → ℕ
joy_of second c = if second then c.joy1 else c.joy0

-- A playing client that holds the button.
abbrev pub presses : Bool → ℕ → Viewer → Bool
presses second k c = is_playing c && button (joy_of second c) k

abbrev pub any : (Viewer → Bool) → List Viewer → Bool
any test [] = false
any test (c ∷ clients) = test c || any test clients

or_assoc : (a b c : Bool) → ((a || b) || c) ≡ (a || (b || c))
or_assoc true b c = refl
or_assoc false b c = refl

or_false : (a : Bool) → (a || false) ≡ a
or_false true = refl
or_false false = refl

both_masks :
    (second : Bool) (k : ℕ) (masks : Joys) (c : Viewer)
    → button
        (mask_of second
          (record { port0 = bit_or masks.port0 c.joy0; port1 = bit_or masks.port1 c.joy1 }))
        k
      ≡ (button (mask_of second masks) k || button (joy_of second c) k)
both_masks true k masks c = button-bit_or masks.port1 c.joy1 k
both_masks false k masks c = button-bit_or masks.port0 c.joy0 k

gather-any :
    (second : Bool) (k : ℕ) (masks : Joys) (clients : List Viewer)
    → button (mask_of second (gather masks clients)) k
      ≡ (button (mask_of second masks) k || any (presses second k) clients)
unfolding gather
gather-any second k masks [] = sym (or_false (button (mask_of second masks) k))
gather-any second k masks (c ∷ clients) = elim (Bool-cases (is_playing c)) [
  | inl e ↦
      let masks' : Joys = record {
        port0 = bit_or masks.port0 c.joy0;
        port1 = bit_or masks.port1 c.joy1;
      } in
      rw (gather, e)
        (gather-any second k masks' clients
          ∙ ap (λ b. b || any (presses second k) clients) (both_masks second k masks c)
          ∙ or_assoc (button (mask_of second masks) k) (button (joy_of second c) k)
              (any (presses second k) clients))
  | inr e ↦ rw (gather, e) (gather-any second k masks clients)
]

same :
    (second : Bool) (a b : Joys)
    → a.port0 ≡ b.port0
    → a.port1 ≡ b.port1
    → mask_of second a ≡ mask_of second b
same true a b p q = q
same false a b p q = p

zero_mask :
    (second : Bool) (k : ℕ) → button (mask_of second (record { port0 = 0; port1 = 0 })) k ≡ false
zero_mask true k = button-zero k
zero_mask false k = button-zero k

set_ports_lem :
    (second : Bool) (masks host : Joys)
    → mask_of second (set_ports masks host) ≡ mask_of second masks
unfolding set_ports
set_ports_lem second masks host = elim (Bool-cases (host.port0 == masks.port0)) [
  | inl e0 ↦ elim (Bool-cases (host.port1 == masks.port1)) [
    | inl e1 ↦
        rw (e0, e1)
          (same second _ masks ((==_iff host.port0 masks.port0).0 e0)
            ((==_iff host.port1 masks.port1).0 e1))
    | inr e1 ↦ rw (e0, e1) (same second _ masks ((==_iff host.port0 masks.port0).0 e0) refl)
  ]
  | inr e0 ↦ elim (Bool-cases (host.port1 == masks.port1)) [
    | inl e1 ↦ rw (e0, e1) (same second _ masks refl ((==_iff host.port1 masks.port1).0 e1))
    | inr e1 ↦ rw (e0, e1) (same second _ masks refl refl)
  ]
]

-- The host's masks are those that the clients hold.
abbrev pub InStep : List Viewer → Joys → Type 0
InStep clients host =
    (second : Bool) (k : ℕ) → button (mask_of second host) k ≡ any (presses second k) clients

-- Whatever the masks were, after `recompute_inputs` a button of the host is pressed exactly if a
-- client that plays holds it.
pub recompute_inputs-InStep :
    (clients : List Viewer) (host : Joys) → InStep clients (recompute_inputs clients host)
unfolding recompute_inputs
recompute_inputs-InStep clients host second k =
    let none_yet : Joys = record { port0 = 0; port1 = 0 } in
    ap (λ m. button m k) (set_ports_lem second (gather none_yet clients) host)
    ∙ gather-any second k none_yet clients
    ∙ ap (λ b. b || any (presses second k) clients) (zero_mask second k)

-- Heard of less than 3500 ms ago.
abbrev pub is_fresh : ℕ → Viewer → Bool
is_fresh now c = ltb (sub64 now c.last_input_ms) lease_ms

abbrev pub holds : Bool → ℕ → ℕ → Viewer → Bool
holds second k now c = presses second k c && is_fresh now c

or_right : (a b : Bool) → a || b ≡ false → b ≡ false
or_right true b e = cc
or_right false b e = e

released_port :
    (second : Bool) (k : ℕ) (c : Viewer)
    → c.joy0 ≡ 0
    → c.joy1 ≡ 0
    → button (joy_of second c) k ≡ false
released_port true k c p q = ap (λ m. button m k) q ∙ button-zero k
released_port false k c p q = ap (λ m. button m k) p ∙ button-zero k

-- The tests of a client one by one; `idle` says that it holds nothing.
passed_case :
    (connected dead closing websocket idle fresh pressed : Bool)
    → not connected || dead || closing || not websocket || idle || fresh ≡ true
    → (idle ≡ true → pressed ≡ false)
    → (connected && not dead && not closing && websocket && pressed)
      ≡ (connected && not dead && not closing && websocket && pressed && fresh)
passed_case connected dead closing websocket idle true pressed e h =
    sym (and_true (connected && not dead && not closing && websocket && pressed))
passed_case false dead closing websocket idle false pressed e h = refl
passed_case true true closing websocket idle false pressed e h = refl
passed_case true false true websocket idle false pressed e h = refl
passed_case true false false false idle false pressed e h = refl
passed_case true false false true true false pressed e h = rw (h refl) refl
passed_case true false false true false false pressed e h = cc

-- A client that is passed over presses what it holds.
passed :
    (second : Bool) (k now : ℕ) (c : Viewer)
    → keeps now c ≡ true
    → presses second k c ≡ holds second k now c
passed second k now c e =
    passed_case c.connected c.dead c.closing c.is_websocket (c.joy0 == 0 && c.joy1 == 0)
      (is_fresh now c) (button (joy_of second c) k) e
      (λ z.
        let (z0, z1) = and_split (c.joy0 == 0) (c.joy1 == 0) z in
        released_port second k c ((==_iff c.joy0 0).0 z0) ((==_iff c.joy1 0).0 z1))

-- One that is not holds nothing any more, and pressed nothing that counts.
released :
    (second : Bool) (k now : ℕ) (c : Viewer)
    → keeps now c ≡ false
    → (presses second k (record c { joy0 = 0; joy1 = 0 }) ≡ false) × (holds second k now c ≡ false)
released second k now c e =
    let stale : is_fresh now c ≡ false = or_right _ (is_fresh now c) e in
    let none_held = released_port second k (record c { joy0 = 0; joy1 = 0 }) refl refl in
    (
      ap (λ b. is_playing c && b) none_held ∙ and_false (is_playing c),
      ap (λ b. presses second k c && b) stale ∙ and_false (presses second k c),
    )

expired-any :
    (second : Bool) (k now : ℕ) (clients : List Viewer)
    → any (presses second k) (expire_input_leases now clients).1 ≡ any (holds second k now) clients
unfolding expire_input_leases
expired-any second k now [] = refl
expired-any second k now (c ∷ clients) = elim (Bool-cases (keeps now c)) [
  | inl e ↦ rw e (ap₂ ◌||◌ (passed second k now c e) (expired-any second k now clients))
  | inr e ↦
      let (gone, stale) = released second k now c e in
      rw e (ap₂ ◌||◌ (gone ∙ sym stale) (expired-any second k now clients))
]

unchanged :
    (now : ℕ) (clients : List Viewer)
    → (expire_input_leases now clients).0 ≡ false
    → (expire_input_leases now clients).1 ≡ clients
unfolding expire_input_leases
unchanged now [] e = refl
unchanged now (c ∷ clients) e = elim (Bool-cases (keeps now c)) [
  | inl k ↦ rw k (ap (λ t. c ∷ t) (unchanged now clients (rw k at e)))
  | inr k ↦ let changed : true ≡ false = rw (expire_input_leases, k) at e in cc
]

-- If the host is in step with its clients, it is so after the leases were looked at: a button of the
-- host is then pressed exactly if a client that plays holds it and was heard of less than 3500 ms
-- ago, on either port.
pub expire_round-InStep :
    (now : ℕ) (clients : List Viewer) (host : Joys)
    → InStep clients host
    → InStep (expire_round now clients host).0 (expire_round now clients host).1
      × ((second : Bool) (k : ℕ)
          → button (mask_of second (expire_round now clients host).1) k
            ≡ any (holds second k now) clients)
unfolding expire_round
expire_round-InStep now clients host h = elim (Bool-cases (expire_input_leases now clients).0) [
  | inl e ↦
      let step = recompute_inputs-InStep (expire_input_leases now clients).1 host in
      rw e (step, λ second k. step second k ∙ expired-any second k now clients)
  | inr e ↦
      let same = unchanged now clients e in
      let step : InStep (expire_input_leases now clients).1 host =
        λ second k. h second k ∙ ap (any (presses second k)) (sym same) in
      rw e (step, λ second k. step second k ∙ expired-any second k now clients)
]
