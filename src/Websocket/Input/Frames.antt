-- ===== src/Websocket/Input/Frames.antt =====
-- A client's frames, as RFC 6455 (sections 5.2 and 5.3) writes them, beside `read_frame`.
use openwrt_nes_emulator.Base.{
  ℕ, zero, suc, ◌+◌, ◌/◌, ◌%◌, ◌≤◌, ◌<◌, ◌≡◌, refl, sym, ap, ap₂, ◌∙◌, Bool, true, false, not, ◌&&◌,
  ◌||◌, [], ◌∷◌, ◌++◌, arith, All, Bytes, length, get_or, take, drop, bit_xor, bit_xor_twice, ltb,
  leb, ◌==◌, if◌then◌else◌, drop-drop, take-append, drop-append, length-append, Bool-cases, inl,
  inr,
}
use openwrt_nes_emulator.Websocket.Input.{
  message_max, header, read_length, check_length, unmask, Read, frame, take_frame, read_frame,
}

-- Four bytes.
pub record MaskingKey : Type 0 where
  pub k0 : ℕ
  pub k1 : ℕ
  pub k2 : ℕ
  pub k3 : ℕ

abbrev pub key_bytes : MaskingKey → Bytes
key_bytes k = k.k0 ∷ k.k1 ∷ k.k2 ∷ k.k3 ∷ []

abbrev pub IsBytes : Bytes → Type 0
IsBytes = All (λ b. b < 256)

abbrev fin_bit : Bool → ℕ
fin_bit fin = if fin then 128 else 0

-- The masking of RFC 6455 (section 5.3): the key over the payload, four bytes at a time.
pub masked : MaskingKey → Bytes → Bytes
masked k [] = []
masked k (a ∷ []) = bit_xor a k.k0 ∷ []
masked k (a ∷ b ∷ []) = bit_xor a k.k0 ∷ bit_xor b k.k1 ∷ []
masked k (a ∷ b ∷ c ∷ []) = bit_xor a k.k0 ∷ bit_xor b k.k1 ∷ bit_xor c k.k2 ∷ []
masked k (a ∷ b ∷ c ∷ d ∷ bs) =
    bit_xor a k.k0 ∷ bit_xor b k.k1 ∷ bit_xor c k.k2 ∷ bit_xor d k.k3 ∷ masked k bs

-- The frame of a client, with the length in its shortest form (a payload of 64 KiB is not sent).
pub client_frame : Bool → ℕ → MaskingKey → Bytes → Bytes
client_frame fin opcode key payload =
    (fin_bit fin + opcode)
    ∷ ((if ltb (length payload) 126
          then (128 + length payload) ∷ []
          else 254 ∷ length payload / 256 ∷ length payload % 256 ∷ [])
        ++ (key_bytes key ++ masked key payload))

-- `unmask` goes on as it began after four bytes.
unmask_around : (mask : Bytes) (i : ℕ) (bs : Bytes) → unmask mask (i + 4) bs ≡ unmask mask i bs
unfolding unmask
unmask_around mask i [] = refl
unmask_around mask i (b ∷ bs) =
    let same : (i + 4) % 4 ≡ i % 4 = omega arith in
    let next : i + 4 + 1 ≡ i + 1 + 4 = omega arith in
    ap₂ ◌∷◌ (ap (λ j. bit_xor b (get_or mask j 0)) same)
      (ap (λ j. unmask mask j bs) next ∙ unmask_around mask (i + 1) bs)

masked-unmask : (k : MaskingKey) (bs : Bytes) → masked k bs ≡ unmask (key_bytes k) 0 bs
unfolding masked unmask
masked-unmask k [] = refl
masked-unmask k (a ∷ []) = refl
masked-unmask k (a ∷ b ∷ []) = refl
masked-unmask k (a ∷ b ∷ c ∷ []) = refl
masked-unmask k (a ∷ b ∷ c ∷ d ∷ bs) =
    ap (λ t. bit_xor a k.k0 ∷ bit_xor b k.k1 ∷ bit_xor c k.k2 ∷ bit_xor d k.k3 ∷ t)
      (masked-unmask k bs ∙ sym (unmask_around (key_bytes k) 0 bs))

length-unmask : (mask : Bytes) (i : ℕ) (bs : Bytes) → length (unmask mask i bs) ≡ length bs
unfolding unmask
length-unmask mask i [] = refl
length-unmask mask i (b ∷ bs) = ap suc (length-unmask mask (i + 1) bs)

get_or-lt : (bs : Bytes) (i : ℕ) → IsBytes bs → get_or bs i 0 < 256
get_or-lt [] i h = omega arith
get_or-lt (b ∷ bs) zero h = h.0
get_or-lt (b ∷ bs) (suc i) h = get_or-lt bs i h.1

unmask_twice :
    (mask : Bytes) (i : ℕ) (bs : Bytes)
    → IsBytes mask
    → IsBytes bs
    → unmask mask i (unmask mask i bs) ≡ bs
unfolding unmask
unmask_twice mask i [] m h = refl
unmask_twice mask i (b ∷ bs) m h =
    ap₂ ◌∷◌ (bit_xor_twice b (get_or mask (i % 4) 0) h.0 (get_or-lt mask (i % 4) m))
      (unmask_twice mask (i + 1) bs m h.1)

-- The payload and the rest, behind a header of either form and the key.
module _ (opcode : ℕ) (fin : Bool) (key : MaskingKey) (payload rest : Bytes) where
  abbrev body : Bytes
  body = key_bytes key ++ (unmask (key_bytes key) 0 payload ++ rest)

  abbrev handed : Read
  handed = frame (record { fin = fin; opcode = opcode; payload = payload; rest = rest })

  taken :
      take (length payload) (unmask (key_bytes key) 0 payload ++ rest)
      ≡ unmask (key_bytes key) 0 payload
  taken =
      ap (λ n. take n (unmask (key_bytes key) 0 payload ++ rest))
        (sym (length-unmask (key_bytes key) 0 payload))
      ∙ take-append (unmask (key_bytes key) 0 payload) rest

  left : drop (length payload) (unmask (key_bytes key) 0 payload ++ rest) ≡ rest
  left =
      ap (λ n. drop n (unmask (key_bytes key) 0 payload ++ rest))
        (sym (length-unmask (key_bytes key) 0 payload))
      ∙ drop-append (unmask (key_bytes key) 0 payload) rest

  size_body : length body ≡ 4 + length payload + length rest
  size_body = omega (
    arith,
    length-append (unmask (key_bytes key) 0 payload) rest,
    length-unmask (key_bytes key) 0 payload,
  )

  -- With `front` of so many bytes before it, the frame is taken off.
  take_frame-behind :
      (front : Bytes) (size : ℕ)
      → length front ≡ size
      → IsBytes (key_bytes key)
      → IsBytes payload
      → take_frame opcode fin (front ++ body) (header (length payload) size) ≡ handed
  unfolding take_frame
  take_frame-behind front size e ks ps =
      let behind : drop size (front ++ body) ≡ body = rw (← e) (drop-append front body) in
      let at_key : drop (size + 4) (front ++ body) ≡ unmask (key_bytes key) 0 payload ++ rest =
        sym (drop-drop 4 size (front ++ body)) ∙ ap (drop 4) behind in
      let at_rest : drop (size + 4 + length payload) (front ++ body) ≡ rest =
        sym (drop-drop (length payload) (size + 4) (front ++ body))
        ∙ ap (drop (length payload)) at_key
        ∙ left in
      let room : ltb (length (front ++ body)) (size + 4 + length payload) ≡ false =
        ground (arith, length-append front body, size_body) in
      rw (room, behind, at_key, at_rest, taken)
        (rw (unmask_twice (key_bytes key) 0 payload ks ps) refl)

-- What `read_frame` requires beside the shortest form: a control frame is whole and short.
abbrev pub ControlFits : Bool → ℕ → Bytes → Type 0
ControlFits fin opcode payload = (leb 0x8 opcode && (not fin || ltb 125 (length payload))) ≡ false

-- The two forms of the length that a client's frame takes.
short_length : (n : ℕ) (ws : Bytes) → n < 126 → read_length ((128 + n) % 128) ws ≡ header n 2
unfolding read_length
short_length n ws h = let e : (128 + n) % 128 ≡ n = omega arith in rw e (ground arith)

long_length :
    (first n : ℕ) (more : Bytes)
    → 126 ≤ n
    → read_length (254 % 128) (first ∷ 254 ∷ n / 256 ∷ n % 256 ∷ more) ≡ header n 4
unfolding read_length
long_length first n more h = ground arith

-- The first byte of a client's frame.
first_byte :
    (fin : Bool) (opcode : ℕ)
    → opcode < 16
    → let b = fin_bit fin + opcode in
      (b % 16 ≡ opcode) × (leb 128 b ≡ fin) × ((b / 16 % 8 == 0) ≡ true)
first_byte fin opcode h = ground arith

accepted_length :
    (fin : Bool) (opcode n size : ℕ)
    → n ≤ message_max
    → size ≤ 10
    → (leb 0x8 opcode && (not fin || ltb 125 n)) ≡ false
    → check_length opcode fin (header n size) ≡ header n size
unfolding check_length
accepted_length fin opcode n size small few fits = rw fits (ground arith)

module _ (fin : Bool) (opcode : ℕ) (second : ℕ) (more : Bytes) (op : opcode < 16) where
  read_frame-masked :
      128 ≤ second
      → read_frame ((fin_bit fin + opcode) ∷ second ∷ more)
        ≡ take_frame opcode fin ((fin_bit fin + opcode) ∷ second ∷ more) (
            check_length opcode fin
              (read_length (second % 128) ((fin_bit fin + opcode) ∷ second ∷ more)))
  unfolding read_frame
  read_frame-masked masked =
      let (low, high, reserved) = first_byte fin opcode op in
      let bit : ltb second 128 ≡ false = ground arith in
      let two : ltb (suc (suc (length more))) 2 ≡ false = ground arith in
      rw (reserved, bit, low, high, two) refl

module _ (fin : Bool) (opcode : ℕ) (key : MaskingKey) (payload rest : Bytes) where
  module _ (op : opcode < 16) (small : length payload ≤ message_max)
      (fits : ControlFits fin opcode payload) (ks : IsBytes (key_bytes key))
      (ps : IsBytes payload) where
    abbrev behind_key : Bytes
    behind_key = body opcode fin key payload rest

    read_short :
        length payload < 126
        → read_frame ((fin_bit fin + opcode) ∷ (128 + length payload) ∷ behind_key)
          ≡ handed opcode fin key payload rest
    read_short h =
        let ws = (fin_bit fin + opcode) ∷ (128 + length payload) ∷ behind_key in
        let n : read_length ((128 + length payload) % 128) ws ≡ header (length payload) 2 =
          short_length (length payload) ws h in
        read_frame-masked fin opcode (128 + length payload) behind_key op (omega arith)
        ∙ ap (λ t. take_frame opcode fin ws (check_length opcode fin t)) n
        ∙ ap (take_frame opcode fin ws)
            (accepted_length fin opcode (length payload) 2 small (omega arith) fits)
        ∙ take_frame-behind opcode fin key payload rest
            ((fin_bit fin + opcode) ∷ (128 + length payload) ∷ []) 2 refl ks ps

    read_long :
        126 ≤ length payload
        → read_frame (
            (fin_bit fin + opcode) ∷ 254 ∷ length payload / 256 ∷ length payload % 256 ∷ behind_key)
          ≡ handed opcode fin key payload rest
    read_long h =
        let ws =
          (fin_bit fin + opcode) ∷ 254 ∷ length payload / 256 ∷ length payload % 256 ∷ behind_key in
        let n : read_length (254 % 128) ws ≡ header (length payload) 4 =
          long_length (fin_bit fin + opcode) (length payload) behind_key h in
        read_frame-masked fin opcode 254 (length payload / 256 ∷ length payload % 256 ∷ behind_key)
          op (omega arith)
        ∙ ap (λ t. take_frame opcode fin ws (check_length opcode fin t)) n
        ∙ ap (take_frame opcode fin ws)
            (accepted_length fin opcode (length payload) 4 small (omega arith) fits)
        ∙ take_frame-behind opcode fin key payload rest
            ((fin_bit fin + opcode) ∷ 254 ∷ length payload / 256 ∷ length payload % 256 ∷ []) 4 refl
            ks ps

-- A client's frame with a payload of at most 4096 bytes is read back, whatever follows it: its final
-- flag, its opcode, its payload unmasked, and what follows.
pub read_frame-client_frame :
    (fin : Bool) (opcode : ℕ) (key : MaskingKey) (payload rest : Bytes)
    → opcode < 16
    → length payload ≤ message_max
    → ControlFits fin opcode payload
    → IsBytes (key_bytes key)
    → IsBytes payload
    → read_frame (client_frame fin opcode key payload ++ rest)
      ≡ frame (record { fin = fin; opcode = opcode; payload = payload; rest = rest })
unfolding client_frame
read_frame-client_frame fin opcode key payload rest op small fits ks ps =
    elim (Bool-cases (ltb (length payload) 126)) [
      | inl short ↦
          rw (short, masked-unmask key payload)
            (read_short fin opcode key payload rest op small fits ks ps (ground arith))
      | inr long ↦
          rw (long, masked-unmask key payload)
            (read_long fin opcode key payload rest op small fits ks ps (ground arith))
    ]
