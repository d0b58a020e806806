-- ===== src/Http/File.antt =====
-- The file names that `sanitize_filename` lets through.
use openwrt_nes_emulator.Base.{
  ℕ, ◌+◌, ◌≤◌, ◌<◌, ◌≡◌, ◌≢◌, true, [], ◌∷◌, Option, none, some, Bytes, length, get_or, leb, arith,
  All, Bool-cases, inl, inr,
}
use openwrt_nes_emulator.Http.{
  put, base_of, is_rom_ext, safe_char, sanitize_chars, sanitize_filename,
}

-- No separator of path components, no control character, nothing beyond ASCII.
abbrev pub InComponent : ℕ → Type 0
InComponent c = (c ≢ 47) × (c ≢ 92) × (32 ≤ c) × (c < 127)

safe_char-InComponent : (c : ℕ) → InComponent (safe_char c)
unfolding safe_char
safe_char-InComponent c = ground arith

abbrev pub Contained : ℕ → ℕ → Option Bytes → Type 0
Contained o size none = Unit
Contained o size (some out) = (o + length out < size) × All InComponent out

put-Contained :
    (o size c : ℕ) (r : Option Bytes)
    → Contained (o + 1) size r
    → Contained o size (put (safe_char c) r)
put-Contained o size c none h = tt
put-Contained o size c (some out) h = (omega arith, (safe_char-InComponent c, h.1))

sanitize_chars-Contained :
    (o size : ℕ) (s : Bytes) → o < size → Contained o size (sanitize_chars o size s)
unfolding sanitize_chars
sanitize_chars-Contained o size [] h = (omega arith, tt)
sanitize_chars-Contained o size (c ∷ s) h = elim (Bool-cases (leb size (o + 1))) [
  | inl full ↦ rw full tt
  | inr room ↦ rw room (
      put-Contained o size c (sanitize_chars (o + 1) size s)
        (sanitize_chars-Contained (o + 1) size s (ground arith)))
]

sanitized :
    (size : ℕ) (input out : Bytes)
    → sanitize_filename size input ≡ some out
    → (sanitize_chars 0 size (base_of 92 (base_of 47 input)) ≡ some out)
      × (0 < length out)
      × (get_or out 0 0 ≢ 46)
      × (is_rom_ext out ≡ true)
      × (2 ≤ size)
unfolding sanitize_filename
sanitized size input out e = ground arith

-- A name that is let through is one path component: it has no slash, backslash or control
-- character, is not empty, does not start with a dot, fits the buffer with its terminator, and has
-- the extension of a ROM.
pub sanitize_filename_safe :
    (size : ℕ) (input out : Bytes)
    → sanitize_filename size input ≡ some out
    → (length out < size)
      × All InComponent out
      × (0 < length out)
      × (get_or out 0 0 ≢ 46)
      × (is_rom_ext out ≡ true)
sanitize_filename_safe size input out e =
    let (is, some_char, no_dot, rom, room) = sanitized size input out e in
    let h = sanitize_chars-Contained 0 size (base_of 92 (base_of 47 input)) (omega arith) in
    let held : Contained 0 size (some out) = rw is at h in
    (omega arith, held.1, some_char, no_dot, rom)
