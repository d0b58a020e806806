-- ===== src/Text/Buffer/Append.antt =====
-- Appending to the string buffer.
use openwrt_nes_emulator.Base.{
  ℕ, zero, suc, ◌+◌, ◌*◌, ◌/◌, ◌≤◌, ◌<◌, ◌≡◌, refl, ap, ◌∙◌, inl, inr, true, false, ◌++◌, none,
  some, Bytes, length, length-append, ltb, leb, not, ltb→lt, if◌then◌else◌, u64_mod, arith,
  Bool-cases,
}
use openwrt_nes_emulator.Websocket.Frame.{safe_add_size}
use openwrt_nes_emulator.Text.Buffer.{StrBuf, grow, needed, fail, sb_reserve, sb_append_mem}

-- The text and its terminator fit the capacity, which is within the bound, a `size_t`.
abbrev pub IsSound : StrBuf → Type 0
IsSound sb = (length sb.content < sb.cap) × (sb.cap ≤ sb.max_size) × (sb.max_size < u64_mod)

-- The loop ends with a capacity that is enough and within the bound.
grow_enough :
    (fuel max_size need cap : ℕ)
    → need ≤ cap + fuel
    → 0 < cap
    → cap ≤ max_size
    → need ≤ max_size
    → (cap' : ℕ) × (grow (suc fuel) max_size need cap ≡ some cap')
      × (need ≤ cap')
      × (cap' ≤ max_size)
unfolding grow
grow_enough zero max_size need cap h some_room small fits =
    let e : leb need cap ≡ true = ground arith in (cap, rw (e, grow) refl, omega arith, small)
grow_enough (suc fuel) max_size need cap h some_room small fits = elim (Bool-cases (leb need cap)) [
  | inl e ↦ (cap, rw (e, grow) refl, ground arith, small)
  | inr e ↦
      let grown = if leb cap (max_size / 2) then cap * 2 else max_size in
      let more : (cap < grown) × (grown ≤ max_size) = ground arith in
      let kept : leb grown cap ≡ false = ground arith in
      let (cap', is, enough, within) =
        grow_enough fuel max_size need grown (omega arith) (omega arith) more.1 fits in
      (cap', rw (e, grow, kept) is, enough, within)
]

needed-fits :
    (extra : ℕ) (sb : StrBuf)
    → IsSound sb
    → sb.failed ≡ false
    → length sb.content + extra < sb.max_size
    → needed extra sb ≡ some (length sb.content + extra + 1)
unfolding needed safe_add_size
needed-fits extra sb sound fine fits = ground arith

needed-none :
    (extra : ℕ) (sb : StrBuf)
    → IsSound sb
    → sb.max_size ≤ length sb.content + extra
    → needed extra sb ≡ none
unfolding needed safe_add_size
needed-none extra sb sound full = ground arith

reserve-fits :
    (extra : ℕ) (sb : StrBuf)
    → IsSound sb
    → sb.failed ≡ false
    → length sb.content + extra < sb.max_size
    → (cap : ℕ) × (sb_reserve true extra sb ≡ (true, record sb { cap = cap }))
      × (length sb.content + extra < cap)
      × (cap ≤ sb.max_size)
unfolding sb_reserve
reserve-fits extra sb sound fine fits =
    let need = length sb.content + extra + 1 in
    let (cap, is, enough, within) =
      grow_enough need sb.max_size need sb.cap (omega arith) (omega arith) sound.1 (omega arith) in
    let rounds : need + 1 ≡ suc need = omega arith in
    let is' = ap (λ k. grow k sb.max_size need sb.cap) rounds ∙ is in
    let e = needed-fits extra sb sound fine fits in
    elim (Bool-cases (leb need sb.cap)) [
      | inl there ↦ (sb.cap, rw (sb_reserve, e, there) refl, ground arith, sound.1)
      | inr short ↦ (cap, rw (sb_reserve, e, short, is') refl, omega arith, within)
    ]

reserve-none :
    (extra : ℕ) (sb : StrBuf)
    → IsSound sb
    → sb.max_size ≤ length sb.content + extra
    → sb_reserve true extra sb ≡ fail sb
unfolding sb_reserve
reserve-none extra sb sound full = rw (sb_reserve, needed-none extra sb sound full) refl

-- A sound buffer that has not failed takes bytes, memory at hand, if and only if they fit the bound
-- with the terminator: they are appended, or it is marked as failed with its text unchanged. It
-- stays sound, with its bound, in both cases.
pub sb_append_mem_lem :
    (bytes : Bytes) (sb : StrBuf)
    → IsSound sb
    → sb.failed ≡ false
    → let r = sb_append_mem true bytes sb in
      IsSound r.1
      × (r.1.max_size ≡ sb.max_size)
      × (r.0 ≡ ltb (length sb.content + length bytes) sb.max_size)
      × (r.1.failed ≡ not r.0)
      × (r.1.content ≡ (if r.0 then sb.content ++ bytes else sb.content))
unfolding sb_append_mem
sb_append_mem_lem bytes sb sound fine =
    elim (Bool-cases (ltb (length sb.content + length bytes) sb.max_size)) [
      | inl e ↦
          let (cap, is, enough, within) =
            reserve-fits (length bytes) sb sound fine (ltb→lt _ _ e) in
          let room : length (sb.content ++ bytes) < cap =
            omega (arith, length-append sb.content bytes) in
          rw (is, e) ((room, within, sound.2), refl, refl, fine, refl)
      | inr e ↦
          let is = reserve-none (length bytes) sb sound (ground arith) in
          rw (is, e) (sound, refl, refl, refl, refl)
    ]
