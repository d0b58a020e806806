-- ===== src/Rpc/Reader/Append.antt =====
-- `reader_append_exact` and `body_reserve` on the bytes that are still to be read.
use openwrt_nes_emulator.Base.{
  drop-append_le, ℕ, zero, suc, ◌+◌, ◌-◌, ◌≤◌, ◌<◌, ◌≡◌, refl, ap, sym, ◌∙◌, true, false, [], ◌∷◌,
  ◌++◌, Bytes, length, take, drop, min, ltb, leb, ◌==◌, if◌then◌else◌, arith, length-drop,
  take-append-drop, Bool-cases, inl, inr,
}
use mathlib.Core.List.{append_assoc, append-nil}
use openwrt_nes_emulator.Rpc.Reader.{
  ok, Incoming, arrives, closed, broken, Reader, reader_fill, reader_ready, Body, grow_capacity,
  body_reserve, append_rounds, reader_append_exact, body_max,
}
use openwrt_nes_emulator.Rpc.Reader.Stream.{incoming_bytes, unread}

take-append_le : (n : ℕ) (xs ys : Bytes) → n ≤ length xs → take n (xs ++ ys) ≡ take n xs
take-append_le zero xs ys h = refl
take-append_le (suc n) [] ys h = absurd (omega arith)
take-append_le (suc n) (x ∷ xs) ys h = ap (λ t. x ∷ t) (take-append_le n xs ys (omega arith))

ready_of :
    (buffer : Bytes) (incoming : Incoming) (b : ℕ) (bs : Bytes)
    → buffer ++ incoming_bytes incoming ≡ b ∷ bs
    → (r' : Reader) × (reader_ready (record { buffer = buffer; incoming = incoming }) ≡ ok r')
      × (unread r' ≡ b ∷ bs)
      × (0 < length r'.buffer)
unfolding reader_ready reader_fill unread incoming_bytes
ready_of (x ∷ xs) incoming b bs e =
    (record { buffer = x ∷ xs; incoming = incoming }, refl, e, omega arith)
ready_of [] (arrives x xs more) b bs e =
    (record { buffer = x ∷ xs; incoming = more }, refl, e, omega arith)
ready_of [] closed b bs e = cc
ready_of [] broken b bs e = cc

reader_ready-unread :
    (r : Reader) (bs rest : Bytes)
    → unread r ≡ bs ++ rest
    → 0 < length bs
    → (r' : Reader) × (reader_ready r ≡ ok r') × (unread r' ≡ bs ++ rest) × (0 < length r'.buffer)
unfolding unread
reader_ready-unread r [] rest e h = absurd (omega arith)
reader_ready-unread r (b ∷ bs) rest e h = ready_of r.buffer r.incoming b (bs ++ rest) e

rounds-take :
    (fuel missing : ℕ) (body : Body) (r r' : Reader)
    → 0 < missing
    → reader_ready r ≡ ok r'
    → let n = min (length r'.buffer) missing in
      append_rounds (suc fuel) body missing r
      ≡ append_rounds fuel
          (record body { content = body.content ++ take n r'.buffer })
          (missing - n)
          (record r' { buffer = drop n r'.buffer })
unfolding append_rounds
rounds-take fuel missing body r r' h e =
    let some_missing : (missing == 0) ≡ false = ground arith in
    rw (append_rounds, some_missing, e) refl

rounds-done : (fuel : ℕ) (body : Body) (r : Reader) → append_rounds fuel body 0 r ≡ ok (body, r)
unfolding append_rounds
rounds-done zero body r = refl
rounds-done (suc fuel) body r = refl

-- The first `n` of bytes that stand both ways.
same_front :
    (n : ℕ) (xs ys bs rest : Bytes)
    → xs ++ ys ≡ bs ++ rest
    → n ≤ length xs
    → n ≤ length bs
    → (take n xs ≡ take n bs) × (drop n xs ++ ys ≡ drop n bs ++ rest)
same_front n xs ys bs rest e hx hb = (
  sym (take-append_le n xs ys hx) ∙ ap (take n) e ∙ take-append_le n bs rest hb,
  sym (drop-append_le n xs ys hx) ∙ ap (drop n) e ∙ drop-append_le n bs rest hb,
)

append_rounds-unread :
    (fuel : ℕ) (bs rest : Bytes) (body : Body) (r : Reader)
    → unread r ≡ bs ++ rest
    → length bs ≤ fuel
    → (r' : Reader) × (append_rounds fuel body (length bs) r
        ≡ ok (record body { content = body.content ++ bs }, r'))
      × (unread r' ≡ rest)
append_rounds-unread fuel [] rest body r e h = (
  r,
  rounds-done fuel body r
      ∙ ap (λ t. ok (record body { content = t }, r)) (sym (append-nil body.content)),
  e,
)
append_rounds-unread zero (b ∷ bs) rest body r e h = absurd (omega arith)
append_rounds-unread (suc fuel) (b ∷ bs) rest body r e h =
    let all = b ∷ bs in
    let (r1, is, same, some_byte) = reader_ready-unread r all rest e (omega arith) in
    let n = min (length r1.buffer) (length all) in
    let (front, back) =
      same_front n r1.buffer (incoming_bytes r1.incoming) all rest (unfold unread in same)
        (omega arith) (omega arith) in
    let r2 : Reader = record r1 { buffer = drop n r1.buffer } in
    let body' : Body = record body { content = body.content ++ take n all } in
    let left : length (drop n all) ≡ length all - n = length-drop n all in
    let (r', done, end) =
      append_rounds-unread fuel (drop n all) rest body' r2 (unfold unread in back) (omega arith) in
    (
      r',
      rounds-take fuel (length all) body r r1 (omega arith) is
          ∙ ap
              (λ t.
                append_rounds fuel (record body { content = body.content ++ t }) (length all - n)
                  r2)
              front
          ∙ ap (λ k. append_rounds fuel body' k r2) (sym left)
          ∙ done
          ∙ ap (λ t. ok (record body { content = t }, r'))
              (append_assoc body.content (take n all) (drop n all)
                ∙ ap (λ t. body.content ++ t) (take-append-drop n all)),
      end,
    )

body_reserve-fits :
    (n : ℕ) (body : Body)
    → length body.content + n ≤ body_max
    → (capacity : ℕ) × (body_reserve true n body ≡ ok (record body { capacity = capacity }))
unfolding body_reserve
body_reserve-fits n body h =
    let small : ltb (body_max - length body.content) n ≡ false = ground arith in
    elim (Bool-cases (leb (length body.content + n) body.capacity)) [
      | inl e ↦ (body.capacity, rw (small, e) refl)
      | inr e ↦
          let required = length body.content + n in
          let start = if body.capacity == 0 then 4096 else body.capacity in
          (grow_capacity required required start, rw (small, e) refl)
    ]

-- Bytes that come, in whatever pieces, and fit the bound are appended, memory at hand.
pub reader_append_exact-unread :
    (bs rest : Bytes) (body : Body) (r : Reader)
    → unread r ≡ bs ++ rest
    → length body.content + length bs ≤ body_max
    → (body' : Body) × (r' : Reader) × (reader_append_exact true (length bs) body r
        ≡ ok (body', r'))
      × (body'.content ≡ body.content ++ bs)
      × (unread r' ≡ rest)
unfolding reader_append_exact
reader_append_exact-unread bs rest body r e fits =
    let (capacity, is) = body_reserve-fits (length bs) body fits in
    let body1 : Body = record body { capacity = capacity } in
    let (r', done, end) = append_rounds-unread (length bs) bs rest body1 r e (omega arith) in
    (record body1 { content = body.content ++ bs }, r', rw is done, refl, end)
