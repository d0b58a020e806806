-- ===== src/Rpc/Response/Ends.antt =====
-- Outcomes that are not for want of rounds, with a property of the result.
use openwrt_nes_emulator.Base.{
  ℕ, zero, suc, ◌+◌, ◌-◌, ◌≤◌, ◌<◌, ◌≡◌, ◌≢◌, refl, ap, Bool, true, false, ◌++◌, Option, none, some,
  length, take, drop, min, ltb, leb, ◌==◌, if◌then◌else◌, arith, length-append, length-take,
  Bool-cases, inl, inr,
}
use openwrt_nes_emulator.Rpc.Reader.{
  eproto, out_of_rounds, Outcome, ok, err, bind, Reader, reader_fill, reader_ready, reader_byte,
  count_byte, Line, cons_line, line_branch, line_rounds, without_cr, reader_line,
  reader_expect_crlf, Body, body_reserve, append_rounds, reader_append_exact, header_max, body_max,
}

-- A result with the property, or an error of the program.
abbrev pub Ends {ℓ} : {A : Type ℓ} → (A → Type 0) → Outcome A → Type 0
Ends P (ok a) = P a
Ends P (err e) = e ≢ out_of_rounds

pub Ends-bind {ℓ κ} :
    {A : Type ℓ} {B : Type κ} (P : A → Type 0) (Q : B → Type 0) (r : Outcome A) (f : A → Outcome B)
    → Ends P r
    → ((a : A) → P a → Ends Q (f a))
    → Ends Q (bind r f)
Ends-bind P Q (ok a) f h k = k a h
Ends-bind P Q (err e) f h k = h

pub Ends-map {ℓ} :
    {A : Type ℓ} (P Q : A → Type 0) (r : Outcome A) → ((a : A) → P a → Q a) → Ends P r → Ends Q r
Ends-map P Q (ok a) f h = f a h
Ends-map P Q (err e) f h = h

pub Ends-if {ℓ} :
    {A : Type ℓ} (P : A → Type 0) (b : Bool) (x y : Outcome A)
    → Ends P x
    → Ends P y
    → Ends P (if b then x else y)
Ends-if P true x y h k = h
Ends-if P false x y h k = k

pub reader_fill-Ends : (r : Reader) → Ends (λ x. Unit) (reader_fill r)
unfolding reader_fill
reader_fill-Ends r = ground arith

reader_ready-Ends : (r : Reader) → Ends (λ r'. 0 < length r'.buffer) (reader_ready r)
unfolding reader_ready reader_fill
reader_ready-Ends r = ground arith

reader_byte-Ends : (r : Reader) → Ends (λ x. Unit) (reader_byte r)
unfolding reader_byte reader_ready reader_fill
reader_byte-Ends r = ground arith

-- A count goes up within its bound, if there is one.
abbrev pub Counts : Option ℕ → Option ℕ → Type 0
Counts none after = Unit
Counts (some total) none = ⊥
Counts (some total) (some n) = (total < n) × (n ≤ header_max)

count_byte-Counts : (total total' : Option ℕ) → count_byte total ≡ some total' → Counts total total'
unfolding count_byte
count_byte-Counts none total' e = tt
count_byte-Counts (some total) none e = ground arith
count_byte-Counts (some total) (some n) e = ground arith

Counts-trans : (a b c : Option ℕ) → Counts a b → Counts b c → Counts a c
Counts-trans none b c h k = tt
Counts-trans (some a) none c h k = absurd h
Counts-trans (some a) (some b) none h k = absurd k
Counts-trans (some a) (some b) (some c) h k = omega arith

abbrev pub Counted : Option ℕ → Outcome Line → Type 0
Counted total = Ends (λ l. Counts total l.wire_total)

Counted-less : (a b : Option ℕ) (o : Outcome Line) → Counts a b → Counted b o → Counted a o
Counted-less a b (ok l) h k = Counts-trans a b l.wire_total h k
Counted-less a b (err e) h k = k

cons_line-Counted :
    (total : Option ℕ) (b : ℕ) (o : Outcome Line) → Counted total o → Counted total (cons_line b o)
cons_line-Counted total b (ok l) h = h
cons_line-Counted total b (err e) h = h

line_branch-Counted :
    (line_size n last b : ℕ) (total total' : Option ℕ) (r : Reader) (next : Outcome Line)
    → Counts total total'
    → (n + 1 < line_size → Counted total' next)
    → Counted total (line_branch line_size n last b total' r next)
unfolding line_branch
line_branch-Counted line_size n last b total total' r next up h =
    elim (Bool-cases (leb line_size (n + 1))) [
      | inl full ↦ rw full (ground arith)
      | inr room ↦
          let more =
            cons_line-Counted total b next (Counted-less total total' next up (h (ground arith))) in
          rw room (ground arith)
    ]

line_after :
    (fuel line_size n last : ℕ) (total : Option ℕ) (r : Reader) (o : Outcome (ℕ × Reader))
    (c : Option (Option ℕ))
    → reader_byte r ≡ o
    → count_byte total ≡ c
    → Ends (λ x. Unit) o
    → ((b : ℕ) (total' : Option ℕ) (r' : Reader)
        → n + 1 < line_size
        → Counted total' (line_rounds fuel line_size (n + 1) b total' r'))
    → Counted total (line_rounds (suc fuel) line_size n last total r)
unfolding line_rounds
line_after fuel line_size n last total r (err x) c e f fine h = rw (line_rounds, e) fine
line_after fuel line_size n last total r (ok (b, r')) none e f fine h =
    rw (line_rounds, e, f) (λ x. cc)
line_after fuel line_size n last total r (ok (b, r')) (some total') e f fine h =
    rw (line_rounds, e, f)
      (line_branch-Counted line_size n last b total total' r'
        (line_rounds fuel line_size (n + 1) b total' r') (count_byte-Counts total total' f)
        (h b total' r'))

line_rounds-Counted :
    (fuel line_size n last : ℕ) (total : Option ℕ) (r : Reader)
    → n < line_size
    → line_size ≤ n + fuel
    → Counted total (line_rounds fuel line_size n last total r)
line_rounds-Counted zero line_size n last total r h enough = absurd (omega arith)
line_rounds-Counted (suc fuel) line_size n last total r h enough =
    line_after fuel line_size n last total r (reader_byte r) (count_byte total) refl refl
      (reader_byte-Ends r)
      (λ b total' r' room.
        line_rounds-Counted fuel line_size (n + 1) b total' r' room (omega arith))

-- A line ends, is refused or cannot be read; it counts its bytes.
pub reader_line-Counted :
    (line_size : ℕ) (total : Option ℕ) (r : Reader) → Counted total (reader_line line_size total r)
unfolding reader_line
reader_line-Counted line_size total r = elim (Bool-cases (ltb line_size 2)) [
  | inl e ↦ rw e (λ x. cc)
  | inr e ↦ rw e (
      Ends-bind (λ l. Counts total l.wire_total) (λ l. Counts total l.wire_total)
        (line_rounds line_size line_size 0 0 total r) (λ l. ok (without_cr l))
        (line_rounds-Counted line_size line_size 0 0 total r (ground arith) (omega arith))
        (λ l h. h))
]

pub reader_expect_crlf-Ends : (r : Reader) → Ends (λ x. Unit) (reader_expect_crlf r)
unfolding reader_expect_crlf
reader_expect_crlf-Ends r =
    Ends-bind (λ x. Unit) (λ x. Unit) (reader_byte r) _ (reader_byte-Ends r)
      (λ (first, r1) h.
        Ends-bind (λ x. Unit) (λ x. Unit) (reader_byte r1) _ (reader_byte-Ends r1)
          (λ (second, r2) k. Ends-if (λ x. Unit) _ (err eproto) (ok r2) (λ x. cc) tt))

-- The body holds so many bytes, within the bound, after so many.
abbrev pub Holds : ℕ → ℕ → Body × Reader → Type 0
Holds before n (body, r) = (length body.content ≡ before + n) × (length body.content ≤ body_max)

pub body_reserve-Ends :
    (memory : Bool) (n : ℕ) (body : Body)
    → length body.content ≤ body_max
    → Ends
        (λ body'. (body'.content ≡ body.content) × (length body.content + n ≤ body_max))
        (body_reserve memory n body)
unfolding body_reserve
body_reserve-Ends memory n body h = ground arith

append_more :
    (fuel missing : ℕ) (body : Body) (r : Reader) (o : Outcome Reader)
    → reader_ready r ≡ o
    → Ends (λ r'. 0 < length r'.buffer) o
    → 0 < missing
    → ((n : ℕ) (body' : Body) (r' : Reader)
        → 0 < n
        → n ≤ missing
        → length body'.content ≡ length body.content + n
        → Ends
            (Holds (length body'.content) (missing - n))
            (append_rounds fuel body' (missing - n) r'))
    → Ends (Holds (length body.content) missing) (append_rounds (suc fuel) body missing r)
unfolding append_rounds
append_more fuel missing body r (err x) e fine some_missing h =
    let more : (missing == 0) ≡ false = ground arith in rw (append_rounds, more, e) fine
append_more fuel missing body r (ok r') e fine some_missing h =
    let more : (missing == 0) ≡ false = ground arith in
    let n = min (length r'.buffer) missing in
    let body' : Body = record body { content = body.content ++ take n r'.buffer } in
    let size : length body'.content ≡ length body.content + n =
      omega (arith, length-append body.content (take n r'.buffer), length-take n r'.buffer) in
    rw (append_rounds, more, e)
      (Ends-map (Holds (length body'.content) (missing - n)) (Holds (length body.content) missing)
        (append_rounds fuel body' (missing - n) (record r' { buffer = drop n r'.buffer }))
        (λ (b, r2) k. omega arith)
        (h n body' (record r' { buffer = drop n r'.buffer }) (omega arith) (omega arith) size))

append_done :
    (fuel : ℕ) (body : Body) (r : Reader)
    → length body.content ≤ body_max
    → Ends (Holds (length body.content) 0) (append_rounds fuel body 0 r)
unfolding append_rounds
append_done zero body r h = omega arith
append_done (suc fuel) body r h = omega arith

append_rounds-Ends :
    (fuel missing : ℕ) (body : Body) (r : Reader)
    → missing ≤ fuel
    → length body.content + missing ≤ body_max
    → Ends (Holds (length body.content) missing) (append_rounds fuel body missing r)
append_rounds-Ends fuel zero body r enough fits = append_done fuel body r (omega arith)
append_rounds-Ends zero (suc missing) body r enough fits = absurd (omega arith)
append_rounds-Ends (suc fuel) (suc missing) body r enough fits =
    append_more fuel (suc missing) body r (reader_ready r) refl (reader_ready-Ends r) (omega arith)
      (λ n body' r' some_byte few size.
        append_rounds-Ends fuel (suc missing - n) body' r' (omega arith) (omega arith))

pub reader_append_exact-Ends :
    (memory : Bool) (n : ℕ) (body : Body) (r : Reader)
    → length body.content ≤ body_max
    → Ends (Holds (length body.content) n) (reader_append_exact memory n body r)
unfolding reader_append_exact
reader_append_exact-Ends memory n body r h =
    Ends-bind _ (Holds (length body.content) n) (body_reserve memory n body) _
      (body_reserve-Ends memory n body h)
      (λ body' (same, fits).
        let size = ap length same in
        Ends-map (Holds (length body'.content) n) (Holds (length body.content) n)
          (append_rounds n body' n r) (λ (b, r2) k. omega arith)
          (append_rounds-Ends n n body' r (omega arith) (omega arith)))
