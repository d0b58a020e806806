-- ===== src/Rpc/Reader.antt =====
-- `struct rpc_reader`, `reader_fill`, `reader_byte`, `reader_line` and `reader_expect_crlf`, and
-- `struct rpc_body`, `body_reserve` and `reader_append_exact`, of package/nes-emulator/src/rpc_client.c.
pub mod Stream
pub mod Append
use openwrt_nes_emulator.Base.{
  ℕ, zero, suc, ◌+◌, ◌-◌, ◌*◌, ◌/◌, Bool, true, false, not, ◌&&◌, ◌||◌, List, [], ◌∷◌, ◌++◌, Option,
  none, some, Bytes, length, take, drop, min, ltb, leb, ◌==◌, if◌then◌else◌,
}

-- What `errno` holds; `io` is what `recv` or `realloc` leaves there. `out_of_rounds` has no
-- counterpart in the program.
pub data Errno : Type 0 where
  eproto : Errno
  econnreset : Errno
  eoverflow : Errno
  efbig : Errno
  einval : Errno
  io : Errno
  out_of_rounds : Errno

pub data Outcome {ℓ} (A : Type ℓ) : Type ℓ where
  ok : A → Outcome A
  err : Errno → Outcome A

abbrev pub bind {ℓ κ} : {A : Type ℓ} {B : Type κ} → Outcome A → (A → Outcome B) → Outcome B
bind (ok a) f = f a
bind (err e) f = err e

-- What `recv` returns call by call: a byte and those that come with it, then more; or the end of
-- the connection; or a failure or the deadline.
pub data Incoming : Type 0 where
  arrives : ℕ → Bytes → Incoming → Incoming
  closed : Incoming
  broken : Incoming

-- The unread part of the buffer, and what is still to come.
pub record Reader : Type 0 where
  pub buffer : Bytes
  pub incoming : Incoming

-- The results 1 and 0; -1 is `err`.
unfoldable pub reader_fill : Reader → Outcome (Bool × Reader)
reader_fill r = elim r.incoming [
  | arrives b bs more ↦ ok (true, record { buffer = b ∷ bs; incoming = more })
  | closed ↦ ok (false, record { buffer = []; incoming = closed })
  | broken ↦ err io
]

-- A reader with a byte to read.
unfoldable pub reader_ready : Reader → Outcome Reader
unfolding reader_fill
reader_ready r = elim r.buffer [
  | b ∷ bs ↦ ok r
  | [] ↦ bind (reader_fill r) λ (filled, r'). if filled then ok r' else err econnreset
]

unfoldable pub reader_byte : Reader → Outcome (ℕ × Reader)
unfolding reader_ready
reader_byte r =
    bind (reader_ready r)
      λ r'. elim r'.buffer [ [] ↦ err econnreset | b ∷ bs ↦ ok (b, record r' { buffer = bs }) ]

-- `RPC_HEADER_MAX`, `RPC_LINE_MAX`, `RPC_RESPONSE_BODY_MAX`
abbrev pub header_max : ℕ
header_max = 16 * 1024

abbrev pub line_max : ℕ
line_max = 8 * 1024

abbrev pub body_max : ℕ
body_max = 512 * 1024

-- `(*wire_total)++`, unless the pointer is NULL; past the bound it is `none`.
unfoldable pub count_byte : Option ℕ → Option (Option ℕ)
count_byte none = some none
count_byte (some total) = if ltb header_max (total + 1) then none else some (some (total + 1))

-- A line as it came, its carriage return included, with the count and what is left.
pub record Line : Type 0 where
  pub content : Bytes
  pub wire_total : Option ℕ
  pub rest : Reader

abbrev pub cons_line : ℕ → Outcome Line → Outcome Line
cons_line b (ok l) = ok (record l { content = b ∷ l.content })
cons_line b (err e) = err e

-- What a round of `reader_line` does with the byte `b`, `n` characters being read, the last of them
-- `last`; `next` is the outcome of the rounds after it.
unfoldable pub line_branch : ℕ → ℕ → ℕ → ℕ → Option ℕ → Reader → Outcome Line → Outcome Line
line_branch line_size n last b total r next =
    if b == 0
    then err eproto
    else if b == 10
    then (if n == 0 || not (last == 13)
        then err eproto
        else ok (record { content = []; wire_total = total; rest = r }))
    else if leb line_size (n + 1)
    then err eoverflow
    else cons_line b next

-- The loop of `reader_line`. It has a round for each place in `line` at most.
unfoldable pub line_rounds : ℕ → ℕ → ℕ → ℕ → Option ℕ → Reader → Outcome Line
line_rounds zero line_size n last total r = err out_of_rounds
line_rounds (suc fuel) line_size n last total r = elim (reader_byte r) [
  | err e ↦ err e
  | ok (b, r') ↦ elim (count_byte total) [
    | none ↦ err eoverflow
    | some total' ↦
        line_branch line_size n last b total' r' (line_rounds fuel line_size (n + 1) b total' r')
  ]
]

abbrev pub without_cr : Line → Line
without_cr l = record l { content = take (length l.content - 1) l.content }

unfoldable pub reader_line : ℕ → Option ℕ → Reader → Outcome Line
reader_line line_size total r =
    if ltb line_size 2
    then err einval
    else bind (line_rounds line_size line_size 0 0 total r) λ l. ok (without_cr l)

unfoldable pub reader_expect_crlf : Reader → Outcome Reader
reader_expect_crlf r = bind (reader_byte r) λ (first, r1).
    bind (reader_byte r1)
      λ (second, r2). if not (first == 13) || not (second == 10) then err eproto else ok r2

pub record Body : Type 0 where
  pub content : Bytes
  pub capacity : ℕ

-- The loop that doubles the capacity; seven rounds lead from 4096 to `RPC_RESPONSE_BODY_MAX`.
unfoldable pub grow_capacity : ℕ → ℕ → ℕ → ℕ
grow_capacity zero required capacity = capacity
grow_capacity (suc fuel) required capacity =
    let more = grow_capacity fuel required (capacity * 2) in
    if leb required capacity
    then capacity
    else if leb (body_max / 2) capacity
    then body_max
    else more

-- The flag `memory` says whether `realloc` succeeds.
unfoldable pub body_reserve : Bool → ℕ → Body → Outcome Body
unfolding grow_capacity
body_reserve memory additional body =
    let required = length body.content + additional in
    if ltb (body_max - length body.content) additional
    then err efbig
    else if leb required body.capacity
    then ok body
    else if memory
    then ok (record body {
      capacity =
          grow_capacity required required (if body.capacity == 0 then 4096 else body.capacity);
    })
    else err io

-- The loop of `reader_append_exact`: a round takes at least one byte of those that are missing.
unfoldable pub append_rounds : ℕ → Body → ℕ → Reader → Outcome (Body × Reader)
append_rounds zero body missing r = if missing == 0 then ok (body, r) else err out_of_rounds
append_rounds (suc fuel) body missing r = elim (missing == 0) [
  | true ↦ ok (body, r)
  | false ↦ elim (reader_ready r) [
    | err e ↦ err e
    | ok r' ↦
        let n = min (length r'.buffer) missing in
        append_rounds fuel (record body { content = body.content ++ take n r'.buffer })
          (missing - n) (record r' { buffer = drop n r'.buffer })
  ]
]

unfoldable pub reader_append_exact : Bool → ℕ → Body → Reader → Outcome (Body × Reader)
reader_append_exact memory n body r =
    bind (body_reserve memory n body) λ body'. append_rounds n body' n r
