-- ===== src/Websocket/Flush.antt =====
-- `websocket_flush` of package/nes-emulator/src/http.c. The socket is a parameter: it answers
-- each `send` by a round.
pub mod Stream
use openwrt_nes_emulator.Base.{
  ℕ, zero, suc, ◌+◌, ◌-◌, ◌*◌, ◌<◌, ◌≤◌, ◌≡◌, Bool, true, false, not, ◌&&◌, ◌||◌, List, [], ◌∷◌,
  ◌++◌, Option, none, some, Bytes, length, take, drop, min, ltb, leb, ◌==◌, if◌then◌else◌, add64,
}
use openwrt_nes_emulator.Websocket.Output.{Active, Client, websocket_clear_active}
use openwrt_nes_emulator.Websocket.Schedule.{websocket_promote_next}

-- What `send` returns: a count above 0, an error `EINTR`, `EAGAIN` or `EWOULDBLOCK`, or anything
-- else, 0 among it.
pub data SendResult : Type 0 where
  sent : ℕ → SendResult
  interrupted would_block broken : SendResult

-- One call: its result, and the clock read after it, in `websocket_flush` and by the activation
-- of the next frame.
pub record Round : Type 0 where
  pub result : SendResult
  pub progressed_at : ℕ
  pub activated_at : ℕ

-- `WS_FLUSH_BUDGET_BYTES`, `WS_FLUSH_BUDGET_SYSCALLS`
abbrev pub flush_bytes : ℕ
flush_bytes = 128 * 1024

abbrev pub flush_syscalls : ℕ
flush_syscalls = 4

-- A Ping whose first byte goes out now is outstanding from now on.
unfoldable pub note_ping : ℕ → Active → Client → Client
note_ping at a c =
    if a.opcode == 0x9 && c.ping_queued && a.off == 0
    then record c {
      ping_queued = false;
      ping_outstanding = true;
      ping_sent_ms = at;
      last_ping_ms = at;
    }
    else c

-- `WS_CLOSE_TIMEOUT_MS` is 1000.
unfoldable pub note_close : ℕ → ℕ → Client → Client
note_close at opcode c =
    if opcode == 0x8
    then record c { close_frame_sent = true; close_deadline_ms = add64 at 1000 }
    else c

-- The branch `n > 0`.
unfoldable pub advance : Round → Active → ℕ → Client → Client
unfolding note_ping note_close websocket_clear_active websocket_promote_next
advance r a n c =
    let c1 : Client = record (note_ping r.progressed_at a c) {
      out = some (record a { off = a.off + n; progress_ms = r.progressed_at });
    } in
    if ltb (a.off + n) (length a.frame)
    then c1
    else websocket_promote_next r.progressed_at r.activated_at
        (note_close r.progressed_at a.opcode (websocket_clear_active c1))

-- What the call asks `send` to take.
abbrev pub wanted : ℕ → Active → ℕ
wanted byte_budget a = min (length a.frame - a.off) byte_budget

-- The socket: what `send` answers at the `i`-th call, asked to take so many bytes.
abbrev pub Socket : Type 0
Socket = ℕ → ℕ → Round

-- As documented, `send` takes at least one byte when it succeeds, and at most those asked for.
abbrev pub IsHonest : Socket → Type 0
IsHonest env = (i w n : ℕ) → (env i w).result ≡ sent n → (0 < n) × (n ≤ w)

-- The result 0 or -1, the client, and the bytes that the kernel took.
pub record Flushed : Type 0 where
  pub fine : Bool
  pub client : Client
  pub wire : Bytes

abbrev pub prefix_wire : Bytes → Flushed → Flushed
prefix_wire bytes f = record { fine = f.fine; client = f.client; wire = bytes ++ f.wire }

unfoldable pub flush_rounds : ℕ → ℕ → ℕ → Socket → Client → Flushed
flush_rounds zero i byte_budget env c = record { fine = true; client = c; wire = [] }
flush_rounds (suc budget) i byte_budget env c = elim c.out [
  | none ↦ record { fine = true; client = c; wire = [] }
  | some a ↦ elim (byte_budget == 0) [
    | true ↦ record { fine = true; client = c; wire = [] }
    | false ↦ elim ((env i (wanted byte_budget a)).result) [
      | sent n ↦ prefix_wire (take n (drop a.off a.frame)) (
          flush_rounds budget (i + 1) (byte_budget - n) env
            (advance (env i (wanted byte_budget a)) a n c))
      | interrupted ↦ flush_rounds budget (i + 1) byte_budget env c
      | would_block ↦ record { fine = true; client = c; wire = [] }
      | broken ↦ record { fine = false; client = c; wire = [] }
    ]
  ]
]

unfoldable pub websocket_flush : Socket → Client → Flushed
unfolding flush_rounds
websocket_flush env c = flush_rounds flush_syscalls 0 flush_bytes env c
