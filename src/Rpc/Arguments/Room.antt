-- ===== src/Rpc/Arguments/Room.antt =====
-- The room that `rpc_client_request` gets for the request (package/nes-emulator/src/rpc_client.c).
use openwrt_nes_emulator.Base.{
  has_byte, ℕ, ◌+◌, ◌≤◌, ◌<◌, ◌≡◌, List, [], ◌∷◌, Bytes, length, arith, length-append,
  length-decimal, decimal, Bool-cases, inl, inr,
}
use openwrt_nes_emulator.Rpc.Arguments.{
  RpcCall, host_text, pieces, is_post, post_header, get_header, request_header, header_capacity,
}

-- The lengths of pieces, added up.
abbrev total : List Bytes → ℕ
total [] = 0
total (p ∷ ps) = length p + total ps

pub length-pieces : (ps : List Bytes) → length (pieces ps) ≡ total ps
length-pieces [] = omega arith
length-pieces (p ∷ ps) = omega (arith, length-append p (pieces ps), length-pieces ps)

-- Two brackets, a colon and a number.
pub length-host_text : (call : RpcCall) → length (host_text call) ≤ length call.host + 23
length-host_text call =
    unfold host_text in
    elim (Bool-cases (has_byte 58 call.host)) [
      | inl e ↦ rw e (
          omega (
            arith,
            length-append call.host (93 ∷ 58 ∷ decimal call.port),
            length-decimal call.port,
          ))
      | inr e ↦ rw e (
          omega (arith, length-append call.host (58 ∷ decimal call.port), length-decimal call.port))
    ]

pub host_text-some : (call : RpcCall) → 0 < length (host_text call)
host_text-some call =
    unfold host_text in
    elim (Bool-cases (has_byte 58 call.host)) [
      | inl e ↦ rw e (omega arith)
      | inr e ↦ rw e (omega (arith, length-append call.host (58 ∷ decimal call.port)))
    ]

-- The request, whatever the arguments, is shorter than the room for it: it is never cut off, and
-- EOVERFLOW is never the error.
pub length-request_header : (call : RpcCall) → length (request_header call) < header_capacity call
unfolding request_header header_capacity
length-request_header call =
    let host = length-host_text call in
    let number = length-decimal (length call.body) in
    elim (Bool-cases (is_post call)) [
      | inl e ↦ rw e (omega (arith, length-pieces (post_header call)))
      | inr e ↦ rw e (omega (arith, length-pieces (get_header call)))
    ]
