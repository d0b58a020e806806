-- ===== src/Rpc/Tests.antt =====
-- The theorems on the client at short responses and texts.
use openwrt_nes_emulator.Base.{
  ◌≤◌, ◌<◌, ◌≡◌, ◌≢◌, ◌↔◌, inl, refl, true, [], ◌∷◌, some, length, arith, codes, parse_decimal,
  parse_decimal_iff, decimal, parse_decimal-decimal, AreDigits, decimal_value, u64_mod,
}
use openwrt_nes_emulator.Rpc.Reader.{ok, arrives, closed, Reader, Body, body_max}
use openwrt_nes_emulator.Rpc.Reader.Stream.{unread, incoming_bytes}
use openwrt_nes_emulator.Rpc.Chunk.{read_chunked_body}
use openwrt_nes_emulator.Rpc.Chunk.Decode.{Chunk, trailer_lines, encoded, read_chunked_body-encoded}
use openwrt_nes_emulator.Rpc.Response.{receive_response}
use openwrt_nes_emulator.Rpc.Response.Ends.{Ends}
use openwrt_nes_emulator.Rpc.Response.Total.{receive_response-Ends}
use openwrt_nes_emulator.Rpc.Arguments.{RpcCall, request_header, header_capacity}
use openwrt_nes_emulator.Rpc.Arguments.Room.{length-request_header}

-- `{"a":1}` in two chunks, with the extension `;b`, a size in two digits and the trailer field `t:v`;
-- the first chunk is cut in two by the network.
abbrev first_chunk : Chunk
first_chunk = record { digits = codes "5"; extension = codes ";b"; payload = codes "{\"a\":" }

abbrev second_chunk : Chunk
second_chunk = record { digits = codes "02"; extension = []; payload = codes "1}" }

abbrev two_chunks : Reader
two_chunks = record {
  buffer = 53 ∷ 59 ∷ 98 ∷ 13 ∷ 10 ∷ 123 ∷ 34 ∷ [];
  incoming =
      arrives 97
        (34 ∷ 58 ∷ 13 ∷ 10 ∷ 48 ∷ 50 ∷ 13 ∷ 10 ∷ 49 ∷ 125 ∷ 13 ∷ 10 ∷ 48 ∷ 13 ∷ 10 ∷ 116 ∷ 58 ∷ 118
          ∷ 13 ∷ 10 ∷ 13 ∷ 10 ∷ [])
        closed;
}

read_chunked_body-encoded_example :
    (body' : Body) × (r' : Reader) × (read_chunked_body true
        (record { content = []; capacity = 0 })
        two_chunks
      ≡ ok (body', r'))
    × (body'.content ≡ codes "{\"a\":1}")
    × (unread r' ≡ [])
read_chunked_body-encoded_example =
    read_chunked_body-encoded (first_chunk ∷ second_chunk ∷ []) (codes "0") []
      ((codes "t", codes "v") ∷ []) [] two_chunks
      (unfold unread incoming_bytes encoded trailer_lines in refl)
      (
        (
          omega arith,
          (omega arith, (5, inl (omega arith), refl), (refl, (omega arith, tt)), omega arith),
        ),
        (
          (
            omega arith,
            (omega arith, (0, inl (omega arith), (2, inl (omega arith), refl)), tt, omega arith),
          ),
          tt,
        ),
      )
      (omega arith, (0, inl (omega arith), refl), tt, omega arith)
      ((omega arith, (refl, tt), (omega arith, tt), omega arith), tt) (omega arith) (omega arith)

receive_response-Ends_example :
    Ends
      (λ (status, body'). length body'.content ≤ body_max)
      (receive_response true (record { content = []; capacity = 0 }) two_chunks)
receive_response-Ends_example =
    receive_response-Ends true (record { content = []; capacity = 0 }) two_chunks (omega arith)

abbrev status_call : RpcCall
status_call = record {
  host = codes "::1";
  port = 8080;
  path = codes "/api/status";
  method = codes "GET";
  body = [];
  auth_token = codes "0123456789abcdef0123456789abcdef";
  timeout_ms = 2000;
}

length-request_header_example : length (request_header status_call) < header_capacity status_call
length-request_header_example = length-request_header status_call

parse_decimal_iff_example : (parse_decimal (codes "042") ≡ some 42) ↔ (
    (codes "042" ≢ [])
    × AreDigits (codes "042")
    × (decimal_value 0 (codes "042") ≡ 42)
    × (42 < u64_mod))
parse_decimal_iff_example = parse_decimal_iff (codes "042") 42

parse_decimal-decimal_example : parse_decimal (decimal 65536) ≡ some 65536
parse_decimal-decimal_example = parse_decimal-decimal 65536 (omega arith)
