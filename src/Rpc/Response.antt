-- ===== src/Rpc/Response.antt =====
-- `parse_status_line`, `parse_response_headers`, `read_close_delimited_body` and `receive_response`
-- of package/nes-emulator/src/rpc_client.c.
pub mod Ends
pub mod Total
use openwrt_nes_emulator.Base.{
  ℕ, zero, suc, ◌+◌, ◌-◌, ◌*◌, Bool, true, false, not, ◌&&◌, ◌||◌, [], ◌∷◌, ◌++◌, Option, none,
  some, Bytes, length, take, drop, get_or, ltb, leb, ◌==◌, within, if◌then◌else◌, parse_decimal,
  is_digit, codes, same_bytes, same_letters, trim_start, trim_end,
}
use openwrt_nes_emulator.Rpc.Reader.{
  Outcome, ok, err, eproto, efbig, out_of_rounds, bind, Reader, Line, reader_fill, reader_line,
  Body, body_reserve, reader_append_exact, line_max, body_max, header_max,
}
use openwrt_nes_emulator.Rpc.Chunk.{header_field, read_chunked_body}

pub record RpcResponse : Type 0 where
  pub status : ℕ
  pub content_length : Option ℕ
  pub chunked : Bool

-- Three digits at the ninth character, and nothing or a space behind them.
unfoldable pub parse_status_line : Bytes → Option ℕ
parse_status_line line =
    let front = take 9 line in
    let c0 = get_or line 9 0 in
    let c1 = get_or line 10 0 in
    let c2 = get_or line 11 0 in
    let c3 = get_or line 12 0 in
    let status = (c0 - 48) * 100 + (c1 - 48) * 10 + c2 - 48 in
    if not (same_bytes front (codes "HTTP/1.1 ") || same_bytes front (codes "HTTP/1.0 "))
    then none
    else if not (is_digit c0) || not (is_digit c1) || not (is_digit c2) || not (c3 == 0 || c3 == 32)
    then none
    else if leb 100 status && leb status 599
    then some status
    else none

abbrev pub conflicts : Option ℕ → ℕ → Bool
conflicts none n = false
conflicts (some m) n = not (m == n)

-- A header field, taken into the response.
unfoldable pub take_field : Bytes → Bytes → RpcResponse → Option RpcResponse
take_field name value response =
    if same_letters name (codes "Content-Length")
    then elim (parse_decimal value) [
      | none ↦ none
      | some n ↦
          if conflicts response.content_length n
          then none
          else some (record response { content_length = some n })
    ]
    else if same_letters name (codes "Transfer-Encoding")
    then (if response.chunked || not (same_letters value (codes "chunked"))
        then none
        else some (record response { chunked = true }))
    else some response

-- The loop over the header lines; each has two bytes at least, of `RPC_HEADER_MAX` in all.
unfoldable pub header_rounds : ℕ → ℕ → RpcResponse → Reader → Outcome (RpcResponse × Reader)
header_rounds zero total response r = err out_of_rounds
header_rounds (suc fuel) total response r = elim (reader_line line_max (some total) r) [
  | err e ↦ err e
  | ok l ↦ elim (length l.content == 0) [
    | true ↦ ok (response, l.rest)
    | false ↦ elim (header_field l.content) [
      | none ↦ err eproto
      | some (name, value) ↦ elim (take_field name (trim_end (trim_start value)) response) [
        | none ↦ err eproto
        | some response' ↦
            header_rounds fuel (elim l.wire_total [ none ↦ total | some n ↦ n ]) response' l.rest
      ]
    ]
  ]
]

unfoldable pub parse_response_headers : Reader → Outcome (RpcResponse × Reader)
parse_response_headers r = elim (reader_line line_max (some 0) r) [
  | err e ↦ err eproto
  | ok l ↦ elim (parse_status_line l.content) [
    | none ↦ err eproto
    | some status ↦
        header_rounds (header_max + 1) (elim l.wire_total [ none ↦ 0 | some n ↦ n ])
          (record { status = status; content_length = none; chunked = false }) l.rest
  ]
]

-- A reader with something in its buffer, unless the connection has ended.
unfoldable pub reader_some : Reader → Outcome (Bool × Reader)
reader_some r = elim r.buffer [ b ∷ bs ↦ ok (true, r) | [] ↦ reader_fill r ]

-- A round appends what the buffer holds, a byte at least; filled anew, it is not empty.
unfoldable pub close_rounds : ℕ → Bool → Body → Reader → Outcome (Body × Reader)
close_rounds zero memory body r = err out_of_rounds
close_rounds (suc fuel) memory body r = elim (reader_some r) [
  | err e ↦ err e
  | ok (false, r') ↦ ok (body, r')
  | ok (true, r') ↦ elim (body_reserve memory (length r'.buffer) body) [
    | err e ↦ err e
    | ok body' ↦
        close_rounds fuel memory (record body' { content = body'.content ++ r'.buffer })
          (record r' { buffer = [] })
  ]
]

unfoldable pub read_close_delimited_body : Bool → Body → Reader → Outcome (Body × Reader)
unfolding close_rounds
read_close_delimited_body = close_rounds (body_max + 2)

-- An interim response must be empty and no change of protocol.
abbrev pub has_content : RpcResponse → Bool
has_content response = elim response.content_length [ none ↦ false | some n ↦ not (n == 0) ]

-- The first loop of `receive_response`; `interim` responses came before.
unfoldable pub final_headers : ℕ → ℕ → Reader → Outcome (RpcResponse × Reader)
final_headers zero interim r = err out_of_rounds
final_headers (suc fuel) interim r = elim (parse_response_headers r) [
  | err e ↦ err e
  | ok (response, r') ↦ elim (leb 200 response.status || ltb response.status 100) [
    | true ↦ ok (response, r')
    | false ↦
        elim (response.status == 101
          || ltb 4 (interim + 1)
          || response.chunked
          || has_content response) [
            | true ↦ err eproto
            | false ↦ final_headers fuel (interim + 1) r'
          ]
  ]
]

abbrev pub is_some_length : RpcResponse → Bool
is_some_length response = elim response.content_length [ none ↦ false | some _ ↦ true ]

-- A body with a length or without.
unfoldable pub read_sized : Bool → Option ℕ → Body → Reader → Outcome (Body × Reader)
read_sized memory (some n) body r =
    if ltb body_max n then err efbig else reader_append_exact memory n body r
read_sized memory none body r = read_close_delimited_body memory body r

-- The body by what the headers say.
unfoldable pub read_body : Bool → RpcResponse → Body → Reader → Outcome (Body × Reader)
read_body memory response body r =
    if response.status == 204 || response.status == 304
    then (if response.chunked || has_content response then err eproto else ok (body, r))
    else if response.chunked
    then read_chunked_body memory body r
    else read_sized memory response.content_length body r

-- The status with the body.
unfoldable pub receive_response : Bool → Body → Reader → Outcome (ℕ × Body)
receive_response memory body r = bind (final_headers 5 0 r) λ (response, r').
    if response.chunked && is_some_length response
    then err eproto
    else bind (read_body memory response body r') λ (body', r''). ok (response.status, body')
