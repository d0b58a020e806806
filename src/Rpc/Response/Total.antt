-- ===== src/Rpc/Response/Total.antt =====
-- The rounds of `receive_response`, for any peer.
use openwrt_nes_emulator.Base.{
  ℕ, zero, suc, ◌+◌, ◌-◌, ◌≤◌, ◌<◌, ◌≡◌, refl, ap, Bool, true, false, ◌&&◌, ◌||◌, [], ◌++◌, Option,
  none, some, length, ltb, leb, ◌==◌, if◌then◌else◌, arith, length-append, Bool-cases, Option-cases,
  trim_start, trim_end, inl, inr,
}
use openwrt_nes_emulator.Rpc.Reader.{
  eproto, efbig, Outcome, ok, err, Reader, reader_fill, Line, reader_line, reader_expect_crlf, Body,
  body_reserve, reader_append_exact, line_max, header_max, body_max,
}
use openwrt_nes_emulator.Rpc.Chunk.{
  parse_chunk_size, header_field, read_trailers, read_chunk, chunk_rounds, read_chunked_body,
}
use openwrt_nes_emulator.Rpc.Response.{
  RpcResponse, take_field, header_rounds, parse_response_headers, parse_status_line, reader_some,
  close_rounds, read_close_delimited_body, final_headers, has_content, is_some_length, read_sized,
  read_body, receive_response,
}
use openwrt_nes_emulator.Rpc.Response.Ends.{
  Ends, Ends-bind, Ends-if, Ends-map, Counts, reader_line-Counted, reader_expect_crlf-Ends, Holds,
  body_reserve-Ends, reader_append_exact-Ends,
}

-- The count behind a line.
abbrev next_total : ℕ → Option ℕ → ℕ
next_total total after = elim after [ none ↦ total | some n ↦ n ]

next_total-Counts :
    (total : ℕ) (after : Option ℕ)
    → Counts (some total) after
    → (total < next_total total after) × (next_total total after ≤ header_max)
next_total-Counts total none h = absurd h
next_total-Counts total (some n) h = h

trailers_after :
    (fuel total : ℕ) (r : Reader) (o : Outcome Line)
    → reader_line line_max (some total) r ≡ o
    → Ends (λ l. Counts (some total) l.wire_total) o
    → ((total' : ℕ) (r' : Reader)
        → total < total'
        → total' ≤ header_max
        → Ends (λ x. Unit) (read_trailers fuel total' r'))
    → Ends (λ x. Unit) (read_trailers (suc fuel) total r)
unfolding read_trailers
trailers_after fuel total r (err x) e fine h = rw (read_trailers, e) fine
trailers_after fuel total r (ok l) e fine h = elim (Bool-cases (length l.content == 0)) [
  | inl last ↦ rw (read_trailers, e, last) tt
  | inr field ↦ elim (Option-cases (header_field l.content)) [
    | inl bad ↦ rw (read_trailers, e, field, bad) (λ x. cc)
    | inr (f, good) ↦
        let (more, fits) = next_total-Counts total l.wire_total fine in
        rw (read_trailers, e, field, good) (h (next_total total l.wire_total) l.rest more fits)
  ]
]

read_trailers-Ends :
    (fuel total : ℕ) (r : Reader)
    → header_max < total + fuel
    → total ≤ header_max
    → Ends (λ x. Unit) (read_trailers fuel total r)
read_trailers-Ends zero total r enough h = absurd (omega arith)
read_trailers-Ends (suc fuel) total r enough h =
    trailers_after fuel total r (reader_line line_max (some total) r) refl
      (reader_line-Counted line_max (some total) r)
      (λ total' r' more fits. read_trailers-Ends fuel total' r' (omega arith) fits)

fields_after :
    (fuel total : ℕ) (response : RpcResponse) (r : Reader) (o : Outcome Line)
    → reader_line line_max (some total) r ≡ o
    → Ends (λ l. Counts (some total) l.wire_total) o
    → ((total' : ℕ) (response' : RpcResponse) (r' : Reader)
        → total < total'
        → total' ≤ header_max
        → Ends (λ x. Unit) (header_rounds fuel total' response' r'))
    → Ends (λ x. Unit) (header_rounds (suc fuel) total response r)
unfolding header_rounds
fields_after fuel total response r (err x) e fine h = rw (header_rounds, e) fine
fields_after fuel total response r (ok l) e fine h = elim (Bool-cases (length l.content == 0)) [
  | inl last ↦ rw (header_rounds, e, last) tt
  | inr field ↦ elim (Option-cases (header_field l.content)) [
    | inl bad ↦ rw (header_rounds, e, field, bad) (λ x. cc)
    | inr ((name, value), good) ↦
        elim (Option-cases (take_field name (trim_end (trim_start value)) response)) [
          | inl bad ↦ rw (header_rounds, e, field, good, bad) (λ x. cc)
          | inr (response', taken) ↦
              let (more, fits) = next_total-Counts total l.wire_total fine in
              rw (header_rounds, e, field, good, taken)
                (h (next_total total l.wire_total) response' l.rest more fits)
        ]
  ]
]

header_rounds-Ends :
    (fuel total : ℕ) (response : RpcResponse) (r : Reader)
    → header_max < total + fuel
    → total ≤ header_max
    → Ends (λ x. Unit) (header_rounds fuel total response r)
header_rounds-Ends zero total response r enough h = absurd (omega arith)
header_rounds-Ends (suc fuel) total response r enough h =
    fields_after fuel total response r (reader_line line_max (some total) r) refl
      (reader_line-Counted line_max (some total) r)
      (λ total' response' r' more fits.
        header_rounds-Ends fuel total' response' r' (omega arith) fits)

headers_after :
    (r : Reader) (o : Outcome Line)
    → reader_line line_max (some 0) r ≡ o
    → Ends (λ l. Counts (some 0) l.wire_total) o
    → Ends (λ x. Unit) (parse_response_headers r)
unfolding parse_response_headers
headers_after r (err x) e fine = rw (parse_response_headers, e) (λ y. cc)
headers_after r (ok l) e fine = elim (Option-cases (parse_status_line l.content)) [
  | inl bad ↦ rw (parse_response_headers, e, bad) (λ x. cc)
  | inr (status, good) ↦
      let (more, fits) = next_total-Counts 0 l.wire_total fine in
      rw (parse_response_headers, e, good)
        (header_rounds-Ends (header_max + 1) (next_total 0 l.wire_total)
          (record { status = status; content_length = none; chunked = false }) l.rest (omega arith)
          fits)
]

parse_response_headers-Ends : (r : Reader) → Ends (λ x. Unit) (parse_response_headers r)
parse_response_headers-Ends r =
    headers_after r (reader_line line_max (some 0) r) refl (reader_line-Counted line_max (some 0) r)

-- A body within the bound.
abbrev pub Within : Body × Reader → Type 0
Within (body, r) = length body.content ≤ body_max

read_chunk-Ends :
    (memory : Bool) (size : ℕ) (body : Body) (r : Reader)
    → length body.content ≤ body_max
    → Ends (Holds (length body.content) size) (read_chunk memory size body r)
unfolding read_chunk
read_chunk-Ends memory size body r h =
    Ends-bind (Holds (length body.content) size) (Holds (length body.content) size)
      (reader_append_exact memory size body r) _ (reader_append_exact-Ends memory size body r h)
      (λ (body', r1) held.
        Ends-bind (λ x. Unit) (Holds (length body.content) size) (reader_expect_crlf r1) _
          (reader_expect_crlf-Ends r1) (λ r2 x. held))

chunk_after :
    (fuel size : ℕ) (memory : Bool) (body : Body) (r : Reader) (o : Outcome (Body × Reader))
    → read_chunk memory size body r ≡ o
    → Ends (Holds (length body.content) size) o
    → 0 < size
    → ((body' : Body) (r' : Reader)
        → length body.content < length body'.content
        → length body'.content ≤ body_max
        → Ends Within (chunk_rounds fuel memory body' r'))
    → Ends Within (elim o [ err e ↦ err e | ok (body', r') ↦ chunk_rounds fuel memory body' r' ])
chunk_after fuel size memory body r (err x) e fine some_byte h = fine
chunk_after fuel size memory body r (ok (body', r')) e fine some_byte h =
    h body' r' (omega arith) fine.1

sizes_after :
    (fuel : ℕ) (memory : Bool) (body : Body) (r : Reader) (o : Outcome Line)
    → reader_line line_max none r ≡ o
    → length body.content ≤ body_max
    → ((body' : Body) (r' : Reader)
        → length body.content < length body'.content
        → length body'.content ≤ body_max
        → Ends Within (chunk_rounds fuel memory body' r'))
    → Ends Within (chunk_rounds (suc fuel) memory body r)
unfolding chunk_rounds
sizes_after fuel memory body r (err x) e small h = rw (chunk_rounds, e) (λ y. cc)
sizes_after fuel memory body r (ok l) e small h = elim (Option-cases (parse_chunk_size l.content)) [
  | inl bad ↦ rw (chunk_rounds, e, bad) (λ y. cc)
  | inr (size, good) ↦ elim (Bool-cases (ltb (body_max - length body.content) size)) [
    | inl big ↦ rw (chunk_rounds, e, good, big) (λ y. cc)
    | inr fits ↦ elim (Bool-cases (size == 0)) [
      | inl last ↦
          rw (chunk_rounds, e, good, fits, last)
            (Ends-bind (λ x. Unit) Within (read_trailers (header_max + 1) 0 l.rest) _
              (read_trailers-Ends (header_max + 1) 0 l.rest (omega arith) (omega arith))
              (λ r' x. small))
      | inr more ↦
          rw (chunk_rounds, e, good, fits, more)
            (chunk_after fuel size memory body l.rest (read_chunk memory size body l.rest) refl
              (read_chunk-Ends memory size body l.rest small) (ground arith) h)
    ]
  ]
]

chunk_rounds-Ends :
    (fuel : ℕ) (memory : Bool) (body : Body) (r : Reader)
    → body_max < length body.content + fuel
    → length body.content ≤ body_max
    → Ends Within (chunk_rounds fuel memory body r)
chunk_rounds-Ends zero memory body r enough h = absurd (omega arith)
chunk_rounds-Ends (suc fuel) memory body r enough h =
    sizes_after fuel memory body r (reader_line line_max none r) refl h
      (λ body' r' more fits. chunk_rounds-Ends fuel memory body' r' (omega arith) fits)

some_after :
    (r : Reader) → Ends (λ (more, r'). (more ≡ true) → 0 < length r'.buffer) (reader_some r)
unfolding reader_some reader_fill
some_after r = ground arith

reserved_after :
    (fuel : ℕ) (memory : Bool) (body : Body) (r' : Reader) (o : Outcome Body)
    → Ends
        (λ body'.
          (body'.content ≡ body.content) × (length body.content + length r'.buffer ≤ body_max))
        o
    → 0 < length r'.buffer
    → ((body' : Body) (r2 : Reader)
        → length body.content < length body'.content
        → length body'.content ≤ body_max
        → Ends Within (close_rounds fuel memory body' r2))
    → Ends Within (elim o [
      | err e ↦ err e
      | ok body' ↦
          close_rounds fuel memory
            (record body' { content = body'.content ++ r'.buffer })
            (record r' { buffer = [] })
    ])
reserved_after fuel memory body r' (err x) fine some_byte h = fine
reserved_after fuel memory body r' (ok body') (same, fits) some_byte h =
    let size : length (body'.content ++ r'.buffer) ≡ length body.content + length r'.buffer =
      omega (arith, length-append body'.content r'.buffer, ap length same) in
    h (record body' { content = body'.content ++ r'.buffer }) (record r' { buffer = [] })
      (omega arith) (omega arith)

close_after :
    (fuel : ℕ) (memory : Bool) (body : Body) (r : Reader) (o : Outcome (Bool × Reader))
    → reader_some r ≡ o
    → Ends (λ (more, r'). (more ≡ true) → 0 < length r'.buffer) o
    → length body.content ≤ body_max
    → ((body' : Body) (r' : Reader)
        → length body.content < length body'.content
        → length body'.content ≤ body_max
        → Ends Within (close_rounds fuel memory body' r'))
    → Ends Within (close_rounds (suc fuel) memory body r)
unfolding close_rounds
close_after fuel memory body r (err x) e fine small h = rw (close_rounds, e) fine
close_after fuel memory body r (ok (false, r')) e fine small h = rw (close_rounds, e) small
close_after fuel memory body r (ok (true, r')) e fine small h =
    rw (close_rounds, e)
      (reserved_after fuel memory body r' (body_reserve memory (length r'.buffer) body)
        (body_reserve-Ends memory (length r'.buffer) body small) (fine refl) h)

close_rounds-Ends :
    (fuel : ℕ) (memory : Bool) (body : Body) (r : Reader)
    → body_max < length body.content + fuel
    → length body.content ≤ body_max
    → Ends Within (close_rounds fuel memory body r)
close_rounds-Ends zero memory body r enough h = absurd (omega arith)
close_rounds-Ends (suc fuel) memory body r enough h =
    close_after fuel memory body r (reader_some r) refl (some_after r) h
      (λ body' r' more fits. close_rounds-Ends fuel memory body' r' (omega arith) fits)

final_after :
    (fuel interim : ℕ) (r : Reader) (o : Outcome (RpcResponse × Reader))
    → parse_response_headers r ≡ o
    → Ends (λ x. Unit) o
    → ((r' : Reader) → interim + 1 < 5 → Ends (λ x. Unit) (final_headers fuel (interim + 1) r'))
    → Ends (λ x. Unit) (final_headers (suc fuel) interim r)
unfolding final_headers
final_after fuel interim r (err x) e fine h = rw (final_headers, e) fine
final_after fuel interim r (ok (response, r')) e fine h =
    elim (Bool-cases (leb 200 response.status || ltb response.status 100)) [
      | inl last ↦ rw (final_headers, e, last) tt
      | inr more ↦
          elim (Bool-cases (
            response.status == 101
            || ltb 4 (interim + 1)
            || response.chunked
            || has_content response)) [
              | inl bad ↦ rw (final_headers, e, more, bad) (λ x. cc)
              | inr empty ↦ rw (final_headers, e, more, empty) (h r' (ground arith))
            ]
    ]

final_headers-Ends :
    (fuel interim : ℕ) (r : Reader)
    → 5 ≤ interim + fuel
    → interim < 5
    → Ends (λ x. Unit) (final_headers fuel interim r)
final_headers-Ends zero interim r enough h = absurd (omega arith)
final_headers-Ends (suc fuel) interim r enough h =
    final_after fuel interim r (parse_response_headers r) refl (parse_response_headers-Ends r)
      (λ r' few. final_headers-Ends fuel (interim + 1) r' (omega arith) few)

read_chunked_body-Ends :
    (memory : Bool) (body : Body) (r : Reader)
    → length body.content ≤ body_max
    → Ends Within (read_chunked_body memory body r)
unfolding read_chunked_body
read_chunked_body-Ends memory body r h =
    chunk_rounds-Ends (body_max + 1) memory body r (omega arith) h

read_close_delimited_body-Ends :
    (memory : Bool) (body : Body) (r : Reader)
    → length body.content ≤ body_max
    → Ends Within (read_close_delimited_body memory body r)
unfolding read_close_delimited_body
read_close_delimited_body-Ends memory body r h =
    close_rounds-Ends (body_max + 2) memory body r (omega arith) h

read_sized-Ends :
    (memory : Bool) (n : Option ℕ) (body : Body) (r : Reader)
    → length body.content ≤ body_max
    → Ends Within (read_sized memory n body r)
unfolding read_sized
read_sized-Ends memory none body r h = read_close_delimited_body-Ends memory body r h
read_sized-Ends memory (some n) body r h =
    Ends-if Within (ltb body_max n) (err efbig) (reader_append_exact memory n body r) (λ x. cc)
      (Ends-map (Holds (length body.content) n) Within (reader_append_exact memory n body r)
        (λ (b, r') held. held.1) (reader_append_exact-Ends memory n body r h))

read_body-Ends :
    (memory : Bool) (response : RpcResponse) (body : Body) (r : Reader)
    → length body.content ≤ body_max
    → Ends Within (read_body memory response body r)
unfolding read_body
read_body-Ends memory response body r h =
    let chunks = read_chunked_body memory body r in
    let sized = read_sized memory response.content_length body r in
    let empty : Outcome (Body × Reader) =
      if response.chunked || has_content response then err eproto else ok (body, r) in
    Ends-if Within (response.status == 204 || response.status == 304) empty
      (if response.chunked then chunks else sized)
      (Ends-if Within (response.chunked || has_content response) (err eproto) (ok (body, r))
        (λ x. cc) h)
      (Ends-if Within response.chunked chunks sized (read_chunked_body-Ends memory body r h)
        (read_sized-Ends memory response.content_length body r h))

-- Whatever the peer sends and in whatever pieces, receiving a response ends, without running out of
-- rounds: with an error of the program, or with a body of 512 KiB at most.
pub receive_response-Ends :
    (memory : Bool) (body : Body) (r : Reader)
    → length body.content ≤ body_max
    → Ends (λ (status, body'). length body'.content ≤ body_max) (receive_response memory body r)
unfolding receive_response
receive_response-Ends memory body r h =
    Ends-bind (λ x. Unit) (λ (status, body'). length body'.content ≤ body_max) (final_headers 5 0 r)
      _ (final_headers-Ends 5 0 r (omega arith) (omega arith))
      (λ (response, r') x.
        Ends-if (λ (status, body'). length body'.content ≤ body_max)
          (response.chunked && is_some_length response) (err eproto) _ (λ y. cc)
          (Ends-bind Within (λ (status, body'). length body'.content ≤ body_max)
            (read_body memory response body r') _ (read_body-Ends memory response body r' h)
            (λ (body', r'') held. held)))
