-- ===== src/Loopback/Fields.antt =====
-- The header fields that `rpc_client_request` (package/nes-emulator/src/rpc_client.c) writes, as
-- `parse_request` (package/nes-emulator/src/http.c) takes them.
use openwrt_nes_emulator.Base.{
  has_byte, all_of, ℕ, ◌<◌, ◌≡◌, refl, Bool, true, false, ◌||◌, List, [], ◌∷◌, ◌++◌, none, some,
  Bytes, length, ltb, leb, ◌==◌, within, if◌then◌else◌, arith, All, is_blank, trim_end, codes,
  same_bytes, decimal, parse_decimal-decimal, parse_decimal_iff, is_digit, u64_mod, Bool-cases, inl,
  inr,
}
use mathlib.Core.List.{append_assoc}
use openwrt_nes_emulator.Http.Request.{
  RequestInfo, token_char, trim_value, contains_ctl_or_crlf, take_header, take_length,
  parse_content_length_value, target_char, path_of, blank_request, parsed, parse_request,
}
use openwrt_nes_emulator.Http.Request.Print.{
  IsToken, IsValue, http11, print_request, print_fields, take_fields,
}
use openwrt_nes_emulator.Rpc.Arguments.{
  RpcCall, is_post, token_byte, path_byte, host_text, pieces, post_header, get_header,
}

-- The fields that follow the request line.
unfoldable pub post_fields : RpcCall → List (Bytes × Bytes)
post_fields call =
    (codes "Host", host_text call)
    ∷ (codes "Authorization", codes "Bearer " ++ call.auth_token)
    ∷ (codes "Accept", codes "application/json")
    ∷ (codes "Accept-Encoding", codes "identity")
    ∷ (codes "Content-Type", codes "application/json")
    ∷ (codes "Content-Length", decimal (length call.body))
    ∷ (codes "Connection", codes "close")
    ∷ (codes "User-Agent", codes "nesd-loopback-rpc/1")
    ∷ []

unfoldable pub get_fields : RpcCall → List (Bytes × Bytes)
get_fields call =
    (codes "Host", host_text call)
    ∷ (codes "Authorization", codes "Bearer " ++ call.auth_token)
    ∷ (codes "Accept", codes "application/json")
    ∷ (codes "Accept-Encoding", codes "identity")
    ∷ (codes "Connection", codes "close")
    ∷ (codes "User-Agent", codes "nesd-loopback-rpc/1")
    ∷ []

pub post-printed :
    (call : RpcCall)
    → pieces (post_header call) ≡ print_request (codes "POST") call.path http11 (post_fields call)
unfolding print_request print_fields post_fields
post-printed call =
    rw (append_assoc call.path (32 ∷ http11) (13 ∷ 10 ∷ print_fields (post_fields call))) refl

-- Visible characters.
abbrev pub IsGraphic : Bytes → Type 0
IsGraphic = All (λ c. within 33 126 c ≡ true)

graphic-trim : (s : Bytes) → IsGraphic s → trim_end s ≡ s
graphic-trim [] h = refl
graphic-trim (c ∷ s) h =
    let e : is_blank c ≡ false = ground arith in rw (e, graphic-trim s h.1) refl

graphic-clean : (s : Bytes) → IsGraphic s → contains_ctl_or_crlf s ≡ false
unfolding contains_ctl_or_crlf
graphic-clean [] h = refl
graphic-clean (c ∷ s) h =
    let low : ltb c 0x20 ≡ false = ground arith in
    let del : (c == 0x7f) ≡ false = ground arith in rw (low, del, graphic-clean s h.1) refl

pub graphic-IsValue : (s : Bytes) → IsGraphic s → IsValue s
unfolding trim_value
graphic-IsValue [] h = (refl, graphic-clean [] h)
graphic-IsValue (c ∷ s) h =
    let e : is_blank c ≡ false = ground arith in
    (rw e (graphic-trim (c ∷ s) h), graphic-clean (c ∷ s) h)

pub bearer-IsValue :
    (token : Bytes) → IsGraphic token → 0 < length token → IsValue (codes "Bearer " ++ token)
unfolding trim_value contains_ctl_or_crlf
bearer-IsValue token h some_token =
    let e : (length token == 0) ≡ false = ground arith in
    (rw (graphic-trim token h, e) refl, graphic-clean token h)

pub each-All : (test : ℕ → Bool) (s : Bytes) → all_of test s ≡ true → All (λ c. test c ≡ true) s
each-All test [] e = tt
each-All test (c ∷ s) e = (ground arith, each-All test s (ground arith))

literal : (test : ℕ → Bool) (s : Bytes) → all_of test s ≡ true → All (λ c. test c ≡ true) s
literal test [] e = tt
literal test (c ∷ s) e = (ground arith, literal test s (ground arith))

pub get-printed :
    (call : RpcCall)
    → pieces (get_header call) ≡ print_request (codes "GET") call.path http11 (get_fields call)
unfolding print_request print_fields get_fields
get-printed call =
    rw (append_assoc call.path (32 ∷ http11) (13 ∷ 10 ∷ print_fields (get_fields call))) refl

-- The request as the server keeps it.
unfoldable pub understood : RpcCall → RequestInfo
understood call =
    let r = record (blank_request call.method call.path) {
      host = some (host_text call);
      authorization = some (codes "Bearer " ++ call.auth_token);
    } in
    if is_post call
    then record r {
      content_type = some (codes "application/json");
      content_length = some (length call.body);
    }
    else r

host-taken :
    (value : Bytes) (r : RequestInfo)
    → r.host ≡ none
    → leb 256 (length value) ≡ false
    → take_header (codes "Host") value r ≡ some (record r { host = some value })
unfolding take_header openwrt_nes_emulator.Http.Request.take_text
    openwrt_nes_emulator.Http.Request.copy_header_once
host-taken value r e fits = rw (e, fits) refl

bearer-taken :
    (value : Bytes) (r : RequestInfo)
    → r.authorization ≡ none
    → leb 256 (length value) ≡ false
    → take_header (codes "Authorization") value r ≡ some (record r { authorization = some value })
unfolding take_header openwrt_nes_emulator.Http.Request.take_text
    openwrt_nes_emulator.Http.Request.copy_header_once
bearer-taken value r e fits = rw (e, fits) refl

length-taken :
    (n : ℕ) (r : RequestInfo)
    → r.content_length ≡ none
    → n < u64_mod
    → take_header (codes "Content-Length") (decimal n) r
      ≡ some (record r { content_length = some n })
unfolding take_header take_length parse_content_length_value
length-taken n r e small =
    rw (take_header, take_length, parse_content_length_value, parse_decimal-decimal n small, e) refl

pub post-taken :
    (call : RpcCall)
    → length (host_text call) < 256
    → length call.auth_token < 128
    → length call.body < u64_mod
    → same_bytes call.method (codes "POST") ≡ true
    → take_fields (post_fields call) (blank_request call.method call.path) ≡ some (understood call)
unfolding take_fields post_fields understood take_header
    openwrt_nes_emulator.Http.Request.header_has_token
    openwrt_nes_emulator.Http.Request.token_rounds
post-taken call host token body post =
    let host_fits : leb 256 (length (host_text call)) ≡ false = ground arith in
    let token_fits : leb 256 (length (codes "Bearer " ++ call.auth_token)) ≡ false = ground arith in
    let r0 = blank_request call.method call.path in
    let r1 = record r0 { host = some (host_text call) } in
    let r2 = record r1 { authorization = some (codes "Bearer " ++ call.auth_token) } in
    let r3 = record r2 { content_type = some (codes "application/json") } in
    rw
      (
        take_fields,
        host-taken (host_text call) r0 refl host_fits,
        bearer-taken (codes "Bearer " ++ call.auth_token) r1 refl token_fits,
        length-taken (length call.body) r3 refl body,
        post,
      )
      refl

pub get-taken :
    (call : RpcCall)
    → length (host_text call) < 256
    → length call.auth_token < 128
    → same_bytes call.method (codes "POST") ≡ false
    → take_fields (get_fields call) (blank_request call.method call.path) ≡ some (understood call)
unfolding take_fields get_fields understood take_header
    openwrt_nes_emulator.Http.Request.header_has_token
    openwrt_nes_emulator.Http.Request.token_rounds
get-taken call host token post =
    let host_fits : leb 256 (length (host_text call)) ≡ false = ground arith in
    let token_fits : leb 256 (length (codes "Bearer " ++ call.auth_token)) ≡ false = ground arith in
    let r0 = blank_request call.method call.path in
    let r1 = record r0 { host = some (host_text call) } in
    rw
      (
        take_fields,
        host-taken (host_text call) r0 refl host_fits,
        bearer-taken (codes "Bearer " ++ call.auth_token) r1 refl token_fits,
        post,
      )
      refl

-- The characters of a numeric address.
abbrev pub address_byte : ℕ → Bool
address_byte c = within 48 58 c || within 65 70 c || within 97 102 c || c == 46

IsGraphic-append : (s t : Bytes) → IsGraphic s → IsGraphic t → IsGraphic (s ++ t)
IsGraphic-append [] t hs ht = ht
IsGraphic-append (c ∷ s) t hs ht = (hs.0, IsGraphic-append s t hs.1 ht)

pub IsGraphic-from :
    (test : ℕ → Bool)
    → ((c : ℕ) → test c ≡ true → within 33 126 c ≡ true)
    → (s : Bytes) → All (λ c. test c ≡ true) s
    → IsGraphic s
IsGraphic-from test visible [] h = tt
IsGraphic-from test visible (c ∷ s) h = (visible c h.0, IsGraphic-from test visible s h.1)

digit-visible : (c : ℕ) → is_digit c ≡ true → within 33 126 c ≡ true
digit-visible c h = ground arith

address-visible : (c : ℕ) → address_byte c ≡ true → within 33 126 c ≡ true
address-visible c h = ground arith

pub token-visible : (c : ℕ) → token_byte c ≡ true → within 33 126 c ≡ true
unfolding token_byte
token-visible c h = ground arith

pub path-visible : (c : ℕ) → path_byte c ≡ true → target_char c ≡ true
unfolding path_byte
path-visible c h = ground arith

pub decimal-IsGraphic : (n : ℕ) → n < u64_mod → IsGraphic (decimal n)
decimal-IsGraphic n h =
    IsGraphic-from is_digit digit-visible (decimal n)
      ((parse_decimal_iff (decimal n) n).0 (parse_decimal-decimal n h)).1

pub host_text-IsGraphic :
    (call : RpcCall)
    → All (λ c. address_byte c ≡ true) call.host
    → call.port < u64_mod
    → IsGraphic (host_text call)
host_text-IsGraphic call h port =
    let host = IsGraphic-from address_byte address-visible call.host h in
    let number = decimal-IsGraphic call.port port in
    unfold host_text in
    elim (Bool-cases (has_byte 58 call.host)) [
      | inl e ↦ rw e (
        refl,
        IsGraphic-append call.host (93 ∷ 58 ∷ decimal call.port) host (refl, (refl, number)),
      )
      | inr e ↦ rw e (IsGraphic-append call.host (58 ∷ decimal call.port) host (refl, number))
    ]

pub literal-IsToken : (s : Bytes) → 0 < length s → all_of token_char s ≡ true → IsToken s
literal-IsToken s some_name e = (some_name, literal token_char s e)
