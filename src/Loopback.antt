-- ===== src/Loopback.antt =====
-- The client of package/nes-emulator/src/rpc_client.c asks the server of
-- package/nes-emulator/src/http.c: the request that the one writes, as the other reads it.
mod Fields
mod Tests
use openwrt_nes_emulator.Base.{
  IsText, has_byte, all_of, ℕ, ◌+◌, ◌*◌, ◌≤◌, ◌<◌, ◌≡◌, refl, ap, sym, ◌∙◌, Bool, true, false, ◌&&◌,
  ◌==◌, List, [], ◌∷◌, ◌++◌, some, Bytes, length, get_or, ltb, leb, if◌then◌else◌, arith, All,
  codes, decimal, same_bytes, same_bytes-eq, u64_mod, Bool-cases, and_split, leb→le, within, ◌||◌,
  inl, inr,
}
use mathlib.Core.Path.{subst}
use openwrt_nes_emulator.Http.Request.{
  RequestInfo, text_of, token_char, trim_value, contains_ctl_or_crlf, take_header, path_of,
  blank_request, parsed, parse_request, target_char,
}
use openwrt_nes_emulator.Http.Request.Print.{
  IsValue, AreFields, IsTarget, http11, print_request, take_fields, parse_request-print_request,
}
use openwrt_nes_emulator.Http.Auth.{request_authorized, bearer_token, token_max, found}
use openwrt_nes_emulator.Http.Auth.Access.{request_authorized-lookups}
use openwrt_nes_emulator.Rpc.Arguments.{
  RpcCall, is_post, is_get, token_byte, token_valid, pieces, path_byte, path_valid, arguments_valid,
  host_text, post_header, get_header, request_header, header_capacity, body_fits,
}
use openwrt_nes_emulator.Rpc.Arguments.Room.{
  length-request_header, length-host_text, host_text-some,
}
use Fields.{
  post_fields, get_fields, understood, post-printed, get-printed, bearer-IsValue, graphic-IsValue,
  each-All, post-taken, get-taken, IsGraphic-from, token-visible, path-visible, decimal-IsGraphic,
  host_text-IsGraphic, literal-IsToken, address_byte, IsGraphic,
}

-- What the arguments that are let through look like.
record Fine (call : RpcCall) : Type 0 where
  host : All (λ c. address_byte c ≡ true) call.host
  host_room : length call.host ≤ 45
  port : call.port ≤ 65535
  method : is_get call || is_post call ≡ true
  slash : get_or call.path 0 0 ≡ 47
  visible : All (λ c. target_char c ≡ true) call.path
  token : IsGraphic call.auth_token
  token_some : 0 < length call.auth_token
  token_room : length call.auth_token < 128

bearer-read :
    (token : Bytes)
    → IsGraphic token
    → 0 < length token
    → length token < 128
    → bearer_token token_max (codes "Bearer " ++ token) ≡ found token
unfolding bearer_token trim_value
bearer-read token h some_token fits =
    let trimmed = (graphic-IsValue token h).0 in
    let e : (length token == 0) ≡ false = ground arith in
    let f : leb 128 (length token) ≡ false = ground arith in
    let g : (length (codes "Bearer " ++ token) == 0) ≡ false = ground arith in
    rw (bearer_token, trimmed, e, f, g) refl

graphic-IsText : (s : Bytes) → IsGraphic s → IsText s
graphic-IsText [] h = tt
graphic-IsText (c ∷ s) h = (ground arith, graphic-IsText s h.1)

understood-authorization :
    (call : RpcCall) → text_of (understood call).authorization ≡ codes "Bearer " ++ call.auth_token
understood-authorization call =
    unfold understood in elim (Bool-cases (is_post call)) [ inl e ↦ rw e refl | inr e ↦ rw e refl ]

module _ (call : RpcCall) (fine : Fine call) where
  host-IsValue : IsValue (host_text call)
  host-IsValue =
      graphic-IsValue (host_text call)
        (host_text-IsGraphic call fine.host (omega (arith, fine.port)))

  token-IsValue : IsValue (codes "Bearer " ++ call.auth_token)
  token-IsValue = bearer-IsValue call.auth_token fine.token fine.token_some

  post-AreFields : length call.body < u64_mod → AreFields (post_fields call)
  unfolding post_fields token_char trim_value contains_ctl_or_crlf
  post-AreFields small = (
    (literal-IsToken (codes "Host") (omega arith) refl, host-IsValue),
    (
      (literal-IsToken (codes "Authorization") (omega arith) refl, token-IsValue),
      (
        (literal-IsToken (codes "Accept") (omega arith) refl, (refl, refl)),
        (
          (literal-IsToken (codes "Accept-Encoding") (omega arith) refl, (refl, refl)),
          (
            (literal-IsToken (codes "Content-Type") (omega arith) refl, (refl, refl)),
            (
              (
                literal-IsToken (codes "Content-Length") (omega arith) refl,
                graphic-IsValue (decimal (length call.body))
                    (decimal-IsGraphic (length call.body) small),
              ),
              (
                (literal-IsToken (codes "Connection") (omega arith) refl, (refl, refl)),
                ((literal-IsToken (codes "User-Agent") (omega arith) refl, (refl, refl)), tt),
              ),
            ),
          ),
        ),
      ),
    ),
  )

  get-AreFields : AreFields (get_fields call)
  unfolding get_fields token_char trim_value contains_ctl_or_crlf
  get-AreFields = (
    (literal-IsToken (codes "Host") (omega arith) refl, host-IsValue),
    (
      (literal-IsToken (codes "Authorization") (omega arith) refl, token-IsValue),
      (
        (literal-IsToken (codes "Accept") (omega arith) refl, (refl, refl)),
        (
          (literal-IsToken (codes "Accept-Encoding") (omega arith) refl, (refl, refl)),
          (
            (literal-IsToken (codes "Connection") (omega arith) refl, (refl, refl)),
            ((literal-IsToken (codes "User-Agent") (omega arith) refl, (refl, refl)), tt),
          ),
        ),
      ),
    ),
  )

  module _ (path_room : length call.path < 1024)
      (query_room : length (path_of call.path) < 512) where
    target : IsTarget call.path
    target = (fine.slash, fine.visible, path_room, query_room)

    room : length (request_header call) ≤ 16 * 1024
    unfolding header_capacity
    room = omega (arith, length-request_header call, fine.host_room, fine.token_room)

    host_fits : length (host_text call) < 256
    host_fits = omega (arith, length-host_text call, fine.host_room)

    some_host : (length (host_text call) == 0) ≡ false
    some_host = let h = host_text-some call in ground arith

    post-parsed :
        length call.body < u64_mod
        → is_post call ≡ true
        → call.method ≡ codes "POST"
        → parse_request (request_header call) ≡ parsed (understood call)
    post-parsed small post method =
        let opened : request_header call ≡ pieces (post_header call) =
          unfold request_header in rw post refl in
        let header : request_header call
            ≡ print_request (codes "POST") call.path http11 (post_fields call) =
          opened ∙ post-printed call in
        let taken =
          subst
            (λ m.
              take_fields (post_fields call) (blank_request m call.path) ≡ some (understood call))
            method (post-taken call host_fits fine.token_room small post) in
        ap parse_request header
        ∙ parse_request-print_request (codes "POST") call.path (post_fields call) (understood call)
            (literal-IsToken (codes "POST") (omega arith) (unfold token_char in refl)) (omega arith)
            refl target (post-AreFields small) (unfold post_fields in omega arith) taken
            (subst (λ t. length t ≤ 16 * 1024) header room) (unfold understood in rw post refl)
            (unfold understood in rw post some_host)

    get-parsed :
        is_post call ≡ false
        → call.method ≡ codes "GET"
        → parse_request (request_header call) ≡ parsed (understood call)
    get-parsed post method =
        let opened : request_header call ≡ pieces (get_header call) =
          unfold request_header in rw post refl in
        let header : request_header call
            ≡ print_request (codes "GET") call.path http11 (get_fields call) =
          opened ∙ get-printed call in
        let taken =
          subst
            (λ m.
              take_fields (get_fields call) (blank_request m call.path) ≡ some (understood call))
            method (get-taken call host_fits fine.token_room post) in
        ap parse_request header
        ∙ parse_request-print_request (codes "GET") call.path (get_fields call) (understood call)
            (literal-IsToken (codes "GET") (omega arith) (unfold token_char in refl)) (omega arith)
            refl target get-AreFields (unfold get_fields in omega arith) taken
            (subst (λ t. length t ≤ 16 * 1024) header room) (unfold understood in rw post refl)
            (unfold understood in rw post some_host)

either : (a b : Bool) → a || b ≡ true → b ≡ false → a ≡ true
either true b e h = refl
either false b e h = cc

path-fine :
    (path : Bytes)
    → path_valid path ≡ true
    → (get_or path 0 0 ≡ 47) × (all_of path_byte path ≡ true)
unfolding path_valid
path-fine path e = ground arith

token-fine :
    (token : Bytes)
    → token_valid token ≡ true
    → (0 < length token) × (length token < 128) × (all_of token_byte token ≡ true)
unfolding token_valid
token-fine token e = ground arith

All-from :
    (test other : ℕ → Bool)
    → ((c : ℕ) → test c ≡ true → other c ≡ true)
    → (s : Bytes) → all_of test s ≡ true
    → All (λ c. other c ≡ true) s
All-from test other implies [] e = tt
All-from test other implies (c ∷ s) e =
    let (first, rest) = and_split (test c) (all_of test s) e in
    (implies c first, All-from test other implies s rest)

-- `valid_local_host` lets only numeric addresses through, of at most 45 characters (`inet_pton`).
module _ (valid_local_host : Bytes → Bool)
    (numeric : (host : Bytes)
      → valid_local_host host ≡ true
      → All (λ c. address_byte c ≡ true) host × (length host ≤ 45))
    (call : RpcCall) (valid : arguments_valid valid_local_host call ≡ true) where
  fine : Fine call
  fine =
      unfold arguments_valid in
      let (e7, _) = and_split _ (leb call.timeout_ms 10000) valid in
      let (e6, _) = and_split _ (leb 100 call.timeout_ms) e7 in
      let (e5, token) = and_split _ (token_valid call.auth_token) e6 in
      let (e4, method) = and_split _ (is_get call || is_post call) e5 in
      let (e3, path) = and_split _ (path_valid call.path) e4 in
      let (e2, port) = and_split _ (leb call.port 65535) e3 in
      let (host, _) = and_split _ (leb 1 call.port) e2 in
      let (address, short) = numeric call.host host in
      let (slash, visible) = path-fine call.path path in
      let (some_token, token_short, bytes) = token-fine call.auth_token token in
      record {
        host = address;
        host_room = short;
        port = leb→le call.port 65535 port;
        method = method;
        slash = slash;
        visible = All-from path_byte target_char path-visible call.path visible;
        token = All-from token_byte (within 33 126) token-visible call.auth_token bytes;
        token_some = some_token;
        token_room = token_short;
      }

  authorized : request_authorized call.auth_token (understood call) false ≡ true
  authorized =
      let bearer : bearer_token token_max (codes "Bearer " ++ call.auth_token)
          ≡ found call.auth_token =
        bearer-read call.auth_token fine.token fine.token_some fine.token_room in
      let given = understood-authorization call in
      let text = graphic-IsText call.auth_token fine.token in
      let all_text : IsText (codes "Bearer " ++ call.auth_token) = (
        omega arith,
        (
          omega arith,
          (omega arith, (omega arith, (omega arith, (omega arith, (omega arith, text))))),
        ),
      ) in
      (request_authorized-lookups call.auth_token (understood call) false fine.token_some text
          (subst IsText (sym given) all_text)).1
        (inl (ap (bearer_token token_max) given ∙ bearer))

  -- Where `valid_local_host` lets only numeric addresses through, the request that is written for
  -- arguments and a body that are let through, with a target of less than 1024 characters and a path
  -- of less than 512, is read by the server as what was asked for: the method, the target, the
  -- address with the port as the host, the access token as a Bearer token and, of a POST, the length
  -- of the body and its type; and a server with that access token lets it in.
  pub parse_request-request_header :
      body_fits call ≡ true
      → length call.path < 1024
      → length (path_of call.path) < 512
      → (parse_request (request_header call) ≡ parsed (understood call))
        × (request_authorized call.auth_token (understood call) false ≡ true)
  unfolding body_fits
  parse_request-request_header fits path_room query_room =
      let (small, _) = and_split (leb (length call.body) (64 * 1024)) _ fits in
      let body : length call.body < u64_mod =
        omega (arith, leb→le (length call.body) (64 * 1024) small) in
      (
        elim (Bool-cases (is_post call)) [
          | inl post ↦
              post-parsed call fine path_room query_room body post
                (same_bytes-eq call.method (codes "POST") post)
          | inr get ↦ get-parsed call fine path_room query_room get (
              same_bytes-eq call.method (codes "GET")
                (either (is_get call) (is_post call) fine.method get))
        ],
        authorized,
      )
