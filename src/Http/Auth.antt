-- ===== src/Http/Auth.antt =====
-- Who may ask what: `constant_time_equal`, `bearer_token`, `query_value`, `request_authorized`,
-- `request_origin_allowed`, `preflight_headers_allowed` and `valid_unauthenticated_preflight` of
-- package/nes-emulator/src/http.c. An empty text is an empty array in the program.
pub mod Equal
pub mod Bearer
pub mod Query
pub mod Value
pub mod Clean
pub mod Access
use openwrt_nes_emulator.Base.{
  has_byte, all_of, ℕ, zero, suc, ◌+◌, ◌-◌, ◌%◌, ◌^◌, Bool, true, false, not, ◌&&◌, ◌||◌, [], ◌∷◌,
  ◌++◌, Option, none, some, Bytes, length, take, drop, get_or, ltb, leb, ◌==◌, if◌then◌else◌,
  bit_or, bit_xor, codes, same_letters, same_bytes, split_at, is_blank, trim_start, trim_end,
}
use openwrt_nes_emulator.Http.{url_decode_component}
use openwrt_nes_emulator.Http.Request.{RequestInfo, text_of, token_char, to_comma}

-- The loop: a text that has ended gives 0 from then on; `diff` is 32 bits wide.
unfoldable pub diff_loop : ℕ → Bytes → Bytes → ℕ
diff_loop diff [] [] = diff
diff_loop diff (a ∷ as') [] = diff_loop (bit_or diff (bit_xor a 0)) as' []
diff_loop diff [] (b ∷ bs) = diff_loop (bit_or diff (bit_xor 0 b)) [] bs
diff_loop diff (a ∷ as') (b ∷ bs) = diff_loop (bit_or diff (bit_xor a b)) as' bs

unfoldable pub constant_time_equal : Bytes → Bytes → Bool
constant_time_equal a b = diff_loop (bit_xor (length a) (length b) % 2 ^ 32) a b == 0

-- The results 0, -1, and 1 with the text written to `out`.
pub data Lookup : Type 0 where
  absent : Lookup
  refused : Lookup
  found : Bytes → Lookup

unfoldable pub bearer_token : ℕ → Bytes → Lookup
bearer_token out_size authorization =
    let token = trim_end (trim_start (drop 6 authorization)) in
    if length authorization == 0
    then absent
    else if not (same_letters (take 6 authorization) (codes "Bearer"))
        || not (is_blank (get_or authorization 6 0))
    then refused
    else if length token == 0 || leb out_size (length token)
    then refused
    else found token

-- Up to the next `&` or `#`, and from it on.
abbrev pub to_separator : Bytes → Bytes × Bytes
to_separator [] = ([], [])
to_separator (c ∷ s) =
    let (front, rest) = to_separator s in
    if c == 38 || c == 35 then ([], c ∷ s) else (c ∷ front, rest)

-- The value of a piece `name=value`, if it has this name.
unfoldable pub named_value : Bytes → Bytes → Option Bytes
named_value name piece = elim (split_at 61 piece) [
  | none ↦ none
  | some (key, value) ↦ if same_bytes key name then some value else none
]

-- Behind an `&`.
abbrev pub next_piece : Bytes → Bytes
next_piece [] = []
next_piece (c ∷ s) = if c == 38 then s else c ∷ s

-- What was found, with one more value for the name.
unfoldable pub add_value : ℕ → Bytes → Lookup → Lookup
add_value out_size value (found seen) = refused
add_value out_size value refused = refused
add_value out_size value absent = elim (url_decode_component out_size value) [
  | none ↦ refused
  | some out ↦ found out
]

abbrev pub ended : Bytes → Bool
ended query = length query == 0 || get_or query 0 0 == 35

-- The loop, with a round for each byte at most; `seen` was found before.
unfoldable pub query_rounds : ℕ → Bytes → ℕ → Lookup → Bytes → Lookup
query_rounds zero name out_size seen query = seen
query_rounds (suc fuel) name out_size seen query =
    let (piece, rest) = to_separator query in
    elim (ended query) [
      | true ↦ seen
      | false ↦ elim (named_value name piece) [
        | none ↦ query_rounds fuel name out_size seen (next_piece rest)
        | some value ↦ elim (add_value out_size value seen) [
          | refused ↦ refused
          | absent ↦ absent
          | found out ↦ query_rounds fuel name out_size (found out) (next_piece rest)
        ]
      ]
    ]

unfoldable pub query_value : Bytes → Bytes → ℕ → Lookup
query_value target name out_size = elim (split_at 63 target) [
  | none ↦ absent
  | some (_, query) ↦ query_rounds (length query + 1) name out_size absent query
]

-- `NES_HTTP_AUTH_TOKEN_MAX`
abbrev pub token_max : ℕ
token_max = 128

unfoldable pub is_found : Lookup → Bytes → Bool
is_found (found supplied) token = constant_time_equal supplied token
is_found absent token = false
is_found refused token = false

-- `auth_token` is that of the server.
unfoldable pub request_authorized : Bytes → RequestInfo → Bool → Bool
request_authorized auth_token request websocket =
    if length auth_token == 0
    then true
    else if is_found (bearer_token token_max (text_of request.authorization)) auth_token
    then true
    else if not websocket
    then false
    else is_found (query_value request.target (codes "token") token_max) auth_token

-- `http://` with the host of the request, in an array of 512.
unfoldable pub same_origin : RequestInfo → Bool
same_origin request =
    let expected = codes "http://" ++ text_of request.host in
    not (length (text_of request.host) == 0)
    && ltb (length expected) 512
    && constant_time_equal (text_of request.origin) expected

unfoldable pub request_origin_allowed : Bytes → RequestInfo → Bool
request_origin_allowed allowed_origin request =
    if length (text_of request.origin) == 0
    then true
    else if same_origin request
    then true
    else not (length allowed_origin == 0)
      && constant_time_equal (text_of request.origin) allowed_origin

unfoldable pub header_allowed : Bytes → Bool
header_allowed item =
    all_of token_char item
    && not (length item == 0)
    && (same_letters item (codes "Authorization")
        || same_letters item (codes "Content-Type")
        || same_letters item (codes "X-Filename"))

-- The loop, with a round for each byte at most.
unfoldable pub preflight_rounds : ℕ → Bytes → Bool
preflight_rounds zero p = true
preflight_rounds (suc fuel) [] = true
preflight_rounds (suc fuel) (c ∷ p) =
    let (item, rest) = to_comma (trim_start (c ∷ p)) in
    elim (header_allowed (trim_end item)) [
      | false ↦ false
      | true ↦ preflight_rounds fuel (drop 1 rest)
    ]

unfoldable pub preflight_headers_allowed : Bytes → Bool
preflight_headers_allowed headers = preflight_rounds (length headers) headers

unfoldable pub valid_unauthenticated_preflight : Bytes → RequestInfo → Bool
valid_unauthenticated_preflight allowed_origin request =
    let asked = text_of request.requested_method in
    if not (same_bytes request.method (codes "OPTIONS"))
      || not (same_bytes (take 5 request.path) (codes "/api/"))
      || length allowed_origin == 0
      || length (text_of request.origin) == 0
      || not (constant_time_equal (text_of request.origin) allowed_origin)
      || (not (same_bytes asked (codes "GET")) && not (same_bytes asked (codes "POST")))
      || not (preflight_headers_allowed (text_of request.requested_headers))
    then false
    else elim request.content_length [ none ↦ true | some n ↦ n == 0 ]
