-- ===== src/Http/Request.antt =====
-- The request line and the headers: `token_char`, `trim_value`, `header_has_token`,
-- `contains_ctl_or_crlf`, `copy_header_once`, `parse_content_length_value`, `parse_request` and
-- `find_header_end` of package/nes-emulator/src/http.c. A header that was not seen is `none`, and an
-- array that is empty otherwise holds the empty text.
pub mod Print
pub mod End
use openwrt_nes_emulator.Base.{
  has_byte, all_of, ℕ, zero, suc, ◌+◌, ◌-◌, ◌*◌, Bool, true, false, not, ◌&&◌, ◌||◌, List, [], ◌∷◌,
  ◌++◌, Option, none, some, Bytes, length, take, drop, get_or, ltb, leb, ◌==◌, within,
  if◌then◌else◌, codes, cons_first, split_at, is_blank, trim_start, trim_end, same_bytes,
  same_letters, parse_decimal,
}

-- The separators of RFC 9110, each of them `()<>@,;:\"/[]?={}` or a blank
unfoldable pub token_char : ℕ → Bool
token_char c =
    ltb 0x20 c
    && ltb c 0x7f
    && not (
        c == 34
        || c == 40
        || c == 41
        || c == 44
        || c == 47
        || within 58 64 c
        || within 91 93 c
        || c == 123
        || c == 125)

unfoldable pub trim_value : Bytes → Bytes
trim_value value = trim_end (trim_start value)

unfoldable pub contains_ctl_or_crlf : Bytes → Bool
contains_ctl_or_crlf [] = false
contains_ctl_or_crlf (c ∷ s) = ltb c 0x20 || c == 0x7f || contains_ctl_or_crlf s

-- Blanks and commas in front.
abbrev pub skip_separators : Bytes → Bytes
skip_separators [] = []
skip_separators (c ∷ s) = if is_blank c || c == 44 then skip_separators s else c ∷ s

-- Up to the next comma, and from it on.
abbrev pub to_comma : Bytes → Bytes × Bytes
to_comma [] = ([], [])
to_comma (c ∷ s) =
    let (front, rest) = to_comma s in if c == 44 then ([], c ∷ s) else (c ∷ front, rest)

-- The loop, with a round for each byte at most.
unfoldable pub token_rounds : ℕ → Bytes → Bytes → Bool
token_rounds zero wanted p = false
token_rounds (suc fuel) wanted [] = false
token_rounds (suc fuel) wanted (c ∷ p) =
    let (item, rest) = to_comma (skip_separators (c ∷ p)) in
    elim (same_letters (trim_end item) wanted) [
      | true ↦ true
      | false ↦ token_rounds fuel wanted rest
    ]

unfoldable pub header_has_token : Bytes → Bytes → Bool
header_has_token value wanted = token_rounds (length value) wanted value

unfoldable pub parse_content_length_value : Bytes → Option ℕ
parse_content_length_value value = parse_decimal value

pub record RequestInfo : Type 0 where
  pub method : Bytes
  pub target : Bytes
  pub path : Bytes
  pub host : Option Bytes
  pub origin : Option Bytes
  pub authorization : Option Bytes
  pub content_type : Option Bytes
  pub x_filename : Option Bytes
  pub ws_key : Option Bytes
  pub ws_version : Option Bytes
  pub requested_method : Option Bytes
  pub requested_headers : Option Bytes
  pub content_length : Option ℕ
  pub has_transfer_encoding : Bool
  pub upgrade_websocket : Bool
  pub connection_upgrade : Bool
  pub private_network : Option Bool

-- An array of the program: empty if the header was not seen.
abbrev pub text_of : Option Bytes → Bytes
text_of none = []
text_of (some text) = text

-- `copy_header_once` with the test that the header was not seen before.
unfoldable pub copy_header_once : ℕ → Bytes → Option Bytes → Option (Option Bytes)
copy_header_once dst_size value none =
    if leb dst_size (length value) then none else some (some value)
copy_header_once dst_size value (some seen) = none

abbrev pub store : Option (Option Bytes) → (Option Bytes → RequestInfo) → Option RequestInfo
store none update = none
store (some text) update = some (update text)

-- The headers of one value each.
unfoldable pub take_text : Bytes → Bytes → RequestInfo → Option RequestInfo
unfolding copy_header_once
take_text name value r =
    if same_letters name (codes "Host")
    then store (copy_header_once 256 value r.host) (λ t. record r { host = t })
    else if same_letters name (codes "Origin")
    then store (copy_header_once 256 value r.origin) (λ t. record r { origin = t })
    else if same_letters name (codes "Authorization")
    then store (copy_header_once 256 value r.authorization) (λ t. record r { authorization = t })
    else if same_letters name (codes "Content-Type")
    then store (copy_header_once 128 value r.content_type) (λ t. record r { content_type = t })
    else if same_letters name (codes "X-Filename")
    then store (copy_header_once 256 value r.x_filename) (λ t. record r { x_filename = t })
    else if same_letters name (codes "Sec-WebSocket-Key")
    then store (copy_header_once 128 value r.ws_key) (λ t. record r { ws_key = t })
    else if same_letters name (codes "Sec-WebSocket-Version")
    then store (copy_header_once 32 value r.ws_version) (λ t. record r { ws_version = t })
    else if same_letters name (codes "Access-Control-Request-Method")
    then store (copy_header_once 16 value r.requested_method)
        (λ t. record r { requested_method = t })
    else if same_letters name (codes "Access-Control-Request-Headers")
    then store (copy_header_once 256 value r.requested_headers)
        (λ t. record r { requested_headers = t })
    else some r

-- `Access-Control-Request-Private-Network`, which may be seen once.
unfoldable pub take_private : Bytes → RequestInfo → Option RequestInfo
take_private value r = elim r.private_network [
  | some _ ↦ none
  | none ↦ some (record r { private_network = some (same_letters value (codes "true")) })
]

unfoldable pub take_length : Bytes → RequestInfo → Option RequestInfo
take_length value r = elim (parse_content_length_value value) [
  | none ↦ none
  | some n ↦ elim r.content_length [
    | some _ ↦ none
    | none ↦ some (record r { content_length = some n })
  ]
]

-- The chain of comparisons of `parse_request`; the headers are told apart by their names, so those
-- that are copied stand last.
unfoldable pub take_header : Bytes → Bytes → RequestInfo → Option RequestInfo
unfolding take_text take_private take_length header_has_token
take_header name value r =
    if same_letters name (codes "Content-Length")
    then take_length value r
    else if same_letters name (codes "Transfer-Encoding")
    then some (record r { has_transfer_encoding = true })
    else if same_letters name (codes "Connection")
    then some (record r {
      connection_upgrade = r.connection_upgrade || header_has_token value (codes "upgrade");
    })
    else if same_letters name (codes "Upgrade")
    then some (record r {
      upgrade_websocket = r.upgrade_websocket || same_letters value (codes "websocket");
    })
    else if same_letters name (codes "Access-Control-Request-Private-Network")
    then take_private value r
    else take_text name value r

-- Up to the first carriage return with a line feed behind it, and behind them (`strstr`).
unfoldable pub cut_line : Bytes → Option (Bytes × Bytes)
cut_line [] = none
cut_line (c ∷ []) = none
cut_line (c ∷ d ∷ s) = if c == 13 && d == 10 then some ([], s) else cons_first c (cut_line (d ∷ s))

-- A header line: its name, which is a token, and its value, which has no control character.
unfoldable pub header_line : Bytes → Option (Bytes × Bytes)
unfolding trim_value contains_ctl_or_crlf
header_line line = if is_blank (get_or line 0 0) then none else elim (split_at 58 line) [
  | none ↦ none
  | some (name, value) ↦
      if length name == 0 || not (all_of token_char name) || contains_ctl_or_crlf (trim_value value)
      then none
      else some (name, trim_value value)
]

-- The loop over the header lines, of which there are a hundred at most; `count` came before.
unfoldable pub header_rounds : ℕ → ℕ → Bytes → RequestInfo → Option RequestInfo
header_rounds zero count cursor r = none
header_rounds (suc fuel) count cursor r = elim (length cursor == 0) [
  | true ↦ some r
  | false ↦ elim (cut_line cursor) [
    | none ↦ none
    | some (line, rest) ↦ elim (length line == 0) [
      | true ↦ some r
      | false ↦ elim (ltb 100 (count + 1)) [
        | true ↦ none
        | false ↦ elim (header_line line) [
          | none ↦ none
          | some (name, value) ↦ elim (take_header name value r) [
            | none ↦ none
            | some r' ↦ header_rounds fuel (count + 1) rest r'
          ]
        ]
      ]
    ]
  ]
]

-- The results -1 and -2, and 0 with the request.
pub data Parsed : Type 0 where
  malformed : Parsed
  unsupported : Parsed
  parsed : RequestInfo → Parsed

abbrev pub target_char : ℕ → Bool
target_char c = not (ltb c 0x21 || ltb 0x7e c || c == 35)

abbrev pub path_of : Bytes → Bytes
path_of target = elim (split_at 63 target) [ none ↦ target | some (path, _) ↦ path ]

-- The parts of the request line.
unfoldable pub split_request : Bytes → Option (Bytes × Bytes × Bytes)
split_request line = elim (split_at 32 line) [
  | none ↦ none
  | some (method, rest) ↦ elim (split_at 32 rest) [
    | none ↦ none
    | some (target, version) ↦ some (method, target, version)
  ]
]

-- The tests on the parts of the request line.
unfoldable pub line_malformed : Bytes → Bytes → Bytes → Bool
line_malformed method target version =
    length method == 0
    || length target == 0
    || has_byte 32 version
    || has_byte 9 version
    || not (same_bytes version (codes "HTTP/1.1") || same_bytes version (codes "HTTP/1.0"))
    || leb 8 (length method)
    || leb 1024 (length target)
    || not (get_or target 0 0 == 47)
    || not (all_of token_char method)

abbrev pub known_method : Bytes → Bool
known_method method =
    same_bytes method (codes "GET")
    || same_bytes method (codes "POST")
    || same_bytes method (codes "OPTIONS")

abbrev pub blank_request : Bytes → Bytes → RequestInfo
blank_request method target = record {
  method = method;
  target = target;
  path = path_of target;
  host = none;
  origin = none;
  authorization = none;
  content_type = none;
  x_filename = none;
  ws_key = none;
  ws_version = none;
  requested_method = none;
  requested_headers = none;
  content_length = none;
  has_transfer_encoding = false;
  upgrade_websocket = false;
  connection_upgrade = false;
  private_network = none;
}

-- The tests behind the loop.
unfoldable pub finish_request : Bytes → Option RequestInfo → Parsed
finish_request version none = malformed
finish_request version (some r) =
    if r.has_transfer_encoding
      || (length (text_of r.host) == 0 && same_bytes version (codes "HTTP/1.1"))
    then malformed
    else parsed r

unfoldable pub parse_line : Bytes → Bytes → Bytes → Bytes → Parsed
unfolding line_malformed
parse_line method target version rest =
    if line_malformed method target version
    then malformed
    else if not (known_method method)
    then unsupported
    else if not (all_of target_char target)
        || length (path_of target) == 0
        || leb 512 (length (path_of target))
    then malformed
    else finish_request version (header_rounds 102 0 rest (blank_request method target))

-- `HTTP_HEADER_MAX` is 16384.
unfoldable pub parse_request : Bytes → Parsed
parse_request bytes =
    if ltb (16 * 1024) (length bytes) || has_byte 0 bytes
    then malformed
    else elim (cut_line bytes) [
      | none ↦ malformed
      | some (line, rest) ↦ elim (split_request line) [
        | none ↦ malformed
        | some (method, target, version) ↦ parse_line method target version rest
      ]
    ]

-- Where the headers end, if they do: behind the first empty line.
unfoldable pub find_header_end : ℕ → Bytes → Option ℕ
find_header_end i (a ∷ b ∷ c ∷ d ∷ s) =
    let later = find_header_end (i + 1) (b ∷ c ∷ d ∷ s) in
    if a == 13 && b == 10 && c == 13 && d == 10 then some (i + 4) else later
find_header_end i _ = none
