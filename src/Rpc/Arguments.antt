-- ===== src/Rpc/Arguments.antt =====
-- The arguments of `rpc_client_request` and the request it writes, with `token_valid` and
-- `path_valid`, of package/nes-emulator/src/rpc_client.c. `valid_local_host`, which asks the system
-- whether an address is one of this machine, is an argument.
pub mod Room
use openwrt_nes_emulator.Base.{
  has_byte, all_of, ℕ, ◌+◌, ◌*◌, Bool, true, false, not, ◌&&◌, ◌||◌, List, [], ◌∷◌, ◌++◌, Bytes,
  length, get_or, ltb, leb, ◌==◌, within, if◌then◌else◌, codes, same_bytes, decimal,
}

-- Letters, digits and `._~-`.
unfoldable pub token_byte : ℕ → Bool
token_byte c =
    within 48 57 c || within 65 90 c || within 97 122 c || c == 46 || c == 95 || c == 126 || c == 45

unfoldable pub token_valid : Bytes → Bool
token_valid token =
    let len = length token in if ltb len 32 || ltb 127 len then false else all_of token_byte token

-- Not a space, control character, `#` or `\`.
unfoldable pub path_byte : ℕ → Bool
path_byte c = not (leb c 0x20 || leb 0x7f c || c == 35 || c == 92)

abbrev pub path_max : ℕ
path_max = 2048

unfoldable pub path_valid : Bytes → Bool
path_valid path =
    let len = length path in
    if not (get_or path 0 0 == 47)
    then false
    else if len == 0 || ltb path_max len
    then false
    else all_of path_byte path

-- The arguments; a body that is NULL is empty.
pub record RpcCall : Type 0 where
  pub host : Bytes
  pub port : ℕ
  pub path : Bytes
  pub method : Bytes
  pub body : Bytes
  pub auth_token : Bytes
  pub timeout_ms : ℕ

abbrev pub is_post : RpcCall → Bool
is_post call = same_bytes call.method (codes "POST")

abbrev pub is_get : RpcCall → Bool
is_get call = same_bytes call.method (codes "GET")

-- The first test of the function, behind which EINVAL is the error.
unfoldable pub arguments_valid : (Bytes → Bool) → RpcCall → Bool
arguments_valid valid_local_host call =
    valid_local_host call.host
    && leb 1 call.port
    && leb call.port 65535
    && path_valid call.path
    && (is_get call || is_post call)
    && token_valid call.auth_token
    && leb 100 call.timeout_ms
    && leb call.timeout_ms 10000

-- The second test, behind which E2BIG is the error.
unfoldable pub body_fits : RpcCall → Bool
body_fits call =
    leb (length call.body) (64 * 1024) && not (is_get call && not (length call.body == 0))

-- `%s%s%s:%d`; an address with a colon stands in brackets.
unfoldable pub host_text : RpcCall → Bytes
host_text call =
    if has_byte 58 call.host
    then (91 ∷ call.host) ++ (93 ∷ 58 ∷ decimal call.port)
    else call.host ++ (58 ∷ decimal call.port)

-- Pieces of text one after another.
abbrev pub pieces : List Bytes → Bytes
pieces [] = []
pieces (p ∷ ps) = p ++ pieces ps

abbrev pub eol : Bytes
eol = 13 ∷ 10 ∷ []

-- The two format strings, with what `snprintf` puts in.
abbrev pub post_header : RpcCall → List Bytes
post_header call =
    codes "POST "
    ∷ call.path
    ∷ codes " HTTP/1.1"
    ∷ eol
    ∷ codes "Host: "
    ∷ host_text call
    ∷ eol
    ∷ codes "Authorization: Bearer "
    ∷ call.auth_token
    ∷ eol
    ∷ codes "Accept: application/json"
    ∷ eol
    ∷ codes "Accept-Encoding: identity"
    ∷ eol
    ∷ codes "Content-Type: application/json"
    ∷ eol
    ∷ codes "Content-Length: "
    ∷ decimal (length call.body)
    ∷ eol
    ∷ codes "Connection: close"
    ∷ eol
    ∷ codes "User-Agent: nesd-loopback-rpc/1"
    ∷ eol
    ∷ eol
    ∷ []

abbrev pub get_header : RpcCall → List Bytes
get_header call =
    codes "GET "
    ∷ call.path
    ∷ codes " HTTP/1.1"
    ∷ eol
    ∷ codes "Host: "
    ∷ host_text call
    ∷ eol
    ∷ codes "Authorization: Bearer "
    ∷ call.auth_token
    ∷ eol
    ∷ codes "Accept: application/json"
    ∷ eol
    ∷ codes "Accept-Encoding: identity"
    ∷ eol
    ∷ codes "Connection: close"
    ∷ eol
    ∷ codes "User-Agent: nesd-loopback-rpc/1"
    ∷ eol
    ∷ eol
    ∷ []

-- What `snprintf` writes, with room at hand.
unfoldable pub request_header : RpcCall → Bytes
request_header call = pieces (if is_post call then post_header call else get_header call)

-- The room it gets.
unfoldable pub header_capacity : RpcCall → ℕ
header_capacity call = length call.path + length call.host + length call.auth_token + 512
