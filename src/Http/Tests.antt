-- ===== src/Http/Tests.antt =====
-- The theorems on names in requests at short texts.
use openwrt_nes_emulator.Base.{
  ◌<◌, ◌≡◌, ◌≢◌, refl, true, [], ◌∷◌, some, Bytes, length, get_or, All, arith, ◌↔◌, ◌⊎◌, List, ◌++◌,
  codes, split_at,
}
use openwrt_nes_emulator.Http.{is_rom_ext, url_decode_component, sanitize_filename}
use openwrt_nes_emulator.Http.Url.{
  Harmless, percent_encode, url_decode_component-percent_encode, url_decode_component-Harmless,
}
use openwrt_nes_emulator.Http.Request.{
  RequestInfo, token_char, trim_value, contains_ctl_or_crlf, copy_header_once, take_text,
  take_header, blank_request, parsed, parse_request,
}
use openwrt_nes_emulator.Http.Request.Print.{
  http11, print_fields, print_request, take_fields, parse_request-print_request,
}
use openwrt_nes_emulator.Http.Request.{find_header_end}
use openwrt_nes_emulator.Http.Request.End.{find_header_end-print_request}
use openwrt_nes_emulator.Http.Auth.{
  constant_time_equal, token_max, request_authorized, request_origin_allowed,
}
use openwrt_nes_emulator.Http.Auth.Equal.{constant_time_equal_iff}
use openwrt_nes_emulator.Http.Auth.Bearer.{IsBearer}
use openwrt_nes_emulator.Http.Auth.Query.{OnlyValue, query_pieces}
use openwrt_nes_emulator.Http.Auth.Access.{
  IsSome, request_authorized_iff, request_origin_allowed_iff,
}
use openwrt_nes_emulator.Http.File.{InComponent, sanitize_filename_safe}

url_decode_component-percent_encode_example :
    url_decode_component 16 (percent_encode (47 ∷ 200 ∷ [])) ≡ some (47 ∷ 200 ∷ [])
url_decode_component-percent_encode_example =
    url_decode_component-percent_encode 16 (47 ∷ 200 ∷ []) (omega arith) (omega arith)

url_decode_component-Harmless_example : Harmless 0 4 (url_decode_component 4 (37 ∷ 48 ∷ 65 ∷ []))
url_decode_component-Harmless_example = url_decode_component-Harmless 4 (37 ∷ 48 ∷ 65 ∷ [])

-- `../a/b.nes`, of which `b.nes` is left.
abbrev hostile : Bytes
hostile = 46 ∷ 46 ∷ 47 ∷ 97 ∷ 47 ∷ 98 ∷ 46 ∷ 110 ∷ 101 ∷ 115 ∷ []

abbrev tame : Bytes
tame = 98 ∷ 46 ∷ 110 ∷ 101 ∷ 115 ∷ []

sanitize_filename_safe_example :
    (length tame < 256)
    × All InComponent tame
    × (0 < length tame)
    × (get_or tame 0 0 ≢ 46)
    × (is_rom_ext tame ≡ true)
unfolding sanitize_filename openwrt_nes_emulator.Http.sanitize_chars
    openwrt_nes_emulator.Http.after_last openwrt_nes_emulator.Http.safe_char is_rom_ext
sanitize_filename_safe_example = sanitize_filename_safe 256 hostile tame refl

constant_time_equal_iff_example :
    (constant_time_equal (codes "abc") (codes "abd") ≡ true) ↔ (codes "abc" ≡ codes "abd")
constant_time_equal_iff_example =
    constant_time_equal_iff (codes "abc") (codes "abd") (omega arith) (omega arith)

-- A viewer that connects.
abbrev viewer : RequestInfo
viewer = record (blank_request (codes "GET") (codes "/ws?token=abc")) {
  host = some (codes "router:8080");
  origin = some (codes "http://router:8080");
}

request_authorized_iff_example : (request_authorized (codes "abc") viewer true ≡ true) ↔ (
    IsBearer (codes "abc") []
    ⊎ ((true ≡ true)
        × (v : Bytes) × OnlyValue (codes "token") v (query_pieces (codes "/ws?token=abc"))
        × (url_decode_component token_max v ≡ some (codes "abc"))))
request_authorized_iff_example =
    request_authorized_iff (codes "abc") viewer true (omega arith) (omega arith) (omega arith)
      (refl, (refl, (refl, tt))) tt

request_origin_allowed_iff_example : (request_origin_allowed [] viewer ≡ true) ↔ (
    (codes "http://router:8080" ≡ [])
    ⊎ ((IsSome (codes "router:8080")
          × (codes "http://router:8080" ≡ codes "http://" ++ codes "router:8080"))
        ⊎ (IsSome [] × (codes "http://router:8080" ≡ []))))
request_origin_allowed_iff_example =
    request_origin_allowed_iff [] viewer tt (omega arith) (omega arith) (omega arith)

abbrev one_field : List (Bytes × Bytes)
one_field = (codes "Host", codes "a") ∷ []

abbrev read_request : RequestInfo
read_request = record (blank_request (codes "GET") (codes "/")) { host = some (codes "a") }

parse_request-print_request_example :
    parse_request (print_request (codes "GET") (codes "/") http11 one_field) ≡ parsed read_request
parse_request-print_request_example =
    parse_request-print_request (codes "GET") (codes "/") one_field read_request
      (omega arith, (unfold token_char in (refl, (refl, (refl, tt))))) (omega arith) refl
      (refl, (refl, tt), omega arith, unfold split_at in omega arith)
      (
        (
          (omega arith, unfold token_char in (refl, (refl, (refl, (refl, tt))))),
          (unfold trim_value in refl, unfold contains_ctl_or_crlf in refl),
        ),
        tt,
      )
      (omega arith) (unfold take_fields take_header take_text copy_header_once in refl)
      (unfold print_request print_fields in omega arith) refl refl

find_header_end-print_request_example :
    find_header_end 0 (print_request (codes "GET") (codes "/") http11 one_field ++ codes "rest")
    ≡ some (length (print_request (codes "GET") (codes "/") http11 one_field))
find_header_end-print_request_example =
    find_header_end-print_request (codes "GET") (codes "/") one_field (codes "rest")
      (omega arith, (unfold token_char in (refl, (refl, (refl, tt)))))
      (refl, (refl, tt), omega arith, unfold split_at in omega arith)
      (
        (
          (omega arith, unfold token_char in (refl, (refl, (refl, (refl, tt))))),
          (unfold trim_value in refl, unfold contains_ctl_or_crlf in refl),
        ),
        tt,
      )
