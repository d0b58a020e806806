-- ===== src/Loopback/Tests.antt =====
-- A request of the client at concrete arguments.
use openwrt_nes_emulator.Base.{
  ◌≤◌, ◌≡◌, refl, Bool, true, false, [], ◌∷◌, Bytes, length, All, arith, codes, same_bytes,
  same_bytes-eq, sym,
}
use mathlib.Core.Path.{subst}
use openwrt_nes_emulator.Http.Request.{parse_request, parsed}
use openwrt_nes_emulator.Http.Auth.{request_authorized}
use openwrt_nes_emulator.Rpc.Arguments.{
  RpcCall, arguments_valid, path_valid, token_valid, token_byte, path_byte, body_fits,
  request_header,
}
use openwrt_nes_emulator.Loopback.{parse_request-request_header}
use openwrt_nes_emulator.Loopback.Fields.{address_byte, understood}

abbrev is_router : Bytes → Bool
is_router host = same_bytes host (codes "127.0.0.1")

router_numeric :
    (host : Bytes)
    → is_router host ≡ true
    → All (λ c. address_byte c ≡ true) host × (length host ≤ 45)
router_numeric host e =
    subst (λ h. All (λ c. address_byte c ≡ true) h × (length h ≤ 45))
      (sym (same_bytes-eq host (codes "127.0.0.1") e))
      ((refl, (refl, (refl, (refl, (refl, (refl, (refl, (refl, (refl, tt))))))))), omega arith)

abbrev start_call : RpcCall
start_call = record {
  host = codes "127.0.0.1";
  port = 8080;
  path = codes "/api/start?rom=a.nes";
  method = codes "POST";
  body = codes "{}";
  auth_token = codes "0123456789abcdef0123456789abcdef";
  timeout_ms = 2000;
}

parse_request-request_header_example :
    (parse_request (request_header start_call) ≡ parsed (understood start_call))
    × (request_authorized start_call.auth_token (understood start_call) false ≡ true)
parse_request-request_header_example =
    parse_request-request_header is_router router_numeric start_call
      (unfold arguments_valid path_valid token_valid token_byte path_byte in refl)
      (unfold body_fits in refl) (omega arith)
      (unfold openwrt_nes_emulator.Base.split_at in omega arith)
