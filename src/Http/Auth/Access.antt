-- ===== src/Http/Auth/Access.antt =====
-- Who gets in, by `request_authorized`, and which origins may ask, by `request_origin_allowed`.
use openwrt_nes_emulator.Base.{
  IsText, and_true, ℕ, ◌<◌, ◌≡◌, ◌↔◌, ◌⊎◌, inl, inr, refl, ap, sym, ◌∙◌, Bool, true, false, not,
  ◌&&◌, [], ◌∷◌, ◌++◌, some, Bytes, length, ltb, ◌==◌, if◌then◌else◌, arith, codes,
}
use openwrt_nes_emulator.Http.{url_decode_component}
use openwrt_nes_emulator.Http.Request.{RequestInfo, text_of}
use openwrt_nes_emulator.Http.Auth.{
  Lookup, absent, refused, found, constant_time_equal, bearer_token, query_value, is_found,
  token_max, request_authorized, same_origin, request_origin_allowed,
}
use openwrt_nes_emulator.Http.Auth.Bearer.{IsSolid, IsBearer, bearer_token_iff}
use openwrt_nes_emulator.Http.Request.Print.{Without}
use openwrt_nes_emulator.Http.Auth.Query.{OnlyValue, query_pieces}
use openwrt_nes_emulator.Http.Auth.Value.{query_value_iff}
use openwrt_nes_emulator.Http.Auth.Equal.{constant_time_equal_iff}
use openwrt_nes_emulator.Http.Auth.Clean.{Clean, bearer_token-Clean, query_value-Clean}

is_found_iff :
    (o : Lookup) (token : Bytes)
    → Clean o
    → IsText token
    → (is_found o token ≡ true) ↔ (o ≡ found token)
unfolding is_found
is_found_iff absent token h text = ((λ e. cc), (λ e. cc))
is_found_iff refused token h text = ((λ e. cc), (λ e. cc))
is_found_iff (found out) token h text =
    let same = constant_time_equal_iff out token h text in
    ((λ e. ap found (same.0 e)), (λ e. same.1 cc))

gate :
    (bearer websocket query : Bool)
    → ((if bearer then true else if not websocket then false else query) ≡ true)
      ↔ ((bearer ≡ true) ⊎ ((websocket ≡ true) × (query ≡ true)))
gate true websocket query = ((λ e. inl refl), (λ h. refl))
gate false true query = ((λ e. inr (refl, e)), (λ h. ground arith))
gate false false query = ((λ e. cc), (λ h. ground arith))

-- What a request with an access token is let in by, in the terms of the two lookups.
pub request_authorized-lookups :
    (auth_token : Bytes) (request : RequestInfo) (websocket : Bool)
    → 0 < length auth_token
    → IsText auth_token
    → IsText (text_of request.authorization)
    → (request_authorized auth_token request websocket ≡ true) ↔ (
        (bearer_token token_max (text_of request.authorization) ≡ found auth_token)
        ⊎ ((websocket ≡ true)
            × (query_value request.target (codes "token") token_max ≡ found auth_token)))
unfolding request_authorized
request_authorized-lookups auth_token request websocket some_token text clean =
    let bearer =
      is_found_iff (bearer_token token_max (text_of request.authorization)) auth_token
        (bearer_token-Clean token_max (text_of request.authorization) clean) text in
    let query =
      is_found_iff (query_value request.target (codes "token") token_max) auth_token
        (query_value-Clean request.target (codes "token") token_max) text in
    let no_token : (length auth_token == 0) ≡ false = ground arith in
    let has_bearer = is_found (bearer_token token_max (text_of request.authorization)) auth_token in
    let has_query = is_found (query_value request.target (codes "token") token_max) auth_token in
    let opened : request_authorized auth_token request websocket
        ≡ (if has_bearer then true else if not websocket then false else has_query) =
      rw (request_authorized, no_token) refl in
    let (through, back) = gate has_bearer websocket has_query in
    (
      (λ e. elim (through (sym opened ∙ e)) [
        | inl b ↦ inl (bearer.0 b)
        | inr (ws, q) ↦ inr (ws, query.0 q)
      ]),
      (λ o.
          opened ∙ back (elim o [ inl b ↦ inl (bearer.1 b) | inr (ws, q) ↦ inr (ws, query.1 q) ])),
    )

token-Without : Without 61 (codes "token")
token-Without = omega arith

-- With an access token of less than 128 characters, none of them a blank, a request is let in
-- exactly if its Authorization header is a Bearer header with the access token, or, for a WebSocket,
-- if exactly one piece of the query of its target is `token=` with a value, and that value is
-- decoded to the access token.
pub request_authorized_iff :
    (auth_token : Bytes) (request : RequestInfo) (websocket : Bool)
    → 0 < length auth_token
    → length auth_token < token_max
    → IsText auth_token
    → IsSolid auth_token
    → IsText (text_of request.authorization)
    → (request_authorized auth_token request websocket ≡ true) ↔ (
        IsBearer auth_token (text_of request.authorization)
        ⊎ ((websocket ≡ true)
            × (v : Bytes) × OnlyValue (codes "token") v (query_pieces request.target)
            × (url_decode_component token_max v ≡ some auth_token)))
request_authorized_iff auth_token request websocket some_token fits text solid clean =
    let (through, back) =
      request_authorized-lookups auth_token request websocket some_token text clean in
    let (as_header, as_found) =
      bearer_token_iff auth_token (text_of request.authorization) solid some_token fits in
    let (as_query, as_value) =
      query_value_iff request.target (codes "token") token_max auth_token token-Without in
    (
      (λ e. elim (through e) [
        | inl b ↦ inl (as_header b)
        | inr (ws, q) ↦ let (v, only, is) = as_query q in inr (ws, v, only, is)
      ]),
      (λ o. back (elim o [
        | inl b ↦ inl (as_found b)
        | inr (ws, v, only, is) ↦ inr (ws, as_value (v, only, is))
      ])),
    )

both : (a b : Bool) → (a && b ≡ true) ↔ ((a ≡ true) × (b ≡ true))
both true b = ((λ e. (refl, e)), (λ h. h.1))
both false b = ((λ e. cc), (λ h. cc))

-- The text in an array is not empty.
abbrev pub IsSome : Bytes → Type 0
IsSome text = 0 < length text

not_empty : (text : Bytes) → (not (length text == 0) ≡ true) ↔ IsSome text
not_empty [] = ((λ e. cc), (λ h. absurd (omega arith)))
not_empty (c ∷ text) = ((λ e. omega arith), (λ h. ground arith))

nil-not : (c : ℕ) (text : Bytes) → ¬ (c ∷ text ≡ [])
nil-not c text e = cc

empty : (text : Bytes) → ((length text == 0) ≡ true) ↔ (text ≡ [])
empty [] = ((λ e. refl), (λ e. refl))
empty (c ∷ text) = ((λ e. absurd (ground arith)), (λ e. absurd (nil-not c text e)))

either :
    (a b c : Bool)
    → ((if a then true else if b then true else c) ≡ true)
      ↔ ((a ≡ true) ⊎ ((b ≡ true) ⊎ (c ≡ true)))
either true b c = ((λ e. inl refl), (λ h. refl))
either false true c = ((λ e. inr (inl refl)), (λ h. refl))
either false false c = ((λ e. inr (inr e)), (λ h. ground arith))

scheme-IsText : IsText (codes "http://")
scheme-IsText = omega arith

append-IsText : (s t : Bytes) → IsText s → IsText t → IsText (s ++ t)
append-IsText [] t hs ht = ht
append-IsText (c ∷ s) t hs ht = (hs.0, append-IsText s t hs.1 ht)

same_origin_iff :
    (request : RequestInfo)
    → IsText (text_of request.origin)
    → IsText (text_of request.host)
    → length (text_of request.host) < 256
    → (same_origin request ≡ true) ↔ (
        IsSome (text_of request.host)
        × (text_of request.origin ≡ codes "http://" ++ text_of request.host))
unfolding same_origin
same_origin_iff request origin host fits =
    let expected = codes "http://" ++ text_of request.host in
    let same =
      constant_time_equal_iff (text_of request.origin) expected origin
        (append-IsText (codes "http://") (text_of request.host) scheme-IsText host) in
    let room : ltb (length expected) 512 ≡ true = ground arith in
    let some_host = not_empty (text_of request.host) in
    let tests =
      both (not (length (text_of request.host) == 0))
        (constant_time_equal (text_of request.origin) expected) in
    let opened : same_origin request ≡ (
        not (length (text_of request.host) == 0)
        && constant_time_equal (text_of request.origin) expected) =
      rw (same_origin, room, and_true (not (length (text_of request.host) == 0))) refl in
    (
      (λ e. let (h, o) = tests.0 (sym opened ∙ e) in (some_host.0 h, same.0 o)),
      (λ (h, o). opened ∙ tests.1 (some_host.1 h, same.1 o)),
    )

-- An Origin header is allowed exactly if there is none, if it is `http://` and the host of the
-- request, of less than 256 characters, or if it is the origin configured.
pub request_origin_allowed_iff :
    (allowed_origin : Bytes) (request : RequestInfo)
    → IsText allowed_origin
    → IsText (text_of request.origin)
    → IsText (text_of request.host)
    → length (text_of request.host) < 256
    → (request_origin_allowed allowed_origin request ≡ true) ↔ (
        (text_of request.origin ≡ [])
        ⊎ ((IsSome (text_of request.host)
              × (text_of request.origin ≡ codes "http://" ++ text_of request.host))
            ⊎ (IsSome allowed_origin × (text_of request.origin ≡ allowed_origin))))
unfolding request_origin_allowed
request_origin_allowed_iff allowed_origin request allowed origin host fits =
    let none_given = empty (text_of request.origin) in
    let same = same_origin_iff request origin host fits in
    let some_allowed = not_empty allowed_origin in
    let configured =
      constant_time_equal_iff (text_of request.origin) allowed_origin origin allowed in
    let tests =
      both (not (length allowed_origin == 0))
        (constant_time_equal (text_of request.origin) allowed_origin) in
    let (through, back) = either (length (text_of request.origin) == 0) (same_origin request) (
      not (length allowed_origin == 0)
      && constant_time_equal (text_of request.origin) allowed_origin) in
    (
      (λ e. elim (through e) [
        | inl n ↦ inl (none_given.0 n)
        | inr (inl s) ↦ inr (inl (same.0 s))
        | inr (inr c) ↦ let (h, o) = tests.0 c in inr (inr (some_allowed.0 h, configured.0 o))
      ]),
      (λ o. back (elim o [
        | inl n ↦ inl (none_given.1 n)
        | inr (inl s) ↦ inr (inl (same.1 s))
        | inr (inr (h, o')) ↦ inr (inr (tests.1 (some_allowed.1 h, configured.1 o')))
      ])),
    )
