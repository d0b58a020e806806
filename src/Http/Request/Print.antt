-- ===== src/Http/Request/Print.antt =====
-- A request as RFC 9112 writes it, beside `parse_request`.
use openwrt_nes_emulator.Base.{
  has_byte, all_of, ℕ, zero, suc, ◌+◌, ◌*◌, ◌≤◌, ◌<◌, ◌≡◌, ◌≢◌, refl, ap, sym, ◌∙◌, true, false,
  List, [], ◌∷◌, ◌++◌, Option, none, some, Bytes, length, get_or, ltb, leb, ◌==◌, arith, All,
  cons_first, split_at, is_blank, codes, Option-cases, inl, inr,
}
use openwrt_nes_emulator.Http.Request.{
  token_char, trim_value, contains_ctl_or_crlf, RequestInfo, take_header, cut_line, header_line,
  header_rounds, parsed, split_request, line_malformed, known_method, target_char, path_of,
  blank_request, finish_request, parse_line, parse_request, text_of,
}

abbrev pub crlf : Bytes
crlf = 13 ∷ 10 ∷ []

-- Fields, an empty line, and nothing behind it.
unfoldable pub print_fields : List (Bytes × Bytes) → Bytes
print_fields [] = crlf
print_fields ((name, value) ∷ fields) =
    (name ++ (58 ∷ 32 ∷ value)) ++ (13 ∷ 10 ∷ print_fields fields)

unfoldable pub print_request : Bytes → Bytes → Bytes → List (Bytes × Bytes) → Bytes
print_request method target version fields =
    (method ++ (32 ∷ (target ++ (32 ∷ version)))) ++ (13 ∷ 10 ∷ print_fields fields)

-- The headers one after another.
unfoldable pub take_fields : List (Bytes × Bytes) → RequestInfo → Option RequestInfo
take_fields [] r = some r
take_fields ((name, value) ∷ fields) r = elim (take_header name value r) [
  | none ↦ none
  | some r' ↦ take_fields fields r'
]

abbrev pub Without : ℕ → Bytes → Type 0
Without d = All (λ c. c ≢ d)

pub Without-append : (d : ℕ) (xs ys : Bytes) → Without d xs → Without d ys → Without d (xs ++ ys)
Without-append d [] ys hx hy = hy
Without-append d (x ∷ xs) ys hx hy = (hx.0, Without-append d xs ys hx.1 hy)

cut-skip : (c d : ℕ) (s : Bytes) → c ≢ 13 → cut_line (c ∷ d ∷ s) ≡ cons_first c (cut_line (d ∷ s))
unfolding cut_line
cut-skip c d s h = let e : (c == 13) ≡ false = ground arith in rw (cut_line, e) refl

cut_line-crlf :
    (line rest : Bytes) → Without 13 line → cut_line (line ++ (13 ∷ 10 ∷ rest)) ≡ some (line, rest)
cut_line-crlf [] rest h = unfold cut_line in refl
cut_line-crlf (c ∷ []) rest h =
    cut-skip c 13 (10 ∷ rest) h.0 ∙ ap (cons_first c) (cut_line-crlf [] rest tt)
cut_line-crlf (c ∷ d ∷ line) rest h =
    cut-skip c d (line ++ (13 ∷ 10 ∷ rest)) h.0
    ∙ ap (cons_first c) (cut_line-crlf (d ∷ line) rest h.1)

pub split_at-front :
    (d : ℕ) (front rest : Bytes)
    → Without d front
    → split_at d (front ++ (d ∷ rest)) ≡ some (front, rest)
unfolding split_at
split_at-front d [] rest h = let e : (d == d) ≡ true = ground arith in rw e refl
split_at-front d (c ∷ front) rest h =
    let e : (c == d) ≡ false = ground arith in
    rw (split_at, e) (ap (cons_first c) (split_at-front d front rest h.1))

-- A name is a token; a value stays as it is when trimmed, and has no control character.
abbrev pub IsToken : Bytes → Type 0
IsToken name = (0 < length name) × All (λ c. token_char c ≡ true) name

abbrev pub IsValue : Bytes → Type 0
IsValue value = (trim_value (32 ∷ value) ≡ value) × (contains_ctl_or_crlf value ≡ false)

abbrev pub AreFields : List (Bytes × Bytes) → Type 0
AreFields = All (λ (name, value). IsToken name × IsValue value)

token_char-not :
    (c : ℕ) → token_char c ≡ true → (c ≢ 13) × (c ≢ 32) × (c ≢ 58) × (is_blank c ≡ false)
unfolding token_char
token_char-not c h = ground arith

pub tokens :
    (name : Bytes)
    → All (λ c. token_char c ≡ true) name
    → (all_of token_char name ≡ true) × Without 13 name × Without 32 name × Without 58 name
tokens [] h = (refl, tt, tt, tt)
tokens (c ∷ name) h =
    let (no_cr, no_space, no_colon, _) = token_char-not c h.0 in
    let (all, a, b, d) = tokens name h.1 in
    (rw (h.0, all) refl, (no_cr, a), (no_space, b), (no_colon, d))

pub value_cr : (value : Bytes) → contains_ctl_or_crlf value ≡ false → Without 13 value
unfolding contains_ctl_or_crlf
value_cr [] h = tt
value_cr (c ∷ value) h = (ground arith, value_cr value (ground arith))

header_line-field :
    (name value : Bytes)
    → IsToken name
    → IsValue value
    → header_line (name ++ (58 ∷ 32 ∷ value)) ≡ some (name, value)
unfolding header_line
header_line-field [] value token is = absurd (omega (arith, token.0))
header_line-field (c ∷ name) value token (trimmed, clean) =
    let (all, _, _, no_colon) = tokens (c ∷ name) token.1 in
    let (_, _, _, no_blank) = token_char-not c token.1.0 in
    let split = split_at-front 58 (c ∷ name) (32 ∷ value) no_colon in
    let some_name : (length (c ∷ name) == 0) ≡ false = ground arith in
    rw (no_blank, split) (rw (trimmed) (rw (all, clean, some_name) refl))

rounds-end : (fuel count : ℕ) (r : RequestInfo) → header_rounds (suc fuel) count crlf r ≡ some r
unfolding header_rounds cut_line
rounds-end fuel count r = refl

-- A field that is taken, and the fields behind it.
rounds-field :
    (fuel count : ℕ) (name value rest : Bytes) (r r' : RequestInfo)
    → IsToken name
    → IsValue value
    → count < 100
    → take_header name value r ≡ some r'
    → header_rounds (suc fuel) count ((name ++ (58 ∷ 32 ∷ value)) ++ (13 ∷ 10 ∷ rest)) r
      ≡ header_rounds fuel (count + 1) rest r'
unfolding header_rounds
rounds-field fuel count [] value rest r r' token is few taken = absurd (omega (arith, token.0))
rounds-field fuel count (c ∷ name) value rest r r' token is few taken =
    let line = (c ∷ name) ++ (58 ∷ 32 ∷ value) in
    let (_, no_cr, _, _) = tokens (c ∷ name) token.1 in
    let whole : Without 13 line =
      Without-append 13 (c ∷ name) (58 ∷ 32 ∷ value) no_cr
        ((λ e. omega arith), ((λ e. omega arith), value_cr value is.1)) in
    let cut : cut_line (line ++ (13 ∷ 10 ∷ rest)) ≡ some (line, rest) =
      cut_line-crlf line rest whole in
    let field = header_line-field (c ∷ name) value token is in
    let more : (length (line ++ (13 ∷ 10 ∷ rest)) == 0) ≡ false = ground arith in
    let some_line : (length line == 0) ≡ false = ground arith in
    let allowed : ltb 100 (count + 1) ≡ false = ground arith in
    rw (header_rounds, more, cut, some_line, allowed, field, taken) refl

take-some :
    (name value : Bytes) (fields : List (Bytes × Bytes)) (r r1 : RequestInfo)
    → take_header name value r ≡ some r1
    → take_fields ((name, value) ∷ fields) r ≡ take_fields fields r1
unfolding take_fields
take-some name value fields r r1 e = rw (take_fields, e) refl

take-none :
    (name value : Bytes) (fields : List (Bytes × Bytes)) (r : RequestInfo)
    → take_header name value r ≡ none
    → take_fields ((name, value) ∷ fields) r ≡ none
unfolding take_fields
take-none name value fields r e = rw (take_fields, e) refl

header_rounds-print_fields :
    (fuel count : ℕ) (fields : List (Bytes × Bytes)) (r r' : RequestInfo)
    → AreFields fields
    → length fields < fuel
    → count + length fields ≤ 100
    → take_fields fields r ≡ some r'
    → header_rounds fuel count (print_fields fields) r ≡ some r'
unfolding print_fields take_fields
header_rounds-print_fields zero count fields r r' h enough few e = absurd (omega arith)
header_rounds-print_fields (suc fuel) count [] r r' h enough few e = rounds-end fuel count r ∙ e
header_rounds-print_fields (suc fuel) count ((name, value) ∷ fields) r r' h enough few e =
    elim (Option-cases (take_header name value r)) [
      | inl bad ↦ cc (take-none name value fields r bad)
      | inr (r1, taken) ↦
          rounds-field fuel count name value (print_fields fields) r r1 h.0.0 h.0.1 (omega arith)
            taken
          ∙ header_rounds-print_fields fuel (count + 1) fields r1 r' h.1 (omega arith) (omega arith)
              (sym (take-some name value fields r r1 taken) ∙ e)
    ]

-- What may be asked for: a path with a query, of visible characters.
abbrev pub IsTarget : Bytes → Type 0
IsTarget target =
    (get_or target 0 0 ≡ 47)
    × All (λ c. target_char c ≡ true) target
    × (length target < 1024)
    × (length (path_of target) < 512)

pub targets :
    (target : Bytes)
    → All (λ c. target_char c ≡ true) target
    → (all_of target_char target ≡ true) × Without 0 target × Without 13 target × Without 32 target
targets [] h = (refl, tt, tt, tt)
targets (c ∷ target) h =
    let (all, a, b, d) = targets target h.1 in
    (rw (h.0, all) refl, (ground arith, a), (ground arith, b), (ground arith, d))

path_after :
    (target : Bytes) (c : ℕ) (o : Option (Bytes × Bytes))
    → split_at 63 target ≡ cons_first c o
    → 0 < length target
    → 0 < length (path_of target)
path_after target c none e h = rw (length, e) h
path_after target c (some (front, rest)) e h = rw (length, e) (omega arith)

path_some : (target : Bytes) → get_or target 0 0 ≡ 47 → 0 < length (path_of target)
path_some [] h = absurd (omega arith)
path_some (c ∷ target) h =
    let e : (c == 63) ≡ false = ground arith in
    path_after (c ∷ target) c (split_at 63 target) (unfold split_at in rw e refl) (omega arith)

some_bytes : (target : Bytes) → get_or target 0 0 ≡ 47 → (length target == 0) ≡ false
some_bytes [] h = absurd (omega arith)
some_bytes (c ∷ target) h = ground arith

has_byte-Without : (d : ℕ) (s : Bytes) → Without d s → has_byte d s ≡ false
has_byte-Without d [] h = refl
has_byte-Without d (c ∷ s) h =
    let e : (c == d) ≡ false = ground arith in rw (e, has_byte-Without d s h.1) refl

value_nul : (value : Bytes) → contains_ctl_or_crlf value ≡ false → Without 0 value
unfolding contains_ctl_or_crlf
value_nul [] h = tt
value_nul (c ∷ value) h = (ground arith, value_nul value (ground arith))

token_nul : (name : Bytes) → All (λ c. token_char c ≡ true) name → Without 0 name
unfolding token_char
token_nul [] h = tt
token_nul (c ∷ name) h = (ground arith, token_nul name h.1)

fields_nul : (fields : List (Bytes × Bytes)) → AreFields fields → Without 0 (print_fields fields)
unfolding print_fields
fields_nul [] h = ((λ e. omega arith), ((λ e. omega arith), tt))
fields_nul ((name, value) ∷ fields) h =
    Without-append 0 (name ++ (58 ∷ 32 ∷ value)) (13 ∷ 10 ∷ print_fields fields)
      (Without-append 0 name (58 ∷ 32 ∷ value) (token_nul name h.0.0.1)
        ((λ e. omega arith), ((λ e. omega arith), value_nul value h.0.1.1)))
      ((λ e. omega arith), ((λ e. omega arith), fields_nul fields h.1))

abbrev pub http11 : Bytes
http11 = codes "HTTP/1.1"

module _ (method target : Bytes) (fields : List (Bytes × Bytes)) (r : RequestInfo) where
  module _ (token : IsToken method) (short : length method < 8) (known : known_method method ≡ true)
      (is : IsTarget target) (good : AreFields fields) (few : length fields ≤ 100)
      (taken : take_fields fields (blank_request method target) ≡ some r) where
    abbrev line : Bytes
    line = method ++ (32 ∷ (target ++ (32 ∷ http11)))

    cut : cut_line (print_request method target http11 fields) ≡ some (line, print_fields fields)
    unfolding print_request
    cut =
        let (_, _, no_cr, _) = targets target is.1 in
        let (_, method_cr, _, _) = tokens method token.1 in
        cut_line-crlf line (print_fields fields) (
          Without-append 13 method (32 ∷ (target ++ (32 ∷ http11))) method_cr
            ((λ e. omega arith), Without-append 13 target (32 ∷ http11) no_cr (omega arith)))

    split : split_request line ≡ some (method, target, http11)
    unfolding split_request
    split =
        let (_, _, no_space, _) = tokens method token.1 in
        let (_, _, _, target_space) = targets target is.1 in
        rw
          (
            split_request,
            split_at-front 32 method (target ++ (32 ∷ http11)) no_space,
            split_at-front 32 target http11 target_space,
          )
          refl

    well_formed : line_malformed method target http11 ≡ false
    unfolding line_malformed
    well_formed =
        let (all, _, _, _) = tokens method token.1 in
        let some_method : (length method == 0) ≡ false = ground arith in
        let some_target : (length target == 0) ≡ false = some_bytes target is.0 in
        let fits : leb 8 (length method) ≡ false = ground arith in
        let target_fits : leb 1024 (length target) ≡ false = ground arith in
        let slash : (get_or target 0 0 == 47) ≡ true = ground arith in
        rw (all, some_method, some_target, fits, target_fits, slash) refl

    no_nul : Without 0 (print_request method target http11 fields)
    unfolding print_request
    no_nul =
        let (_, target_nul, _, _) = targets target is.1 in
        Without-append 0 line (13 ∷ 10 ∷ print_fields fields)
          (Without-append 0 method (32 ∷ (target ++ (32 ∷ http11))) (token_nul method token.1)
            ((λ e. omega arith), Without-append 0 target (32 ∷ http11) target_nul (omega arith)))
          ((λ e. omega arith), ((λ e. omega arith), fields_nul fields good))

    -- A request of at most 16 KiB that is written with a token of less than 8 characters that the
    -- program knows as a method, a target it allows, `HTTP/1.1`, and at most 100 fields whose names
    -- are tokens and whose values are trimmed and have no control character, is read back: its
    -- fields are taken one after another. There is no Transfer-Encoding among them, and a host.
    pub parse_request-print_request :
        length (print_request method target http11 fields) ≤ 16 * 1024
        → r.has_transfer_encoding ≡ false
        → (length (text_of r.host) == 0) ≡ false
        → parse_request (print_request method target http11 fields) ≡ parsed r
    unfolding parse_request parse_line finish_request
    parse_request-print_request fits no_encoding has_host =
        let size : ltb (16 * 1024) (length (print_request method target http11 fields)) ≡ false =
          ground arith in
        let text = has_byte-Without 0 (print_request method target http11 fields) no_nul in
        let (visible, _, _, _) = targets target is.1 in
        let some_path : (length (path_of target) == 0) ≡ false =
          let h = path_some target is.0 in ground arith in
        let path_fits : leb 512 (length (path_of target)) ≡ false = ground arith in
        let rounds =
          header_rounds-print_fields 102 0 fields (blank_request method target) r good (omega arith)
            (omega arith) taken in
        rw
          (
            size, text, cut, split, well_formed, known, visible, some_path, path_fits, rounds,
            no_encoding, has_host,
          )
          refl
