-- ===== src/Http/Request/End.antt =====
-- Where `find_header_end` of package/nes-emulator/src/http.c finds the end of a request.
use openwrt_nes_emulator.Base.{
  ℕ, suc, ◌+◌, ◌≡◌, ◌≢◌, refl, ap, ◌∙◌, false, List, [], ◌∷◌, ◌++◌, some, Bytes, length, ◌==◌,
  arith, length-append,
}
use mathlib.Core.List.{append_assoc}
use openwrt_nes_emulator.Http.Request.{find_header_end}
use openwrt_nes_emulator.Http.Request.Print.{
  Without, Without-append, IsToken, AreFields, IsTarget, http11, print_fields, print_request,
  tokens, targets, value_cr,
}

-- A character that is no carriage return is no part of the end.
skip : (i a : ℕ) (s : Bytes) → a ≢ 13 → find_header_end i (a ∷ s) ≡ find_header_end (i + 1) s
unfolding find_header_end
skip i a [] h = refl
skip i a (b ∷ []) h = refl
skip i a (b ∷ c ∷ []) h = refl
skip i a (b ∷ c ∷ d ∷ s) h =
    let e : (a == 13) ≡ false = ground arith in rw (find_header_end, e) refl

skip_line :
    (i : ℕ) (line s : Bytes)
    → Without 13 line
    → find_header_end i (line ++ s) ≡ find_header_end (i + length line) s
skip_line i [] s h = let e : i ≡ i + 0 = omega arith in ap (λ k. find_header_end k s) e
skip_line i (c ∷ line) s h =
    let e : i + 1 + length line ≡ i + suc (length line) = omega arith in
    skip i c (line ++ s) h.0 ∙ skip_line (i + 1) line s h.1 ∙ ap (λ k. find_header_end k s) e

-- A line end with something other than a line end behind it.
skip_eol :
    (i c : ℕ) (s : Bytes)
    → c ≢ 13
    → find_header_end i (13 ∷ 10 ∷ c ∷ s) ≡ find_header_end (i + 2) (c ∷ s)
unfolding find_header_end
skip_eol i c [] h = refl
skip_eol i c (d ∷ s) h =
    let e : (c == 13) ≡ false = ground arith in
    let two : i + 1 + 1 ≡ i + 2 = omega arith in
    rw (find_header_end, e)
      (skip (i + 1) 10 (c ∷ d ∷ s) (λ z. omega arith) ∙ ap (λ k. find_header_end k (c ∷ d ∷ s)) two)

found_end : (i : ℕ) (s : Bytes) → find_header_end i (13 ∷ 10 ∷ 13 ∷ 10 ∷ s) ≡ some (i + 4)
unfolding find_header_end
found_end i s = refl

-- From the line end before the fields on.
fields_end :
    (i : ℕ) (fields : List (Bytes × Bytes)) (body : Bytes)
    → AreFields fields
    → find_header_end i (13 ∷ 10 ∷ (print_fields fields ++ body))
      ≡ some (i + 2 + length (print_fields fields))
unfolding print_fields
fields_end i [] body h = let e : i + 4 ≡ i + 2 + 2 = omega arith in found_end i body ∙ ap some e
fields_end i (([], value) ∷ fields) body h = absurd (omega (arith, h.0.0.0))
fields_end i ((c ∷ name, value) ∷ fields) body h =
    let line = (c ∷ name) ++ (58 ∷ 32 ∷ value) in
    let rest = 13 ∷ 10 ∷ print_fields fields in
    let (_, no_cr, _, _) = tokens (c ∷ name) h.0.0.1 in
    let whole : Without 13 line =
      Without-append 13 (c ∷ name) (58 ∷ 32 ∷ value) no_cr
        ((λ e. omega arith), ((λ e. omega arith), value_cr value h.0.1.1)) in
    let sum : i + 2 + length line + 2 + length (print_fields fields)
        ≡ i + 2 + length (line ++ rest) =
      omega (arith, length-append line rest) in
    ap (λ t. find_header_end i (13 ∷ 10 ∷ t)) (append_assoc line rest body)
    ∙ skip_eol i c ((name ++ (58 ∷ 32 ∷ value)) ++ (rest ++ body)) no_cr.0
    ∙ skip_line (i + 2) line (rest ++ body) whole
    ∙ fields_end (i + 2 + length line) fields body h.1
    ∙ ap some sum

-- The end of a request that is written with tokens, an allowed target and `HTTP/1.1` is found,
-- whatever follows the request, right behind it.
pub find_header_end-print_request :
    (method target : Bytes) (fields : List (Bytes × Bytes)) (body : Bytes)
    → IsToken method
    → IsTarget target
    → AreFields fields
    → find_header_end 0 (print_request method target http11 fields ++ body)
      ≡ some (length (print_request method target http11 fields))
unfolding print_request
find_header_end-print_request method target fields body token is good =
    let line = method ++ (32 ∷ (target ++ (32 ∷ http11))) in
    let rest = 13 ∷ 10 ∷ print_fields fields in
    let (_, _, no_cr, _) = targets target is.1 in
    let (_, method_cr, _, _) = tokens method token.1 in
    let whole : Without 13 line =
      Without-append 13 method (32 ∷ (target ++ (32 ∷ http11))) method_cr
        ((λ e. omega arith), Without-append 13 target (32 ∷ http11) no_cr (omega arith)) in
    let sum : 0 + length line + 2 + length (print_fields fields) ≡ length (line ++ rest) =
      omega (arith, length-append line rest) in
    ap (find_header_end 0) (append_assoc line rest body)
    ∙ skip_line 0 line (rest ++ body) whole
    ∙ fields_end (0 + length line) fields body good
    ∙ ap some sum
