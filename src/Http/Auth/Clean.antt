-- ===== src/Http/Auth/Clean.antt =====
-- The lookups of `bearer_token` and `query_value`, as C strings.
use openwrt_nes_emulator.Base.{
  IsText, drop-IsText, ℕ, zero, suc, ◌+◌, ◌≡◌, ◌≢◌, ◌⊎◌, inl, inr, refl, Bool, true, false, not,
  ◌&&◌, ◌||◌, [], ◌∷◌, Option, none, some, Bytes, length, take, drop, get_or, leb, ◌==◌,
  if◌then◌else◌, All, is_blank, trim_start, trim_end, codes, same_letters, Bool-cases, Option-cases,
  split_at,
}
use mathlib.Core.Path.{subst}
use openwrt_nes_emulator.Http.{url_decode_component}
use openwrt_nes_emulator.Http.Url.{Harmless, url_decode_component-Harmless}
use openwrt_nes_emulator.Http.Auth.{
  Lookup, absent, refused, found, bearer_token, to_separator, named_value, next_piece, ended,
  add_value, query_rounds, query_value,
}

-- What is found is a C string.
abbrev pub Clean : Lookup → Type 0
Clean absent = Unit
Clean refused = Unit
Clean (found out) = IsText out

trim_start-IsText : (s : Bytes) → IsText s → IsText (trim_start s)
trim_start-IsText [] h = tt
trim_start-IsText (c ∷ s) h = elim (Bool-cases (is_blank c)) [
  | inl e ↦ rw e (trim_start-IsText s h.1)
  | inr e ↦ rw e h
]

trim_end-IsText : (s : Bytes) → IsText s → IsText (trim_end s)
trim_end-IsText [] h = tt
trim_end-IsText (c ∷ s) h = elim (Bool-cases (is_blank c && length (trim_end s) == 0)) [
  | inl e ↦ rw e tt
  | inr e ↦ rw e (h.0, trim_end-IsText s h.1)
]

if-Clean : (b : Bool) (x y : Lookup) → Clean x → Clean y → Clean (if b then x else y)
if-Clean true x y hx hy = hx
if-Clean false x y hx hy = hy

pub bearer_token-Clean :
    (out_size : ℕ) (authorization : Bytes)
    → IsText authorization
    → Clean (bearer_token out_size authorization)
unfolding bearer_token
bearer_token-Clean out_size authorization h =
    let token = trim_end (trim_start (drop 6 authorization)) in
    let clean : IsText token =
      trim_end-IsText (trim_start (drop 6 authorization))
        (trim_start-IsText (drop 6 authorization) (drop-IsText 6 authorization h)) in
    if-Clean (length authorization == 0) absent
      (if not (same_letters (take 6 authorization) (codes "Bearer"))
          || not (is_blank (get_or authorization 6 0))
        then refused
        else if length token == 0 || leb out_size (length token)
        then refused
        else found token)
      tt
      (if-Clean
        (not (same_letters (take 6 authorization) (codes "Bearer"))
          || not (is_blank (get_or authorization 6 0)))
        refused (if length token == 0 || leb out_size (length token) then refused else found token)
        tt
        (if-Clean (length token == 0 || leb out_size (length token)) refused (found token) tt
          clean))

texts : (s : Bytes) → All (λ c. (c ≢ 0) × (c ≢ 13) × (c ≢ 10)) s → IsText s
texts [] h = tt
texts (c ∷ s) h = (h.0.0, texts s h.1)

decoded-Clean :
    (out_size : ℕ) (value : Bytes) (o : Option Bytes)
    → url_decode_component out_size value ≡ o
    → Harmless 0 out_size o
    → Clean (add_value out_size value absent)
unfolding add_value
decoded-Clean out_size value none e h = rw (add_value, e) tt
decoded-Clean out_size value (some out) e h = rw (add_value, e) (texts out h.1)

add_value-Clean :
    (out_size : ℕ) (value : Bytes) (seen : Lookup) → Clean (add_value out_size value seen)
unfolding add_value
add_value-Clean out_size value (found out) = tt
add_value-Clean out_size value refused = tt
add_value-Clean out_size value absent =
    decoded-Clean out_size value _ refl (url_decode_component-Harmless out_size value)

Lookup-cases : (o : Lookup) → ((o ≡ absent) ⊎ (o ≡ refused)) ⊎ ((out : Bytes) × (o ≡ found out))
Lookup-cases absent = inl (inl refl)
Lookup-cases refused = inl (inr refl)
Lookup-cases (found out) = inr (out, refl)

query_rounds-Clean :
    (fuel : ℕ) (name : Bytes) (out_size : ℕ) (seen : Lookup) (query : Bytes)
    → Clean seen
    → Clean (query_rounds fuel name out_size seen query)
unfolding query_rounds
query_rounds-Clean zero name out_size seen query h = h
query_rounds-Clean (suc fuel) name out_size seen query h =
    let (piece, rest) = to_separator query in
    elim (Bool-cases (ended query)) [
      | inl e ↦ rw (query_rounds, e) h
      | inr e ↦ elim (Option-cases (named_value name piece)) [
        | inl other ↦
            rw (query_rounds, e, other)
              (query_rounds-Clean fuel name out_size seen (next_piece rest) h)
        | inr (value, same) ↦ elim (Lookup-cases (add_value out_size value seen)) [
          | inl (inl never) ↦ rw (query_rounds, e, same, never) tt
          | inl (inr bad) ↦ rw (query_rounds, e, same, bad) tt
          | inr (out, good) ↦
              rw (query_rounds, e, same, good)
                (query_rounds-Clean fuel name out_size (found out) (next_piece rest)
                  (subst Clean good (add_value-Clean out_size value seen)))
        ]
      ]
    ]

pub query_value-Clean :
    (target name : Bytes) (out_size : ℕ) → Clean (query_value target name out_size)
query_value-Clean target name out_size =
    unfold query_value in
    elim (Option-cases (split_at 63 target)) [
      | inl e ↦ rw (query_value, e) tt
      | inr ((_, query), e) ↦
          rw (query_value, e) (query_rounds-Clean (length query + 1) name out_size absent query tt)
    ]
