-- ===== src/Http/Auth/Value.antt =====
-- The one value that a query gives a name, beside `query_value`.
use mathlib.Core.Path.{subst}
use mathlib.Core.List.{append-nil}
use openwrt_nes_emulator.Base.{
  ℕ, ◌+◌, ◌≡◌, ◌↔◌, inl, inr, refl, ap, ap₂, sym, ◌∙◌, Bool, true, false, List, [], ◌∷◌, ◌++◌,
  Option, none, some, Bytes, length, ◌==◌, if◌then◌else◌, arith, All, split_at, cons_first,
  same_bytes, same_bytes-eq, Bool-cases, Option-cases, ==_iff,
}
use openwrt_nes_emulator.Http.{url_decode_component}
use openwrt_nes_emulator.Http.Request.Print.{Without, split_at-front}
use openwrt_nes_emulator.Http.Auth.{
  Lookup, absent, refused, found, named_value, add_value, query_rounds, query_value,
}
use openwrt_nes_emulator.Http.Auth.Query.{
  pieces, query_pieces, Unnamed, OnlyValue, scan, rounds-scan,
}

same_bytes_refl : (s : Bytes) → same_bytes s s ≡ true
same_bytes_refl [] = refl
same_bytes_refl (c ∷ s) = let e : (c == c) ≡ true = ground arith in rw (e, same_bytes_refl s) refl

none-not : (x : Bytes × Bytes) → ¬ (none ≡ some x)
none-not x e = cc

some-parts :
    (a b a' b' : Bytes)
    → ◌≡◌ {A = Option (Bytes × Bytes)} (some (a, b)) (some (a', b'))
    → (a ≡ a') × (b ≡ b')
some-parts a b a' b' e = let left : a ≡ a' = cc in let right : b ≡ b' = cc in (left, right)

cons_first-some :
    (c : ℕ) (o : Option (Bytes × Bytes)) (front rest : Bytes)
    → cons_first c o ≡ some (front, rest)
    → (f : Bytes) × (o ≡ some (f, rest)) × (front ≡ c ∷ f)
cons_first-some c none front rest e = absurd (none-not (front, rest) e)
cons_first-some c (some (f, r)) front rest e =
    let (a, b) = some-parts (c ∷ f) r front rest e in (f, ap (λ t. some (f, t)) b, sym a)

split_at-whole :
    (d : ℕ) (s front rest : Bytes) → split_at d s ≡ some (front, rest) → s ≡ front ++ (d ∷ rest)
unfolding split_at
split_at-whole d [] front rest e = absurd (none-not (front, rest) e)
split_at-whole d (c ∷ s) front rest e = elim (Bool-cases (c == d)) [
  | inl is ↦
      let stopped : split_at d (c ∷ s) ≡ some ([], s) = rw is refl in
      let (none_before, same) = some-parts [] s front rest (sym stopped ∙ e) in
      rw (sym none_before, sym same) (ap (λ x. x ∷ s) ((==_iff c d).0 is))
  | inr is_not ↦
      let on : split_at d (c ∷ s) ≡ cons_first c (split_at d s) = rw is_not refl in
      let (f, split, same) = cons_first-some c (split_at d s) front rest (sym on ∙ e) in
      rw same (ap (λ t. c ∷ t) (split_at-whole d s f rest split))
]

if-some :
    (b : Bool) (value v : Bytes)
    → (if b then some value else none) ≡ some v
    → (b ≡ true) × (value ≡ v)
if-some true value v e = (refl, cc)
if-some false value v e = (cc, cc)

no_value : (v : Bytes) → ¬ (none ≡ some v)
no_value v e = cc

named_value-whole :
    (name piece v : Bytes) → named_value name piece ≡ some v → piece ≡ name ++ (61 ∷ v)
named_value-whole name piece v e = elim (Option-cases (split_at 61 piece)) [
  | inl no_split ↦
      let unnamed : named_value name piece ≡ none =
        unfold named_value in rw (named_value, no_split) refl in
      absurd (no_value v (sym unnamed ∙ e))
  | inr ((key, value), split) ↦
      let named : named_value name piece ≡ (if same_bytes key name then some value else none) =
        unfold named_value in rw (named_value, split) refl in
      let (same_key, same_value) = if-some (same_bytes key name) value v (sym named ∙ e) in
      split_at-whole 61 piece key value split
      ∙ ap₂ (λ k x. k ++ (61 ∷ x)) (same_bytes-eq key name same_key) same_value
]

named_value-read : (name v : Bytes) → Without 61 name → named_value name (name ++ (61 ∷ v)) ≡ some v
unfolding named_value
named_value-read name v h = rw (named_value, split_at-front 61 name v h, same_bytes_refl name) refl

module _ (name : Bytes) (out_size : ℕ) where
  scan-other :
      (seen : Lookup) (p : Bytes) (ps : List Bytes)
      → named_value name p ≡ none
      → scan name out_size seen (p ∷ ps) ≡ scan name out_size seen ps
  unfolding scan
  scan-other seen p ps e = rw (scan, e) refl

  scan-named :
      (seen : Lookup) (p v : Bytes) (ps : List Bytes)
      → named_value name p ≡ some v
      → scan name out_size seen (p ∷ ps) ≡ elim (add_value out_size v seen) as (λ x. Lookup) [
        | refused ↦ refused
        | absent ↦ absent
        | found out ↦ scan name out_size (found out) ps
      ]
  unfolding scan
  scan-named seen p v ps e = rw (scan, e) refl

  scan-again :
      (out p v : Bytes) (ps : List Bytes)
      → named_value name p ≡ some v
      → scan name out_size (found out) (p ∷ ps) ≡ refused
  unfolding add_value
  scan-again out p v ps e = scan-named (found out) p v ps e

  scan-bad :
      (p v : Bytes) (ps : List Bytes)
      → named_value name p ≡ some v
      → url_decode_component out_size v ≡ none
      → scan name out_size absent (p ∷ ps) ≡ refused
  unfolding add_value
  scan-bad p v ps e bad = scan-named absent p v ps e ∙ rw (add_value, bad) refl

  scan-first :
      (p v out : Bytes) (ps : List Bytes)
      → named_value name p ≡ some v
      → url_decode_component out_size v ≡ some out
      → scan name out_size absent (p ∷ ps) ≡ scan name out_size (found out) ps
  unfolding add_value
  scan-first p v out ps e good = scan-named absent p v ps e ∙ rw (add_value, good) refl

  refused-not : (t : Bytes) → ¬ (refused ≡ found t)
  refused-not t e = cc

  absent-not : (t : Bytes) → ¬ (absent ≡ found t)
  absent-not t e = cc

  found-same : (a b : Bytes) → found a ≡ found b → a ≡ b
  found-same a b e = cc

  some-not-none : (v : Bytes) → ¬ (some v ≡ none)
  some-not-none v e = cc

  module _ (no_equals : Without 61 name) where
    unnamed : (p : Bytes) → named_value name p ≡ none → Unnamed name p
    unnamed p e v same =
        some-not-none v
          (sym (named_value-read name v no_equals) ∙ ap (named_value name) (sym same) ∙ e)

    other_name : (p : Bytes) → Unnamed name p → named_value name p ≡ none
    other_name p h = elim (Option-cases (named_value name p)) [
      | inl e ↦ e
      | inr (v, e) ↦ absurd (h v (named_value-whole name p v e))
    ]

    scan-Unnamed :
        (seen : Lookup) (before ps : List Bytes)
        → All (Unnamed name) before
        → scan name out_size seen (before ++ ps) ≡ scan name out_size seen ps
    scan-Unnamed seen [] ps h = refl
    scan-Unnamed seen (p ∷ before) ps h =
        scan-other seen p (before ++ ps) (other_name p h.0) ∙ scan-Unnamed seen before ps h.1

    -- After a value is found, the rest has none.
    scan-rest :
        (out t : Bytes) (ps : List Bytes)
        → scan name out_size (found out) ps ≡ found t
        → All (Unnamed name) ps × (out ≡ t)
    unfolding scan
    scan-rest out t [] e = (tt, found-same out t e)
    scan-rest out t (p ∷ ps) e = elim (Option-cases (named_value name p)) [
      | inl other ↦
          let (rest, same) = scan-rest out t ps (sym (scan-other (found out) p ps other) ∙ e) in
          ((unnamed p other, rest), same)
      | inr (v, named) ↦ absurd (refused-not t (sym (scan-again out p v ps named) ∙ e))
    ]

    scan-OnlyValue :
        (t : Bytes) (ps : List Bytes)
        → scan name out_size absent ps ≡ found t
        → (v : Bytes) × OnlyValue name v ps × (url_decode_component out_size v ≡ some t)
    unfolding scan
    scan-OnlyValue t [] e = absurd (absent-not t e)
    scan-OnlyValue t (p ∷ ps) e = elim (Option-cases (named_value name p)) [
      | inl other ↦
          let (v, (before, after, same, none_before, none_after), decoded) =
            scan-OnlyValue t ps (sym (scan-other absent p ps other) ∙ e) in
          (
            v,
            (p ∷ before, after, ap (λ t. p ∷ t) same, (unnamed p other, none_before), none_after),
            decoded,
          )
      | inr (v, named) ↦ elim (Option-cases (url_decode_component out_size v)) [
        | inl bad ↦ absurd (refused-not t (sym (scan-bad p v ps named bad) ∙ e))
        | inr (out, good) ↦
            let (none_after, same) =
              scan-rest out t ps (sym (scan-first p v out ps named good) ∙ e) in
            (
              v,
              ([], ps, ap (λ t. t ∷ ps) (named_value-whole name p v named), tt, none_after),
              good ∙ ap some same,
            )
      ]
    ]

    OnlyValue-scan :
        (t v : Bytes) (ps : List Bytes)
        → OnlyValue name v ps
        → url_decode_component out_size v ≡ some t
        → scan name out_size absent ps ≡ found t
    unfolding scan
    OnlyValue-scan t v ps (before, after, same, none_before, none_after) decoded =
        let p = name ++ (61 ∷ v) in
        ap (scan name out_size absent) same
        ∙ scan-Unnamed absent before (p ∷ after) none_before
        ∙ scan-first p v t after (named_value-read name v no_equals) decoded
        ∙ ap (scan name out_size (found t)) (sym (append-nil after))
        ∙ scan-Unnamed (found t) after [] none_after

nothing-not : (xs : List Bytes) (x : Bytes) (ys : List Bytes) → ¬ ([] ≡ xs ++ (x ∷ ys))
nothing-not [] x ys e = cc
nothing-not (y ∷ xs) x ys e = cc

-- A value is found for a name exactly if one piece of the query, and only one, gives the name a
-- value, and this value is decoded to what is found.
pub query_value_iff :
    (target name : Bytes) (out_size : ℕ) (t : Bytes)
    → Without 61 name
    → (query_value target name out_size ≡ found t) ↔ (
        (v : Bytes) × OnlyValue name v (query_pieces target)
        × (url_decode_component out_size v ≡ some t))
query_value_iff target name out_size t no_equals = elim (Option-cases (split_at 63 target)) [
  | inl e ↦
      let no_query : query_value target name out_size ≡ absent =
        unfold query_value in rw (query_value, e) refl in
      let none_there : query_pieces target ≡ [] = rw (query_pieces, e) refl in
      (
        (λ is. absurd (absent-not name out_size t (sym no_query ∙ is))),
        (λ (v, (before, after, same, _, _), _).
            absurd (nothing-not before (name ++ (61 ∷ v)) after (sym none_there ∙ same))),
      )
  | inr ((_, query), e) ↦
      let visited : query_value target name out_size ≡ scan name out_size absent (pieces query) =
        let rounds : query_value target name out_size
            ≡ query_rounds (length query + 1) name out_size absent query =
          unfold query_value in rw (query_value, e) refl in
        rounds ∙ rounds-scan name out_size (length query + 1) query absent (omega arith) in
      let there : query_pieces target ≡ pieces query = rw (query_pieces, e) refl in
      (
        (λ is.
            rw there (scan-OnlyValue name out_size no_equals t (pieces query) (sym visited ∙ is))),
        (λ (v, only, decoded).
            visited
            ∙ OnlyValue-scan name out_size no_equals t v (pieces query)
                (subst (OnlyValue name v) there only) decoded),
      )
]
