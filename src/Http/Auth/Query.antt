-- ===== src/Http/Auth/Query.antt =====
-- The pieces of a query, beside `query_value`.
use openwrt_nes_emulator.Base.{
  ℕ, zero, suc, ◌≤◌, ◌<◌, ◌≡◌, ◌≢◌, inl, inr, refl, ap, sym, ◌∙◌, true, false, ◌||◌, List, [], ◌∷◌,
  ◌++◌, Option, none, some, Bytes, length, ◌==◌, if◌then◌else◌, arith, All, split_at, Bool-cases,
}
use openwrt_nes_emulator.Http.Auth.{
  Lookup, absent, refused, found, to_separator, named_value, next_piece, add_value, ended,
  query_rounds,
}

abbrev pub grow : ℕ → List Bytes → List Bytes
grow c [] = (c ∷ []) ∷ []
grow c (p ∷ ps) = (c ∷ p) ∷ ps

-- What stands between `&`s, up to a `#` or the end.
unfoldable pub pieces : Bytes → List Bytes
pieces [] = [] ∷ []
pieces (c ∷ s) =
    let rest = pieces s in if c == 35 then [] ∷ [] else if c == 38 then [] ∷ rest else grow c rest

-- The target has one `?`, or more, and the query stands behind the first.
abbrev pub query_pieces : Bytes → List Bytes
query_pieces target = elim (split_at 63 target) [ none ↦ [] | some (_, query) ↦ pieces query ]

abbrev pub Unnamed : Bytes → Bytes → Type 0
Unnamed name piece = (v : Bytes) → piece ≢ name ++ (61 ∷ v)

-- One piece gives the name this value, and no other piece gives it any.
abbrev pub OnlyValue : Bytes → Bytes → List Bytes → Type 0
OnlyValue name v ps =
    (before : List Bytes) × (after : List Bytes) × (ps ≡ before ++ ((name ++ (61 ∷ v)) ∷ after))
    × All (Unnamed name) before
    × All (Unnamed name) after

-- The pieces behind a separator.
abbrev behind : Bytes → List Bytes
behind [] = []
behind (c ∷ s) = if c == 38 then pieces s else []

abbrev AtSeparator : Bytes → Type 0
AtSeparator [] = Unit
AtSeparator (c ∷ s) = (c == 38 || c == 35) ≡ true

behind_none : (c : ℕ) (s : Bytes) → (c == 38) ≡ false → behind (c ∷ s) ≡ []
behind_none c s e = rw e refl

behind_some : (c : ℕ) (s : Bytes) → (c == 38) ≡ true → behind (c ∷ s) ≡ pieces s
behind_some c s e = rw e refl

next_same : (c : ℕ) (s : Bytes) → (c == 38) ≡ false → next_piece (c ∷ s) ≡ c ∷ s
next_same c s e = rw e refl

pieces-first :
    (q : Bytes)
    → (pieces q ≡ (to_separator q).0 ∷ behind (to_separator q).1)
      × AtSeparator (to_separator q).1
      × (length (to_separator q).1 ≤ length q)
unfolding pieces
pieces-first [] = (refl, tt, omega arith)
pieces-first (c ∷ s) =
    let (same, at, fewer) = pieces-first s in
    elim (Bool-cases (c == 35)) [
      | inl e ↦
          let other : (c == 38) ≡ false = ground arith in
          let at : (c == 38 || c == 35) ≡ true = ground arith in
          rw (e, other) (ap (λ t. [] ∷ t) (sym (behind_none c s other)), at, omega arith)
      | inr e ↦ elim (Bool-cases (c == 38)) [
        | inl f ↦ rw (e, f) (ap (λ t. [] ∷ t) (sym (behind_some c s f)), rw f refl, omega arith)
        | inr f ↦ rw (e, f) (ap (grow c) same, at, omega (arith, fewer))
      ]
    ]

module _ (name : Bytes) (out_size : ℕ) where
  -- The loop over the pieces.
  unfoldable pub scan : Lookup → List Bytes → Lookup
  scan seen [] = seen
  scan seen (p ∷ ps) = elim (named_value name p) [
    | none ↦ scan seen ps
    | some value ↦ elim (add_value out_size value seen) [
      | refused ↦ refused
      | absent ↦ absent
      | found out ↦ scan (found out) ps
    ]
  ]

  rounds-ended :
      (fuel : ℕ) (seen : Lookup) (q : Bytes)
      → ended q ≡ true
      → query_rounds (suc fuel) name out_size seen q ≡ seen
  unfolding query_rounds
  rounds-ended fuel seen q e = rw (query_rounds, e) refl

  -- What the loop does over the pieces behind a separator, if it does so over fewer bytes.
  scan-behind :
      (fuel : ℕ) (rest : Bytes) (seen : Lookup)
      → AtSeparator rest
      → length rest ≤ fuel
      → ((s : Bytes)
          → length s < fuel
          → query_rounds fuel name out_size seen s ≡ scan seen (pieces s))
      → query_rounds fuel name out_size seen (next_piece rest) ≡ scan seen (behind rest)
  unfolding query_rounds scan
  scan-behind zero [] seen at enough same = refl
  scan-behind (suc fuel) [] seen at enough same = refl
  scan-behind zero (c ∷ s) seen at enough same = absurd (omega arith)
  scan-behind (suc fuel) (c ∷ s) seen at enough same = elim (Bool-cases (c == 38)) [
    | inl e ↦ rw e (same s (omega arith))
    | inr e ↦
        let hash : (c == 35) ≡ true = ground arith in
        let at_end : ended (c ∷ s) ≡ true = ground arith in
        ap (query_rounds (suc fuel) name out_size seen) (next_same c s e)
        ∙ rounds-ended fuel seen (c ∷ s) at_end
        ∙ ap (scan seen) (sym (behind_none c s e))
  ]

  module _ (f g : Lookup → Lookup) (same : (l : Lookup) → f l ≡ g l) where
    round-added :
        (a : Lookup)
        → elim a as (λ x. Lookup) [
          | refused ↦ refused
          | absent ↦ absent
          | found out ↦ f (found out)
        ]
          ≡ elim a as (λ x. Lookup) [
            | refused ↦ refused
            | absent ↦ absent
            | found out ↦ g (found out)
          ]
    round-added absent = refl
    round-added refused = refl
    round-added (found out) = same (found out)

    -- One round, whatever the rest of the rounds is called.
    round-same :
        (seen : Lookup) (value : Option Bytes)
        → elim value as (λ x. Lookup) [
          | none ↦ f seen
          | some v ↦ elim (add_value out_size v seen) as (λ x. Lookup) [
            | refused ↦ refused
            | absent ↦ absent
            | found out ↦ f (found out)
          ]
        ]
          ≡ elim value as (λ x. Lookup) [
            | none ↦ g seen
            | some v ↦ elim (add_value out_size v seen) as (λ x. Lookup) [
              | refused ↦ refused
              | absent ↦ absent
              | found out ↦ g (found out)
            ]
          ]
    round-same seen none = same seen
    round-same seen (some v) = round-added (add_value out_size v seen)

  scan-ended : (seen : Lookup) (q : Bytes) → ended q ≡ true → scan seen (pieces q) ≡ seen
  unfolding scan pieces named_value split_at
  scan-ended seen [] e = refl
  scan-ended seen (c ∷ s) e = let hash : (c == 35) ≡ true = ground arith in rw hash refl

  -- The loop of `query_value`, with enough rounds, visits the pieces.
  pub rounds-scan :
      (fuel : ℕ) (q : Bytes) (seen : Lookup)
      → length q < fuel
      → query_rounds fuel name out_size seen q ≡ scan seen (pieces q)
  unfolding query_rounds scan
  rounds-scan zero q seen few = absurd (omega arith)
  rounds-scan (suc fuel) q seen few = elim (Bool-cases (ended q)) [
    | inl e ↦ rounds-ended fuel seen q e ∙ sym (scan-ended seen q e)
    | inr e ↦
        let (piece, rest) = to_separator q in
        let (split, at, fewer) = pieces-first q in
        rw (split, query_rounds, e)
          (round-same (λ l. query_rounds fuel name out_size l (next_piece rest))
            (λ l. scan l (behind rest))
            (λ l.
              scan-behind fuel rest l at (omega arith) (λ s shorter. rounds-scan fuel s l shorter))
            seen (named_value name piece))
  ]
