-- ===== src/Http/Auth/Bearer.antt =====
-- The Authorization header that RFC 6750 asks for, beside `bearer_token`.
use openwrt_nes_emulator.Base.{
  ℕ, zero, suc, ◌<◌, ◌≡◌, ◌↔◌, ◌⊎◌, inl, inr, refl, ap, ap₂, sym, ◌∙◌, Bool, true, false, not, ◌&&◌,
  ◌||◌, [], ◌∷◌, ◌++◌, Bytes, length, take, drop, get_or, leb, ◌==◌, if◌then◌else◌, arith, All,
  is_blank, trim_start, trim_end, codes, same_letters, Bool-cases, and_split, lower, length-append,
  take-append, drop-append, take-append-drop,
}
use mathlib.Core.Path.{subst}
use openwrt_nes_emulator.Http.Auth.{Lookup, absent, refused, found, bearer_token, token_max}

abbrev pub AreBlanks : Bytes → Type 0
AreBlanks = All (λ c. is_blank c ≡ true)

-- No space and no tab.
abbrev pub IsSolid : Bytes → Type 0
IsSolid = All (λ c. is_blank c ≡ false)

-- `Bearer`, in whatever case, blanks, the token, and blanks.
abbrev pub IsBearer : Bytes → Bytes → Type 0
IsBearer token header =
    (scheme : Bytes) × (before : Bytes) × (after : Bytes) × (header
      ≡ scheme ++ (before ++ (token ++ after)))
    × (same_letters scheme (codes "Bearer") ≡ true)
    × (0 < length before)
    × AreBlanks before
    × AreBlanks after

trim_start_lem : (s : Bytes) → (before : Bytes) × AreBlanks before × (s ≡ before ++ trim_start s)
trim_start_lem [] = ([], tt, refl)
trim_start_lem (c ∷ s) = elim (Bool-cases (is_blank c)) [
  | inl e ↦
      let (before, blanks, same) = trim_start_lem s in
      rw e (c ∷ before, (e, blanks), ap (λ t. c ∷ t) same)
  | inr e ↦ rw e ([], tt, refl)
]

nil_of : (s : Bytes) → (length s == 0) ≡ true → s ≡ []
nil_of [] e = refl
nil_of (c ∷ s) e = absurd (ground arith)

-- Nothing but blanks is trimmed at the end.
trim_end_lem : (s : Bytes) → (after : Bytes) × AreBlanks after × (s ≡ trim_end s ++ after)
trim_end_lem [] = ([], tt, refl)
trim_end_lem (c ∷ s) =
    let (after, blanks, same) = trim_end_lem s in
    elim (Bool-cases (is_blank c && length (trim_end s) == 0)) [
      | inl e ↦
          let (blank, none_left) = and_split (is_blank c) (length (trim_end s) == 0) e in
          let all_after : s ≡ after = same ∙ ap (λ t. t ++ after) (nil_of (trim_end s) none_left) in
          rw e (c ∷ s, (blank, subst AreBlanks (sym all_after) blanks), refl)
      | inr e ↦ rw e (after, blanks, ap (λ t. c ∷ t) same)
    ]

trim_start-blanks : (before s : Bytes) → AreBlanks before → trim_start (before ++ s) ≡ trim_start s
trim_start-blanks [] s h = refl
trim_start-blanks (c ∷ before) s h = rw h.0 (trim_start-blanks before s h.1)

trim_end-blanks : (after : Bytes) → AreBlanks after → trim_end after ≡ []
trim_end-blanks [] h = refl
trim_end-blanks (c ∷ after) h = rw (h.0, trim_end-blanks after h.1) refl

trim_end-solid :
    (token after : Bytes) → IsSolid token → AreBlanks after → trim_end (token ++ after) ≡ token
trim_end-solid [] after h blanks = trim_end-blanks after blanks
trim_end-solid (c ∷ token) after h blanks = rw (h.0, trim_end-solid token after h.1 blanks) refl

same_letters-length : (a b : Bytes) → same_letters a b ≡ true → length a ≡ length b
same_letters-length [] [] e = refl
same_letters-length [] (y ∷ b) e = cc
same_letters-length (x ∷ a) [] e = cc
same_letters-length (x ∷ a) (y ∷ b) e =
    ap suc (same_letters-length a b (and_split (lower x == lower y) (same_letters a b) e).1)

-- A test that refuses, or says that there is nothing, was not passed.
found-else :
    (test : Bool) (x y : Lookup) (out : Bytes)
    → (x ≡ absent) ⊎ (x ≡ refused)
    → (if test then x else y) ≡ found out
    → (test ≡ false) × (y ≡ found out)
found-else true x y out (inl h) e = cc
found-else true x y out (inr h) e = cc
found-else false x y out h e = (refl, e)

-- A text whose first character is a blank.
blank_first :
    (s token : Bytes)
    → is_blank (get_or s 0 0) ≡ true
    → (before : Bytes) × (0 < length before) × AreBlanks before × (s ≡ before ++ trim_start s)
blank_first [] token e = cc
blank_first (c ∷ s) token e =
    let (before, blanks, same) = trim_start_lem s in
    rw e (c ∷ before, omega arith, (e, blanks), ap (λ t. c ∷ t) same)

get_or-drop : (n : ℕ) (s : Bytes) → get_or s n 0 ≡ get_or (drop n s) 0 0
get_or-drop zero s = refl
get_or-drop (suc n) [] = refl
get_or-drop (suc n) (c ∷ s) = get_or-drop n s

read-IsBearer :
    (header token : Bytes) → bearer_token token_max header ≡ found token → IsBearer token header
unfolding bearer_token
read-IsBearer header token e =
    let rest = drop 6 header in
    let inner = trim_end (trim_start rest) in
    let (some_header, e1) = found-else (length header == 0) absent _ token (inl refl) e in
    let (shape, e2) =
      found-else
        (not (same_letters (take 6 header) (codes "Bearer")) || not (is_blank (get_or header 6 0)))
        refused _ token (inr refl) e1 in
    let (size, e3) =
      found-else (length inner == 0 || leb token_max (length inner)) refused (found inner) token
        (inr refl) e2 in
    let scheme : same_letters (take 6 header) (codes "Bearer") ≡ true = ground arith in
    let blank : is_blank (get_or header 6 0) ≡ true = ground arith in
    let (before, some_blank, blanks, front) =
      blank_first rest token (ap is_blank (sym (get_or-drop 6 header)) ∙ blank) in
    let (after, blanks', back) = trim_end_lem (trim_start rest) in
    let is : inner ≡ token = cc in
    (
      take 6 header,
      before,
      after,
      sym (take-append-drop 6 header)
          ∙ ap (λ t. take 6 header ++ t)
              (front ∙ ap (λ t. before ++ t) (back ∙ ap (λ t. t ++ after) is)),
      scheme,
      some_blank,
      blanks,
      blanks',
    )

-- In front of a text that does not begin with a blank.
trim_start-solid :
    (token after : Bytes)
    → IsSolid token
    → 0 < length token
    → trim_start (token ++ after) ≡ token ++ after
trim_start-solid [] after h some_token = absurd (omega arith)
trim_start-solid (c ∷ token) after h some_token = rw h.0 refl

IsBearer-read :
    (header token : Bytes)
    → IsSolid token
    → 0 < length token
    → length token < token_max
    → IsBearer token header
    → bearer_token token_max header ≡ found token
unfolding bearer_token
IsBearer-read header token solid some_token fits
      (scheme, [], after, same, letters, blank, blanks, blanks') =
    absurd (omega (arith, blank))
IsBearer-read header token solid some_token fits
      (scheme, b ∷ before, after, same, letters, blank, blanks, blanks') =
    let rest = (b ∷ before) ++ (token ++ after) in
    let six : length scheme ≡ 6 = same_letters-length scheme (codes "Bearer") letters in
    let front : take 6 header ≡ scheme = ap₂ take (sym six) same ∙ take-append scheme rest in
    let behind : drop 6 header ≡ rest = ap₂ drop (sym six) same ∙ drop-append scheme rest in
    let at_six : get_or header 6 0 ≡ b = get_or-drop 6 header ∙ ap (λ t. get_or t 0 0) behind in
    let started : trim_start rest ≡ token ++ after =
      trim_start-blanks (b ∷ before) (token ++ after) blanks
      ∙ trim_start-solid token after solid some_token in
    let ended = trim_end-solid token after solid blanks' in
    let some_header : (length header == 0) ≡ false =
      ap (λ t. length t == 0) same ∙ (let h = length-append scheme rest in ground arith) in
    let e : (length token == 0) ≡ false = ground arith in
    let f : leb token_max (length token) ≡ false = ground arith in
    rw (bearer_token, behind, started, ended, front, at_six, some_header, letters, e, f)
      (rw blanks.0 refl)

-- A token without blanks, of less than 128 characters, is found in a header exactly if the header
-- is a Bearer header with that token.
pub bearer_token_iff :
    (token header : Bytes)
    → IsSolid token
    → 0 < length token
    → length token < token_max
    → (bearer_token token_max header ≡ found token) ↔ IsBearer token header
bearer_token_iff token header solid some_token fits =
    (read-IsBearer header token, IsBearer-read header token solid some_token fits)
