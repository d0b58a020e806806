-- ===== src/Base/Codes.antt =====
-- Texts: C string literals as the lists of their bytes (they are ASCII), and what the sources of
-- package/nes-emulator/src do with `strchr` and blanks.
use Prim.Native.Char.{code}
use Prim.Native.String.{String}
use Prim.Native.Nat.{ℕ, zero, suc, ◌+◌}
use mathlib.Core.Path.{◌≡◌, refl, ap₂}
use mathlib.Core.Logic.{◌≢◌}
use mathlib.Core.Bool.{Bool, true, false, ◌&&◌, ◌||◌}
use mathlib.Core.List.{[], ◌∷◌}
use mathlib.Core.Option.{Option, none, some}
use openwrt_nes_emulator.Base.Lists.{Bytes, length, drop, All}
use openwrt_nes_emulator.Base.Tests.{◌==◌, ==_iff, and_split, within, if◌then◌else◌}

abbrev pub codes : String → Bytes
codes String.[] = []
codes (String.◌∷◌ c s) = code c ∷ codes s

abbrev pub cons_first : ℕ → Option (Bytes × Bytes) → Option (Bytes × Bytes)
cons_first c none = none
cons_first c (some (front, rest)) = some (c ∷ front, rest)

-- What stands before the first `d`, and behind it (`strchr`).
unfoldable pub split_at : ℕ → Bytes → Option (Bytes × Bytes)
split_at d [] = none
split_at d (c ∷ s) = if c == d then some ([], s) else cons_first c (split_at d s)

-- Spaces and tabs.
abbrev pub is_blank : ℕ → Bool
is_blank c = c == 32 || c == 9

abbrev pub trim_start : Bytes → Bytes
trim_start [] = []
trim_start (c ∷ s) = if is_blank c then trim_start s else c ∷ s

abbrev pub trim_end : Bytes → Bytes
trim_end [] = []
trim_end (c ∷ s) = let t = trim_end s in if is_blank c && length t == 0 then [] else c ∷ t

-- `strcmp` and, on ASCII letters, `strcasecmp`
abbrev pub same_bytes : Bytes → Bytes → Bool
same_bytes [] [] = true
same_bytes (a ∷ as') (b ∷ bs) = a == b && same_bytes as' bs
same_bytes _ _ = false

abbrev pub lower : ℕ → ℕ
lower c = if within 65 90 c then c + 32 else c

abbrev pub same_letters : Bytes → Bytes → Bool
same_letters [] [] = true
same_letters (a ∷ as') (b ∷ bs) = lower a == lower b && same_letters as' bs
same_letters _ _ = false

-- `memchr` and `strchr` as a test
abbrev pub has_byte : ℕ → Bytes → Bool
has_byte d [] = false
has_byte d (c ∷ s) = c == d || has_byte d s

abbrev pub all_of : (ℕ → Bool) → Bytes → Bool
all_of test [] = true
all_of test (c ∷ s) = test c && all_of test s

pub same_bytes-eq : (a b : Bytes) → same_bytes a b ≡ true → a ≡ b
same_bytes-eq [] [] e = refl
same_bytes-eq [] (y ∷ b) e = cc
same_bytes-eq (x ∷ a) [] e = cc
same_bytes-eq (x ∷ a) (y ∷ b) e =
    let (first, rest) = and_split (x == y) (same_bytes a b) e in
    ap₂ ◌∷◌ ((==_iff x y).0 first) (same_bytes-eq a b rest)

-- The characters of a C string.
abbrev pub IsText : Bytes → Type 0
IsText = All (λ c. c ≢ 0)

pub drop-IsText : (n : ℕ) (s : Bytes) → IsText s → IsText (drop n s)
drop-IsText zero s h = h
drop-IsText (suc n) [] h = tt
drop-IsText (suc n) (c ∷ s) h = drop-IsText n s h.1
