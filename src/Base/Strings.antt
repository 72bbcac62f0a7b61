-- ===== src/Base/Strings.antt =====
-- Go strings as lists of code points, with the functions of package strings that the program
-- calls: equality, TrimSpace, HasPrefix, TrimPrefix and Split on one separator.
use Prim.Native.Char.{code}
use Prim.Native.String.{String}
use Prim.Native.Nat.{ℕ}
use mathlib.Core.Path.{◌≡◌, refl}
use mathlib.Core.Logic.{◌↔◌}
use mathlib.Core.Bool.{Bool, true, false, ◌&&◌, ◌||◌}
use mathlib.Core.List.{List, [], ◌∷◌, ◌++◌, reverse}
use native.Mathlib.Omega.{arith}
use xray_checker_tg_bot.Base.Tests.{◌==◌, leb, if◌then◌else◌}

abbrev pub Text : Type 0
Text = List ℕ

abbrev pub codes : String → Text
codes String.[] = []
codes (String.◌∷◌ c s) = code c ∷ codes s

unfoldable pub eqt : Text → Text → Bool
eqt [] [] = true
eqt [] (y ∷ ys) = false
eqt (x ∷ xs) [] = false
eqt (x ∷ xs) (y ∷ ys) = (x == y) && eqt xs ys

pub eqt_iff : (s t : Text) → (eqt s t ≡ true) ↔ (s ≡ t)
unfolding eqt
eqt_iff [] [] = ground arith
eqt_iff [] (y ∷ ys) = ground arith
eqt_iff (x ∷ xs) [] = ground arith
eqt_iff (x ∷ xs) (y ∷ ys) = ground (arith, eqt_iff xs ys)

pub eqt_refl : (s : Text) → eqt s s ≡ true
eqt_refl s = (eqt_iff s s).1 refl

-- unicode.IsSpace
unfoldable pub is_space : ℕ → Bool
is_space c =
    (leb 9 c && leb c 13)
    || (c == 32)
    || (c == 0x85)
    || (c == 0xa0)
    || (c == 0x1680)
    || (leb 0x2000 c && leb c 0x200a)
    || (c == 0x2028)
    || (c == 0x2029)
    || (c == 0x202f)
    || (c == 0x205f)
    || (c == 0x3000)

unfoldable pub trim_left : Text → Text
trim_left [] = []
trim_left (c ∷ s) = let rest = trim_left s in if is_space c then rest else c ∷ s

-- strings.TrimSpace
unfoldable pub trim_space : Text → Text
unfolding trim_left is_space
trim_space s = reverse (trim_left (reverse (trim_left s)))

-- strings.HasPrefix s prefix
unfoldable pub has_prefix : Text → Text → Bool
has_prefix s [] = true
has_prefix [] (p ∷ ps) = false
has_prefix (c ∷ s) (p ∷ ps) = (c == p) && has_prefix s ps

unfoldable pub drop_prefix : Text → Text → Text
drop_prefix s [] = s
drop_prefix [] (p ∷ ps) = []
drop_prefix (c ∷ s) (p ∷ ps) = drop_prefix s ps

-- strings.TrimPrefix s prefix
unfoldable pub trim_prefix : Text → Text → Text
unfolding has_prefix drop_prefix
trim_prefix s p = if has_prefix s p then drop_prefix s p else s

-- Does the text hold the character?
unfoldable pub has_char : ℕ → Text → Bool
has_char c [] = false
has_char c (d ∷ s) = (d == c) || has_char c s

-- s[:i] and s[i+1:] at the first separator
unfoldable pub cut : ℕ → Text → Text × List Text
cut sep [] = ([], [])
cut sep (c ∷ s) =
    let (word, rest) = cut sep s in if c == sep then ([], word ∷ rest) else (c ∷ word, rest)

-- strings.Split on a separator of one character: never empty.
unfoldable pub split : ℕ → Text → List Text
unfolding cut
split sep s = let (word, rest) = cut sep s in word ∷ rest

-- strings.Contains
unfoldable pub has_infix : Text → Text → Bool
has_infix [] p = has_prefix [] p
has_infix (c ∷ s) p = has_prefix (c ∷ s) p || has_infix s p

pub has_prefix-append : (p s : Text) → has_prefix (p ++ s) p ≡ true
unfolding has_prefix
has_prefix-append [] s = refl
has_prefix-append (c ∷ p) s = ground (arith, has_prefix-append p s)

pub drop_prefix-append : (p s : Text) → drop_prefix (p ++ s) p ≡ s
unfolding drop_prefix
drop_prefix-append [] s = refl
drop_prefix-append (c ∷ p) s = drop_prefix-append p s

pub trim_prefix-append : (p s : Text) → trim_prefix (p ++ s) p ≡ s
unfolding trim_prefix
trim_prefix-append p s = ground (arith, has_prefix-append p s, drop_prefix-append p s)

-- The sort order of sort.Strings, on code points (the same order as on UTF-8 bytes).
unfoldable pub le_text : Text → Text → Bool
le_text [] t = true
le_text (x ∷ xs) [] = false
le_text (x ∷ xs) (y ∷ ys) = if x == y then le_text xs ys else leb x y

pub has_char-append : (c : ℕ) (s t : Text) → has_char c (s ++ t) ≡ (has_char c s || has_char c t)
unfolding has_char
has_char-append c [] t = refl
has_char-append c (d ∷ s) t = ground (arith, has_char-append c s t)

pub cut_plain : (sep : ℕ) (s : Text) → has_char sep s ≡ false → cut sep s ≡ (s, [])
unfolding cut has_char
cut_plain sep [] h = refl
cut_plain sep (c ∷ s) h = ground (arith, cut_plain sep s)

pub cut-append :
    (sep : ℕ) (s t : Text)
    → has_char sep s ≡ false
    → cut sep (s ++ (sep ∷ t)) ≡ (s, (cut sep t).0 ∷ (cut sep t).1)
unfolding cut has_char
cut-append sep [] t h = ground arith
cut-append sep (c ∷ s) t h = ground (arith, cut-append sep s t)
