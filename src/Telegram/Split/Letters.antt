-- ===== src/Telegram/Split/Letters.antt =====
-- The letters of a text and of its lines.
use xray_checker_tg_bot.Base.{
  Text, ℕ, ◌+◌, true, false, List, [], ◌∷◌, ◌++◌, All, has_char, ◌==◌, if◌then◌else◌, ◌≡◌, refl,
  sym, ◌∙◌, ap, subst, arith, Bool-cases, inl, inr, split, cut,
}
use xray_checker_tg_bot.Telegram.Split.{len}

pub len-append : (s t : Text) → len (s ++ t) ≡ len s + len t
unfolding len
len-append [] t = omega arith
len-append (c ∷ s) t = omega (arith, len-append s t)

-- A text without its line breaks.
unfoldable pub letters : Text → Text
letters [] = []
letters (c ∷ s) = let rest = letters s in if c == 10 then rest else c ∷ rest

unfoldable pub all_letters : List Text → Text
all_letters [] = []
all_letters (s ∷ ss) = letters s ++ all_letters ss

pub append_assoc : (a b c : Text) → (a ++ b) ++ c ≡ a ++ (b ++ c)
append_assoc [] b c = refl
append_assoc (x ∷ a) b c = ap (λ l. x ∷ l) (append_assoc a b c)

pub append_nil : (a : Text) → a ++ [] ≡ a
append_nil [] = refl
append_nil (x ∷ a) = ap (λ l. x ∷ l) (append_nil a)

pub letters-append : (s t : Text) → letters (s ++ t) ≡ letters s ++ letters t
unfolding letters
letters-append [] t = refl
letters-append (c ∷ s) t = ground (arith, letters-append s t)

pub all_letters-append : (a b : List Text) → all_letters (a ++ b) ≡ all_letters a ++ all_letters b
unfolding all_letters
all_letters-append [] b = refl
all_letters-append (s ∷ a) b =
    ap (λ l. letters s ++ l) (all_letters-append a b)
    ∙ sym (append_assoc (letters s) (all_letters a) (all_letters b))

-- The lines of a text hold its letters, and have no tag if the text has none.
pub all_letters-split : (s : Text) → all_letters (split 10 s) ≡ letters s
unfolding all_letters letters split cut
all_letters-split [] = refl
all_letters-split (c ∷ s) = ground (arith, all_letters-split s)

abbrev pub IsPlain : Text → Type 0
IsPlain s = has_char b'<' s ≡ false

cut_break :
    (c : ℕ) (s : Text) → (c == 10) ≡ true → cut 10 (c ∷ s) ≡ ([], (cut 10 s).0 ∷ (cut 10 s).1)
unfolding cut
cut_break c s h = ground arith

cut_other :
    (c : ℕ) (s : Text) → (c == 10) ≡ false → cut 10 (c ∷ s) ≡ (c ∷ (cut 10 s).0, (cut 10 s).1)
unfolding cut
cut_other c s h = ground arith

pub split-IsPlain : (s : Text) → IsPlain s → All IsPlain (split 10 s)
unfolding split cut has_char
split-IsPlain [] h = (refl, tt)
split-IsPlain (c ∷ s) h =
    let rest = split-IsPlain s (ground arith) in
    elim (Bool-cases (c == 10)) [
      | inl here ↦ subst (λ p. All IsPlain (p.0 ∷ p.1)) (sym (cut_break c s here)) (refl, rest)
      | inr other ↦
          subst (λ p. All IsPlain (p.0 ∷ p.1)) (sym (cut_other c s other))
            (ground (arith, rest.0), rest.1)
    ]
