-- ===== src/Base/Trim.antt =====
-- strings.TrimSpace on what it trimmed.
use mathlib.Core.Path.{◌≡◌, refl, sym, ◌∙◌, ap}
use mathlib.Core.Logic.{inl, inr}
use mathlib.Core.Bool.{Bool, true, not}
use mathlib.Core.List.{[], ◌∷◌, ◌++◌, reverse, reverse-append, reverse-reverse}
use native.Mathlib.Omega.{arith}
use xray_checker_tg_bot.Base.Tests.{Bool-cases}
use xray_checker_tg_bot.Base.Strings.{Text, is_space, trim_left, trim_space}

-- The text does not start with white space.
abbrev starts_plain : Text → Bool
starts_plain [] = true
starts_plain (c ∷ s) = not (is_space c)

starts_plain-trim_left : (s : Text) → starts_plain (trim_left s) ≡ true
unfolding trim_left
starts_plain-trim_left [] = refl
starts_plain-trim_left (c ∷ s) = ground (arith, starts_plain-trim_left s)

trim_left_fixed : (s : Text) → starts_plain s ≡ true → trim_left s ≡ s
unfolding trim_left
trim_left_fixed [] h = refl
trim_left_fixed (c ∷ s) h = ground arith

trim_left_suffix : (s : Text) → (p : Text) × (s ≡ p ++ trim_left s)
unfolding trim_left
trim_left_suffix [] = ([], refl)
trim_left_suffix (c ∷ s) = elim (Bool-cases (is_space c)) [
  | inl space ↦
      let (p, e) = trim_left_suffix s in (c ∷ p, rw (space, trim_left) (ap (λ t. c ∷ t) e))
  | inr plain ↦ ([], ground arith)
]

starts_plain-prefix : (u v : Text) → starts_plain (u ++ v) ≡ true → starts_plain u ≡ true
starts_plain-prefix [] v h = refl
starts_plain-prefix (c ∷ u) v h = h

pub trim_space-trim_space : (s : Text) → trim_space (trim_space s) ≡ trim_space s
unfolding trim_space
trim_space-trim_space s =
    let t = trim_left s in
    let w = trim_left (reverse t) in
    let (p, e) = trim_left_suffix (reverse t) in
    let split : t ≡ reverse w ++ reverse p =
      sym (reverse-reverse t) ∙ ap reverse e ∙ reverse-append p w in
    let plain : starts_plain (reverse w) ≡ true =
      starts_plain-prefix (reverse w) (reverse p) (rw (← split) (starts_plain-trim_left s)) in
    rw
      (
        trim_left_fixed (reverse w) plain,
        reverse-reverse w,
        trim_left_fixed w (starts_plain-trim_left (reverse t)),
      )
      refl
