-- ===== src/Base/Dict.antt =====
-- Go's `map[string]V` as an association list. The order of entries means nothing to the program,
-- which sorts what it iterates over where the order shows.
pub mod Laws
use mathlib.Core.Logic.{◌≢◌}
use mathlib.Core.Bool.{Bool, true, false}
use mathlib.Core.Option.{Option, none, some}
use mathlib.Core.List.{List, [], ◌∷◌, map}
use native.Mathlib.Omega.{arith}
use xray_checker_tg_bot.Base.Tests.{if◌then◌else◌}
use xray_checker_tg_bot.Base.Strings.{Text, eqt, eqt_iff, eqt_refl}

abbrev pub Dict {ℓ} : Type ℓ → Type ℓ
Dict V = List (Text × V)

module _ {ℓ} {V : Type ℓ} where
  -- m[k]
  unfoldable pub lookup : Text → Dict V → Option V
  lookup k [] = none
  lookup k ((j, v) ∷ m) = if eqt j k then some v else lookup k m

  -- delete(m, k)
  unfoldable pub erase : Text → Dict V → Dict V
  erase k [] = []
  erase k ((j, v) ∷ m) = let rest = erase k m in if eqt j k then rest else (j, v) ∷ rest

  -- m[k] = v
  unfoldable pub insert : Text → V → Dict V → Dict V
  unfolding erase
  insert k v m = (k, v) ∷ erase k m

abbrev pub keys {ℓ} : {V : Type ℓ} → Dict V → List Text
keys = map (λ e. e.0)
