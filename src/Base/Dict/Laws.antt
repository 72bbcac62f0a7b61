-- ===== src/Base/Dict/Laws.antt =====
-- The laws of a map: a read after a write or a deletion.
use mathlib.Core.Path.{◌≡◌}
use mathlib.Core.Option.{none, some}
use mathlib.Core.List.{[], ◌∷◌}
use native.Mathlib.Omega.{arith}
use xray_checker_tg_bot.Base.Tests.{if◌then◌else◌}
use xray_checker_tg_bot.Base.Strings.{Text, eqt, eqt_iff, eqt_refl}
use xray_checker_tg_bot.Base.Dict.{Dict, lookup, erase, insert}

module _ {ℓ} {V : Type ℓ} where
  pub lookup-erase :
      (k j : Text) (m : Dict V) → lookup j (erase k m) ≡ (if eqt k j then none else lookup j m)
  unfolding lookup erase
  lookup-erase k j [] = ground arith
  lookup-erase k j ((i, v) ∷ m) =
      ground (arith, lookup-erase k j m, eqt_iff i k, eqt_iff i j, eqt_iff k j)

  pub lookup-insert :
      (k j : Text) (v : V) (m : Dict V)
      → lookup j (insert k v m) ≡ (if eqt k j then some v else lookup j m)
  unfolding insert lookup
  lookup-insert k j v m = ground (arith, lookup-erase k j m)

  pub lookup-insert_self : (k : Text) (v : V) (m : Dict V) → lookup k (insert k v m) ≡ some v
  lookup-insert_self k v m = ground (arith, lookup-insert k k v m, eqt_refl k)

  pub lookup-erase_self : (k : Text) (m : Dict V) → lookup k (erase k m) ≡ none
  lookup-erase_self k m = ground (arith, lookup-erase k k m, eqt_refl k)

  -- To write what is there changes nothing that can be read.
  pub lookup-insert_same :
      (k j : Text) (v : V) (m : Dict V) → lookup k m ≡ some v → lookup j (insert k v m) ≡ lookup j m
  lookup-insert_same k j v m h = ground (arith, lookup-insert k j v m, eqt_iff k j)

  -- A deleted entry can be put back.
  pub lookup-insert-erase :
      (k j : Text) (v : V) (m : Dict V)
      → lookup k m ≡ some v
      → lookup j (insert k v (erase k m)) ≡ lookup j m
  lookup-insert-erase k j v m h =
      ground (arith, lookup-insert k j v (erase k m), lookup-erase k j m, eqt_iff k j)

  -- A new entry can be taken out again.
  pub lookup-erase-insert :
      (k j : Text) (v : V) (m : Dict V)
      → lookup k m ≡ none
      → lookup j (erase k (insert k v m)) ≡ lookup j m
  lookup-erase-insert k j v m h =
      ground (arith, lookup-erase k j (insert k v m), lookup-insert k j v m, eqt_iff k j)

pub ruleset dict_laws = (lookup-insert, lookup-erase)
