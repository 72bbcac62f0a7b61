-- ===== src/Docs/Playground/Params.antt =====
-- The parameters of a badge's address, one by one.
use xray_checker_tg_bot.Base.{
  Text, codes, Bool, false, not, Option, none, some, List, [], ◌∷◌, eqt, eqt_iff, if◌then◌else◌,
  ◌≡◌, refl, ◌∙◌, ap, arith,
}
use xray_checker_tg_bot.Base.Dict.{Dict, lookup}
use xray_checker_tg_bot.Docs.Playground.{Form, set_param, set_all, params_of}

lookup-set_param :
    (k j v : Text) (m : Dict Text)
    → lookup j (set_param k v m) ≡ (if eqt k j then some v else lookup j m)
unfolding lookup set_param
lookup-set_param k j v [] = refl
lookup-set_param k j v ((i, w) ∷ m) =
    ground (arith, lookup-set_param k j v m, eqt_iff i k, eqt_iff i j, eqt_iff k j)

-- The value that the calls leave of a parameter.
last_set : Text → List (Bool × Text × Text) → Option Text → Option Text
last_set j [] before = before
last_set j (p ∷ ps) before =
    last_set j ps (if eqt p.1 j then if p.0 then some p.2 else before else before)

lookup-set_all :
    (j : Text) (ps : List (Bool × Text × Text)) (m : Dict Text)
    → lookup j (set_all ps m) ≡ last_set j ps (lookup j m)
unfolding set_all last_set
lookup-set_all j [] m = refl
lookup-set_all j (p ∷ ps) m =
    lookup-set_all j ps (if p.0 then set_param p.1 p.2 m else m)
    ∙ ap (last_set j ps) (ground (arith, lookup-set_param p.1 j p.2 m))

module _ (f : Form) (id : Text) where
  abbrev pub params : Dict Text
  params = params_of f id [] false

  pub params-stable_id : lookup (codes "stableId") params ≡ some id
  unfolding params_of last_set lookup eqt
  params-stable_id = lookup-set_all (codes "stableId") _ []

  -- The theme that goes into the address.
  abbrev pub theme_value : Text
  theme_value = if eqt f.theme (codes "transparent") then codes "dark" else f.theme

  pub params-theme :
      lookup (codes "theme") params
      ≡ (if not (eqt theme_value (codes "dark")) then some theme_value else none)
  unfolding params_of last_set lookup eqt
  params-theme = lookup-set_all (codes "theme") _ []

  pub params-transparent :
      lookup (codes "transparent") params
      ≡ (if eqt f.theme (codes "transparent") then some (codes "true") else none)
  unfolding params_of last_set lookup eqt
  params-transparent = lookup-set_all (codes "transparent") _ []

  pub params-variant :
      lookup (codes "variant") params
      ≡ (if not (eqt f.variant (codes "default")) then some f.variant else none)
  unfolding params_of last_set lookup eqt
  params-variant = lookup-set_all (codes "variant") _ []

  pub params-size :
      lookup (codes "size") params ≡ (if not (eqt f.size (codes "md")) then some f.size else none)
  unfolding params_of last_set lookup eqt
  params-size = lookup-set_all (codes "size") _ []

  pub params-rounded :
      lookup (codes "rounded") params
      ≡ (if not (eqt f.rounded (codes "md")) then some f.rounded else none)
  unfolding params_of last_set lookup eqt
  params-rounded = lookup-set_all (codes "rounded") _ []

  pub params-width :
      lookup (codes "width") params ≡ (if not (eqt f.width []) then some f.width else none)
  unfolding params_of last_set lookup eqt
  params-width = lookup-set_all (codes "width") _ []

  pub params-height :
      lookup (codes "height") params ≡ (if not (eqt f.height []) then some f.height else none)
  unfolding params_of last_set lookup eqt
  params-height = lookup-set_all (codes "height") _ []

  pub params-show_name :
      lookup (codes "showName") params ≡ (if not f.show_name then some (codes "false") else none)
  unfolding params_of last_set lookup eqt
  params-show_name = lookup-set_all (codes "showName") _ []

  pub params-show_latency :
      lookup (codes "showLatency") params
      ≡ (if not f.show_latency then some (codes "false") else none)
  unfolding params_of last_set lookup eqt
  params-show_latency = lookup-set_all (codes "showLatency") _ []
