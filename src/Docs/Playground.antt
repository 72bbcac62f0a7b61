-- ===== src/Docs/Playground.antt =====
-- docs/src/components/BadgePlayground.astro, which makes the address of a badge, and the script of
-- web/templates/index.html, which reads it. `trim` is String.prototype.trim, `to_query` is toString of
-- URLSearchParams, `is_nan` is isNaN, `is_known` is whether a proxy has the identity, and `stored_dark`
-- is darkMode as the page starts. A value that is missing is none.
pub mod Params
pub mod RoundTrip
use xray_checker_tg_bot.Base.{
  Text, codes, ℕ, Bool, true, false, ◌||◌, ◌&&◌, not, Option, none, some, List, [], ◌∷◌, ◌++◌, eqt,
  contains, if◌then◌else◌,
}
use xray_checker_tg_bot.Base.Dict.{Dict, lookup}

-- the fields of the playground
pub record Form : Type 0 where
  pub base_url : Text
  pub stable_id : Text
  pub theme : Text
  pub variant : Text
  pub size : Text
  pub rounded : Text
  pub width : Text
  pub height : Text
  pub show_name : Bool
  pub show_latency : Bool

-- the options of the selects
abbrev pub themes : List Text
themes = codes "dark" ∷ codes "light" ∷ codes "transparent" ∷ []

abbrev pub variants : List Text
variants = codes "default" ∷ codes "flat" ∷ codes "pill" ∷ codes "dot" ∷ []

abbrev pub sizes : List Text
sizes = codes "sm" ∷ codes "md" ∷ codes "lg" ∷ []

abbrev pub roundings : List Text
roundings = codes "none" ∷ codes "sm" ∷ codes "md" ∷ codes "lg" ∷ codes "full" ∷ []

-- URLSearchParams.set: in place, or at the end
unfoldable pub set_param : Text → Text → Dict Text → Dict Text
set_param k v [] = (k, v) ∷ []
set_param k v ((j, w) ∷ m) = if eqt j k then (k, v) ∷ m else (j, w) ∷ set_param k v m

-- calls `if (b) params.set(k, v)`, one after another
unfoldable pub set_all : List (Bool × Text × Text) → Dict Text → Dict Text
set_all [] m = m
set_all (p ∷ ps) m = set_all ps (if p.0 then set_param p.1 p.2 m else m)

-- the parameters that generateUrl sets
unfoldable pub params_of : Form → Text → Text → Bool → Dict Text
params_of f id for_theme force =
    let is_transparent = force || eqt f.theme (codes "transparent") in
    let chosen = if is_transparent then codes "dark" else f.theme in
    let theme_value = if eqt for_theme [] then chosen else for_theme in
    set_all
      ((true, codes "stableId", id)
        ∷ (not (eqt theme_value (codes "dark")), codes "theme", theme_value)
        ∷ (is_transparent, codes "transparent", codes "true")
        ∷ (not (eqt f.variant (codes "default")), codes "variant", f.variant)
        ∷ (not (eqt f.size (codes "md")), codes "size", f.size)
        ∷ (not (eqt f.rounded (codes "md")), codes "rounded", f.rounded)
        ∷ (not (eqt f.width []), codes "width", f.width)
        ∷ (not (eqt f.height []), codes "height", f.height)
        ∷ (not f.show_name, codes "showName", codes "false")
        ∷ (not f.show_latency, codes "showLatency", codes "false")
        ∷ [])
      []

-- .replace(/\/$/, '')
unfoldable pub drop_slash : Text → Text
drop_slash [] = []
drop_slash (c ∷ s) = let rest = drop_slash s in if eqt (c ∷ s) (codes "/") then [] else c ∷ rest

-- generateUrl; an argument that is not given is the empty text, or false
unfoldable pub generate_url : (Text → Text) → (Dict Text → Text) → Form → Text → Bool → Text
generate_url trim to_query f for_theme force =
    let base = drop_slash (trim f.base_url) in
    let id = trim f.stable_id in
    if eqt base [] || eqt id []
    then []
    else base ++ codes "/?" ++ to_query (params_of f id for_theme force)

-- what the page shows
pub record Badge : Type 0 where
  pub badge_mode : Bool
  pub badge_theme : Text
  pub dark_mode : Bool
  pub variant : Text
  pub size : Text
  pub rounded : Text
  pub show_name : Bool
  pub show_latency : Bool
  pub transparent : Bool
  pub style : List Text

-- the settings before init
abbrev pub initial : Bool → Badge
initial stored_dark = record {
  badge_mode = false;
  badge_theme = codes "dark";
  dark_mode = stored_dark;
  variant = codes "default";
  size = codes "md";
  rounded = codes "md";
  show_name = true;
  show_latency = true;
  transparent = false;
  style = [];
}

-- the value of a parameter if it is one of the options, or the default
unfoldable pub option_or : List Text → Text → Option Text → Text
option_or options default none = default
option_or options default (some v) = if contains v options then v else default

unfoldable pub has_value : Text → Option Text → Bool
has_value v none = false
has_value v (some w) = eqt w v

-- `if (value) styles.push(name + value + (isNaN(value) ? '' : 'px'))`
unfoldable pub style_of : (Text → Bool) → Text → Option Text → List Text
style_of is_nan name none = []
style_of is_nan name (some v) =
    if eqt v [] then [] else (name ++ v ++ (if is_nan v then [] else codes "px")) ∷ []

-- what init sets, by the values of the parameters; `style` is kept as the list that is joined
unfoldable pub shown :
    (Text → Bool)
    → Bool
    → (theme variant size rounded : Option Text) → (show_name show_latency : Option Text)
    → (transparent width height : Option Text) → Badge
shown is_nan stored_dark theme variant size rounded show_name show_latency transparent width
      height =
    let chosen = option_or variants (codes "default") variant in
    let is_dot = eqt chosen (codes "dot") in
    let is_set = has_value (codes "light") theme || has_value (codes "dark") theme in
    record {
      badge_mode = true;
      badge_theme = option_or (codes "light" ∷ codes "dark" ∷ []) (codes "dark") theme;
      dark_mode = if is_set then has_value (codes "dark") theme else stored_dark;
      variant = chosen;
      size = option_or sizes (codes "md") size;
      rounded = option_or roundings (codes "md") rounded;
      show_name = not (is_dot || has_value (codes "false") show_name);
      show_latency = not (is_dot || has_value (codes "false") show_latency);
      transparent = has_value (codes "true") transparent;
      style = style_of is_nan (codes "width: ") width ++ style_of is_nan (codes "height: ") height;
    }

-- init, from the parameters of the address
unfoldable pub init : (Text → Bool) → (Text → Bool) → Bool → Dict Text → Badge
init is_known is_nan stored_dark m =
    let id : Text = elim (lookup (codes "stableId") m) [ none ↦ [] | some v ↦ v ] in
    if eqt id [] || not (is_known id)
    then initial stored_dark
    else shown is_nan stored_dark (lookup (codes "theme") m) (lookup (codes "variant") m)
        (lookup (codes "size") m) (lookup (codes "rounded") m) (lookup (codes "showName") m)
        (lookup (codes "showLatency") m) (lookup (codes "transparent") m) (lookup (codes "width") m)
        (lookup (codes "height") m)
