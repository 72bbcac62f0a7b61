-- ===== src/Docs/Playground/RoundTrip.antt =====
-- The badge that was set in the playground, and the one that the page shows.
use xray_checker_tg_bot.Base.{
  Text, codes, Bool, true, false, ◌||◌, ◌&&◌, not, Option, none, some, List, [], ◌∷◌, ◌++◌, eqt,
  eqt_iff, contains, if◌then◌else◌, ◌≡◌, ◌⊎◌, refl, ◌∙◌, arith, inl, inr,
}
use xray_checker_tg_bot.Base.Dict.{Dict, lookup}
use xray_checker_tg_bot.Docs.Playground.{
  Form, Badge, themes, variants, sizes, roundings, option_or, has_value, style_of, shown, init,
}
use xray_checker_tg_bot.Docs.Playground.Params.{
  params, theme_value, params-stable_id, params-theme, params-transparent, params-variant,
  params-size, params-rounded, params-width, params-height, params-show_name, params-show_latency,
}

-- An option that is left out is the default.
option_or-left_out :
    (options : List Text) (default v : Text)
    → contains v options ≡ true
    → option_or options default (if not (eqt v default) then some v else none) ≡ v
unfolding option_or
option_or-left_out options default v h = ground (arith, eqt_iff v default)

style_of-left_out :
    (is_nan : Text → Bool) (name v : Text)
    → style_of is_nan name (if not (eqt v []) then some v else none) ≡ style_of is_nan name (some v)
unfolding style_of
style_of-left_out is_nan name v = ground arith

theme_cases :
    (t : Text)
    → contains t themes ≡ true
    → (t ≡ codes "dark") ⊎ (t ≡ codes "light") ⊎ (t ≡ codes "transparent")
unfolding contains
theme_cases t h =
    ground
      (arith, eqt_iff (codes "dark") t, eqt_iff (codes "light") t, eqt_iff (codes "transparent") t)

abbrev theme_param : Text → Option Text
theme_param t =
    let value = if eqt t (codes "transparent") then codes "dark" else t in
    if not (eqt value (codes "dark")) then some value else none

-- The theme and the mode of the page, by the theme of the form.
abbrev ThemeShown : Text → Bool → Type 0
ThemeShown t stored_dark =
    (option_or (codes "light" ∷ codes "dark" ∷ []) (codes "dark") (theme_param t)
      ≡ (if eqt t (codes "light") then codes "light" else codes "dark"))
    × ((if has_value (codes "light") (theme_param t) || has_value (codes "dark") (theme_param t)
          then has_value (codes "dark") (theme_param t)
          else stored_dark)
        ≡ (if eqt t (codes "light") then false else stored_dark))

theme_shown : (t : Text) (stored_dark : Bool) → contains t themes ≡ true → ThemeShown t stored_dark
unfolding option_or has_value contains eqt
theme_shown t stored_dark h = elim (theme_cases t h) [
  | inl dark ↦ rw dark (refl, refl)
  | inr (inl light) ↦ rw light (refl, refl)
  | inr (inr transparent) ↦ rw transparent (refl, refl)
]

flag_shown : (b : Bool) → has_value (codes "true") (if b then some (codes "true") else none) ≡ b
unfolding has_value eqt
flag_shown true = refl
flag_shown false = refl

shown_unless :
    (b : Bool) (chosen variant : Text)
    → chosen ≡ variant
    → not (
        eqt chosen (codes "dot")
        || has_value (codes "false") (if not b then some (codes "false") else none))
      ≡ (b && not (eqt variant (codes "dot")))
unfolding has_value
shown_unless true chosen variant e = rw e (ground arith)
shown_unless false chosen variant e = rw e (ground (arith, eqt_iff (codes "false") (codes "false")))

-- The badge that the fields ask for, without looking at any address.
abbrev pub asked : (Text → Bool) → Bool → Form → Badge
asked is_nan stored_dark f =
    let is_dot = eqt f.variant (codes "dot") in
    let is_light = eqt f.theme (codes "light") in
    record {
      badge_mode = true;
      badge_theme = if is_light then codes "light" else codes "dark";
      dark_mode = if is_light then false else stored_dark;
      variant = f.variant;
      size = f.size;
      rounded = f.rounded;
      show_name = f.show_name && not is_dot;
      show_latency = f.show_latency && not is_dot;
      transparent = eqt f.theme (codes "transparent");
      style =
          style_of is_nan (codes "width: ") (some f.width)
          ++ style_of is_nan (codes "height: ") (some f.height);
    }

-- The page shows a badge of a proxy that it knows.
init_lem :
    (is_known is_nan : Text → Bool) (stored_dark : Bool) (m : Dict Text) {id : Text}
    → lookup (codes "stableId") m ≡ some id
    → eqt id [] ≡ false
    → is_known id ≡ true
    → init is_known is_nan stored_dark m
      ≡ shown is_nan stored_dark
          (lookup (codes "theme") m)
          (lookup (codes "variant") m)
          (lookup (codes "size") m)
          (lookup (codes "rounded") m)
          (lookup (codes "showName") m)
          (lookup (codes "showLatency") m)
          (lookup (codes "transparent") m)
          (lookup (codes "width") m)
          (lookup (codes "height") m)
unfolding init
init_lem is_known is_nan stored_dark m here some_id known = rw (init, here, some_id, known) refl

module _ (f : Form) (id : Text) where
  -- The parameters that are set, by the fields.
  init-shown :
      (is_known is_nan : Text → Bool) (stored_dark : Bool)
      → eqt id [] ≡ false
      → is_known id ≡ true
      → init is_known is_nan stored_dark (params f id)
        ≡ shown is_nan stored_dark
            (if not (eqt (theme_value f id) (codes "dark")) then some (theme_value f id) else none)
            (if not (eqt f.variant (codes "default")) then some f.variant else none)
            (if not (eqt f.size (codes "md")) then some f.size else none)
            (if not (eqt f.rounded (codes "md")) then some f.rounded else none)
            (if not f.show_name then some (codes "false") else none)
            (if not f.show_latency then some (codes "false") else none)
            (if eqt f.theme (codes "transparent") then some (codes "true") else none)
            (if not (eqt f.width []) then some f.width else none)
            (if not (eqt f.height []) then some f.height else none)
  init-shown is_known is_nan stored_dark some_id known =
      init_lem is_known is_nan stored_dark (params f id) {id = id} (params-stable_id f id) some_id
        known
      ∙ (λ i.
          shown is_nan stored_dark (params-theme f id i) (params-variant f id i)
            (params-size f id i) (params-rounded f id i) (params-show_name f id i)
            (params-show_latency f id i) (params-transparent f id i) (params-width f id i)
            (params-height f id i))

  -- The page reads from the address of a badge what the fields asked for: if the page knows the proxy,
  -- and every select has one of its options. A theme that is not light leaves the mode that the page
  -- starts with.
  pub init-params_of :
      (is_known is_nan : Text → Bool) (stored_dark : Bool)
      → eqt id [] ≡ false
      → is_known id ≡ true
      → contains f.theme themes ≡ true
      → contains f.variant variants ≡ true
      → contains f.size sizes ≡ true
      → contains f.rounded roundings ≡ true
      → init is_known is_nan stored_dark (params f id) ≡ asked is_nan stored_dark f
  unfolding shown
  init-params_of is_known is_nan stored_dark some_id known theme variant size rounded =
      let e = init-shown is_known is_nan stored_dark some_id known in
      let v = option_or-left_out variants (codes "default") f.variant variant in
      let z = option_or-left_out sizes (codes "md") f.size size in
      let r = option_or-left_out roundings (codes "md") f.rounded rounded in
      let chosen =
        option_or variants (codes "default")
          (if not (eqt f.variant (codes "default")) then some f.variant else none) in
      let e_name = shown_unless f.show_name chosen f.variant v in
      let e_latency = shown_unless f.show_latency chosen f.variant v in
      e ∙ (λ i. record {
        badge_mode = true;
        badge_theme = (theme_shown f.theme stored_dark theme).0 i;
        dark_mode = (theme_shown f.theme stored_dark theme).1 i;
        variant = v i;
        size = z i;
        rounded = r i;
        show_name = e_name i;
        show_latency = e_latency i;
        transparent = flag_shown (eqt f.theme (codes "transparent")) i;
        style =
            style_of-left_out is_nan (codes "width: ") f.width i
            ++ style_of-left_out is_nan (codes "height: ") f.height i;
      })
