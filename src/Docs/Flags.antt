-- ===== src/Docs/Flags.antt =====
-- web/static/country-flag-emoji-polyfill.js. `draw` is the canvas of the browser: the numbers (red,
-- green, blue and alpha) of its one pixel after a text was drawn in a colour on a context; `has_window`
-- is whether the script runs in a browser. The nodes of the document's head are the texts of the
-- style elements.
pub mod Pixels
use xray_checker_tg_bot.Base.{
  Text, codes, ℕ, Bool, true, false, ◌&&◌, not, List, [], ◌∷◌, ◌++◌, eqt, has_prefix, print_nat,
  if◌then◌else◌,
}

-- the fonts that are tried
abbrev pub fonts : Text
fonts =
    codes
      "\"Twemoji Mozilla\",\"Apple Color Emoji\",\"Segoe UI Emoji\",\"Segoe UI Symbol\",\"Noto Color Emoji\",\"EmojiOne Color\",\"Android Emoji\",sans-serif"

-- what is set on the canvas and its context; the scale is 1 / `scale_down`
pub record Context : Type 0 where
  pub width : ℕ
  pub height : ℕ
  pub will_read_frequently : Bool
  pub text_baseline : Text
  pub font : Text
  pub scale_down : ℕ

-- a
abbrev pub context : Context
context = record {
  width = 1;
  height = 1;
  will_read_frequently = true;
  text_baseline = codes "top";
  font = codes "100px " ++ fonts;
  scale_down = 100;
}

-- data.join(",")
unfoldable pub join : List ℕ → Text
join [] = []
join (n ∷ []) = print_nat n
join (n ∷ m ∷ ns) = print_nat n ++ (b',' ∷ join (m ∷ ns))

module _ (draw : Context → Text → Text → List ℕ) where
  -- l: is the text drawn in colours of its own?
  unfoldable pub is_coloured : Text → Bool
  is_coloured o =
      let e = join (draw context o (codes "#fff")) in
      let n = join (draw context o (codes "#000")) in eqt n e && not (has_prefix n (codes "0,0,0,"))

  -- the text of the style element
  abbrev pub font_face : Text → Text → Text
  font_face o t =
      codes "@font-face {\n      font-family: \""
      ++ o
      ++ codes
          "\";\n      unicode-range: U+1F1E6-1F1FF, U+1F3F4, U+E0062-E0063, U+E0065, U+E0067,\n        U+E006C, U+E006E, U+E0073-E0074, U+E0077, U+E007F;\n      src: url('"
      ++ t
      ++ codes "') format('woff2');\n      font-display: swap;\n    }"

  -- f: the nodes of the head, and whether a style was added. The two emoji are a face (U+1F60A) and
  -- the flag of Switzerland (U+1F1E8 U+1F1ED).
  unfoldable pub polyfill_country_flag_emojis : Bool → Text → Text → List Text → List Text × Bool
  polyfill_country_flag_emojis has_window o t head =
      if has_window && is_coloured (128522 ∷ []) && not (is_coloured (127464 ∷ 127469 ∷ []))
      then (head ++ (font_face o t ∷ []), true)
      else (head, false)
