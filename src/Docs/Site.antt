-- ===== src/Docs/Site.antt =====
-- docs/astro.config.mjs: the languages and the sidebar of the documentation site. Astro and Starlight,
-- which read it, are libraries. Persian words are written by their characters' numbers.
pub mod Sidebar
pub mod Options
use xray_checker_tg_bot.Base.{Text, codes, Bool, true, false, Option, none, some, List, [], ◌∷◌}
use xray_checker_tg_bot.Base.Dict.{Dict}

-- an entry of `locales`
pub record Locale : Type 0 where
  pub key : Text
  pub label : Text
  pub lang : Text
  pub rtl : Bool

-- A page of the site, or another address.
pub data Target : Type 0 where
  slug : Text → Target
  link : Text → Target

pub record Item : Type 0 where
  pub label : Text
  pub translations : Dict Text
  pub target : Target
  pub badge : Option (Text × Text)

pub record Group : Type 0 where
  pub label : Text
  pub translations : Dict Text
  pub badge : Option (Text × Text)
  pub items : List Item

abbrev pub default_locale : Text
default_locale = codes "root"

abbrev pub locales : List Locale
locales =
    record { key = codes "root"; label = codes "English"; lang = codes "en"; rtl = false }
    ∷ record { key = codes "ru"; label = codes "Русский"; lang = codes "ru"; rtl = false }
    ∷ record {
      key = codes "fa";
      label = 1601 ∷ 1575 ∷ 1585 ∷ 1587 ∷ 1740 ∷ [];
      lang = codes "fa";
      rtl = true;
    }
    ∷ []

-- translations into both languages other than the default one
abbrev pub both : Text → Text → Dict Text
both ru fa = (codes "ru", ru) ∷ (codes "fa", fa) ∷ []
