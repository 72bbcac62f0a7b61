-- ===== src/Docs/Site/Options.antt =====
-- docs/astro.config.mjs: the options of Starlight beside the languages and the sidebar. The file does
-- not close the array `head`, and so is no JavaScript; here the array ends before `editLink`, where the
-- indentation ends it.
use xray_checker_tg_bot.Base.{Text, codes, List, [], ◌∷◌}
use xray_checker_tg_bot.Base.Dict.{Dict}
use xray_checker_tg_bot.Docs.Site.{Locale, Group, default_locale, locales}
use xray_checker_tg_bot.Docs.Site.Sidebar.{sidebar}

-- an element of the head of every page
pub record HeadTag : Type 0 where
  pub tag : Text
  pub attrs : Dict Text

pub record SocialLink : Type 0 where
  pub icon : Text
  pub label : Text
  pub href : Text

-- the argument of starlight
pub record Options : Type 0 where
  pub title : Text
  pub favicon : Text
  pub logo : Dict Text
  pub head : List HeadTag
  pub edit_link : Text
  pub custom_css : List Text
  pub social : List SocialLink
  pub default_locale : Text
  pub locales : List Locale
  pub sidebar : List Group

abbrev pub site : Text
site = codes "https://vlv-code.github.io/xray-checker-tg-bot"

-- `head`
abbrev pub head_tags : List HeadTag
head_tags =
    record {
      tag = codes "link";
      attrs =
          (codes "rel", codes "icon")
          ∷ (codes "type", codes "image/png")
          ∷ (codes "href", codes "/favicon-96x96.png")
          ∷ (codes "sizes", codes "96x96")
          ∷ [];
    }
    ∷ record {
      tag = codes "link";
      attrs = (codes "rel", codes "shortcut icon") ∷ (codes "href", codes "/favicon.ico") ∷ [];
    }
    ∷ record {
      tag = codes "link";
      attrs =
          (codes "rel", codes "apple-touch-icon")
          ∷ (codes "sizes", codes "180x180")
          ∷ (codes "href", codes "/apple-touch-icon.png")
          ∷ [];
    }
    ∷ record {
      tag = codes "meta";
      attrs =
          (codes "name", codes "apple-mobile-web-app-title")
          ∷ (codes "content", codes "Xray Checker")
          ∷ [];
    }
    ∷ record {
      tag = codes "link";
      attrs = (codes "rel", codes "manifest") ∷ (codes "href", codes "/site.webmanifest") ∷ [];
    }
    ∷ []

-- `social`
abbrev pub social_links : List SocialLink
social_links =
    record {
      icon = codes "github";
      label = codes "GitHub";
      href = codes "https://github.com/vlv-code/xray-checker-tg-bot";
    }
    ∷ record {
      icon = codes "external";
      label = codes "Upstream Repo";
      href = codes "https://github.com/kutovoys/xray-checker";
    }
    ∷ []

-- the argument of starlight, with all of its parts
abbrev pub starlight_options : Options
starlight_options = record {
  title = codes "Xray Checker";
  favicon = codes "/favicon.svg";
  logo =
      (codes "light", codes "./src/assets/logo-light.svg")
      ∷ (codes "dark", codes "./src/assets/logo-dark.svg")
      ∷ [];
  head = head_tags;
  edit_link = codes "https://github.com/vlv-code/xray-checker-tg-bot/edit/main/docs/";
  custom_css = codes "./src/styles/custom.css" ∷ [];
  social = social_links;
  default_locale = default_locale;
  locales = locales;
  sidebar = sidebar;
}
