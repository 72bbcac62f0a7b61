-- ===== src/Subscription/Store.antt =====
-- subscription/manager.go: URLStore. `disk` says whether writing a store's dynamic URLs and flags
-- succeeds; reading the file is encoding/json's. Copies are values.
pub mod Laws
pub mod Flags
pub mod File
use xray_checker_tg_bot.Base.{
  Text, codes, ℕ, ◌+◌, ◌-◌, Bool, true, false, ◌||◌, ◌&&◌, not, Option, none, some, List, [], ◌∷◌,
  ◌++◌, Result, ok, err, eqt, has_prefix, trim_space, contains, remove_first, filter, ltb,
  if◌then◌else◌,
}
use xray_checker_tg_bot.Base.Dict.{Dict, lookup, insert, erase}

-- URLMeta; `last_update` in nanoseconds since Go's zero time
pub record UrlMeta : Type 0 where
  pub last_update : ℕ
  pub count : ℕ
  pub prev_count : ℕ
  pub added : ℕ
  pub removed : ℕ

-- URLStore
pub record UrlStore : Type 0 where
  pub path : Text
  pub static : List Text
  pub dynamic : List Text
  pub meta : Dict UrlMeta
  pub managed : Dict Bool

pub data UrlError : Type 0 where
  empty_url bad_scheme not_saved : UrlError

-- All
unfoldable pub all : UrlStore → List Text
all s = s.static ++ s.dynamic

-- s.managed[u]
unfoldable pub is_managed : UrlStore → Text → Bool
is_managed s u = elim (lookup u s.managed) [ none ↦ false | some b ↦ b ]

-- Managed
unfoldable pub managed_urls : UrlStore → List Text
managed_urls s = filter (is_managed s) s.dynamic

-- the new URLMeta of a URL, by the one it had
unfoldable pub next_meta : Option UrlMeta → ℕ → ℕ → UrlMeta
next_meta none count now = record {
  last_update = now;
  count = count;
  prev_count = count;
  added = 0;
  removed = 0;
}
next_meta (some prev) count now = record {
  last_update = now;
  count = count;
  prev_count = prev.count;
  added = if ltb prev.count count then count - prev.count else 0;
  removed =
      if ltb prev.count count then 0 else if ltb count prev.count then prev.count - count else 0;
}

-- RecordUpdate
unfoldable pub record_update : Text → ℕ → ℕ → UrlStore → UrlStore
unfolding next_meta
record_update u count now s = record s {
  meta = insert u (next_meta (lookup u s.meta) count now) s.meta;
}

-- normalizeSubscriptionURL
unfoldable pub normalize_subscription_url : Text → Result UrlError Text
normalize_subscription_url raw =
    let u = trim_space raw in
    if eqt u []
    then err empty_url
    else if not (has_prefix u (codes "http://")) && not (has_prefix u (codes "https://"))
    then err bad_scheme
    else ok u

module _ (disk : UrlStore → Bool) where
  -- the end of every change: the new store, or the old one if it could not be written
  unfoldable pub persist : UrlStore → UrlStore → UrlStore × Result UrlError Bool
  persist old new = if eqt new.path [] || disk new then (new, ok true) else (old, err not_saved)

  -- Add
  unfoldable pub add : Text → UrlStore → UrlStore × Result UrlError Bool
  unfolding persist
  add raw s = elim (normalize_subscription_url raw) [
    | err e ↦ (s, err e)
    | ok u ↦
        if contains u s.static || contains u s.dynamic
        then (s, ok false)
        else persist s (record s { dynamic = s.dynamic ++ (u ∷ []) })
  ]

  -- Remove; the flag of the URL stays.
  unfoldable pub remove : Text → UrlStore → UrlStore × Result UrlError Bool
  unfolding remove_first persist
  remove raw s =
      let u = trim_space raw in
      if contains u s.dynamic
      then persist s (record s { dynamic = remove_first u s.dynamic })
      else (s, ok false)

  -- AddManaged
  unfoldable pub add_managed : Text → UrlStore → UrlStore × Result UrlError Bool
  unfolding persist
  add_managed raw s = elim (normalize_subscription_url raw) [
    | err e ↦ (s, err e)
    | ok u ↦
        if contains u s.static
        then (s, ok false)
        else persist s (record s {
          dynamic = if contains u s.dynamic then s.dynamic else s.dynamic ++ (u ∷ []);
          managed = insert u true s.managed;
        })
  ]

  -- RemoveManaged
  unfoldable pub remove_managed : Text → UrlStore → UrlStore × Result UrlError Bool
  unfolding remove_first persist
  remove_managed raw s =
      let u = trim_space raw in
      if not (is_managed s u)
      then (s, ok false)
      else if not (contains u s.dynamic)
      then (s, ok false)
      else persist s (record s { dynamic = remove_first u s.dynamic; managed = erase u s.managed })

-- Restore; the error of its write is dropped by every caller.
unfoldable pub restore : List Text → Dict Bool → UrlStore → UrlStore
restore dynamic managed s = record s { dynamic = dynamic; managed = managed }
