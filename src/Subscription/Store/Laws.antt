-- ===== src/Subscription/Store/Laws.antt =====
-- What the changes of URLStore do, URL by URL.
use xray_checker_tg_bot.Base.{
  Text, Bool, true, false, ◌||◌, ◌&&◌, not, List, [], ◌∷◌, ◌++◌, ok, eqt, eqt_iff, trim_space,
  trim_space-trim_space, contains, contains-append, remove_first, Distinct, Distinct-snoc,
  Distinct-remove_first, All, ◌⊎◌, ◌≡◌, refl, sym, ◌∙◌, ap, arith, inl, inr,
}
use xray_checker_tg_bot.Base.Dict.{Dict}
use xray_checker_tg_bot.Base.Dict.Laws.{lookup-insert, lookup-erase}
use xray_checker_tg_bot.Subscription.Store.{
  UrlStore, is_managed, normalize_subscription_url, persist, add_managed, remove_managed, restore,
}

-- The URLs added at run time are trimmed, and none stands twice.
pub record IsClean (s : UrlStore) : Type 0 where
  pub trimmed : All (λ u. trim_space u ≡ u) s.dynamic
  pub distinct : Distinct s.dynamic

-- A URL that passes is its own normal form.
pub normalize_trimmed : (raw u : Text) → normalize_subscription_url raw ≡ ok u → trim_space u ≡ u
unfolding normalize_subscription_url
normalize_trimmed raw u h = ground (arith, trim_space-trim_space raw)

pub normalize_normal :
    (raw u : Text) → normalize_subscription_url raw ≡ ok u → normalize_subscription_url u ≡ ok u
unfolding normalize_subscription_url
normalize_normal raw u h =
    let same : trim_space raw ≡ u = ground arith in
    let trimmed = ap trim_space (sym same) ∙ trim_space-trim_space raw ∙ same in ground arith

contains-remove_first :
    (u j : Text) (l : List Text)
    → Distinct l
    → contains j (remove_first u l) ≡ (contains j l && not (eqt u j))
unfolding contains remove_first
contains-remove_first u j [] d = refl
contains-remove_first u j (x ∷ l) d =
    ground (arith, contains-remove_first u j l d.1, eqt_iff x u, eqt_iff x j, eqt_iff u j, d.0)

module _ (disk : UrlStore → Bool) where
  -- AddManaged of a URL in normal form, if it succeeds: the URL is there, flagged unless it is static,
  -- and nothing else changes.
  pub add_managed_lem :
      (u j : Text) (s : UrlStore) {b : Bool}
      → normalize_subscription_url u ≡ ok u
      → (add_managed disk u s).1 ≡ ok b
      → (contains j (add_managed disk u s).0.dynamic
          ≡ (contains j s.dynamic || (eqt u j && not (contains u s.static))))
        × (is_managed (add_managed disk u s).0 j
            ≡ (is_managed s j || (eqt u j && not (contains u s.static))))
  unfolding add_managed persist is_managed contains
  add_managed_lem u j s normal h = (
    ground (arith, contains-append j s.dynamic (u ∷ []), eqt_iff u j),
    ground (arith, lookup-insert u j true s.managed, eqt_iff u j),
  )

  add_managed-dynamic :
      (u : Text) (s : UrlStore)
      → normalize_subscription_url u ≡ ok u
      → ((add_managed disk u s).0.dynamic ≡ s.dynamic)
        ⊎ ((contains u s.dynamic ≡ false)
            × ((add_managed disk u s).0.dynamic ≡ s.dynamic ++ (u ∷ [])))
  unfolding add_managed persist
  add_managed-dynamic u s normal = ground arith

  pub add_managed-Distinct :
      (u : Text) (s : UrlStore)
      → normalize_subscription_url u ≡ ok u
      → Distinct s.dynamic
      → Distinct (add_managed disk u s).0.dynamic
  add_managed-Distinct u s normal d = elim (add_managed-dynamic u s normal) [
    | inl same ↦ rw same d
    | inr (new, more) ↦ rw more (Distinct-snoc u s.dynamic new d)
  ]

  pub add_managed-restore :
      (u : Text) (s : UrlStore) (d : List Text) (m : Dict Bool)
      → restore d m (add_managed disk u s).0 ≡ restore d m s
  unfolding add_managed persist restore
  add_managed-restore u s d m = ground arith

  -- RemoveManaged of a trimmed URL, if it succeeds: the URL and its flag are gone if both were there,
  -- and nothing else changes.
  pub remove_managed_lem :
      (u j : Text) (s : UrlStore) {b : Bool}
      → trim_space u ≡ u
      → Distinct s.dynamic
      → (remove_managed disk u s).1 ≡ ok b
      → (contains j (remove_managed disk u s).0.dynamic
          ≡ (contains j s.dynamic && not (eqt u j && is_managed s j)))
        × (is_managed (remove_managed disk u s).0 j
            ≡ (is_managed s j && not (eqt u j && contains j s.dynamic)))
  unfolding remove_managed persist is_managed
  remove_managed_lem u j s trimmed d h = (
    ground (arith, contains-remove_first u j s.dynamic d, eqt_iff u j),
    ground (arith, lookup-erase u j s.managed, eqt_iff u j),
  )

  remove_managed-dynamic :
      (u : Text) (s : UrlStore)
      → ((remove_managed disk u s).0.dynamic ≡ s.dynamic)
        ⊎ ((remove_managed disk u s).0.dynamic ≡ remove_first (trim_space u) s.dynamic)
  unfolding remove_managed persist
  remove_managed-dynamic u s = ground arith

  pub remove_managed-Distinct :
      (u : Text) (s : UrlStore) → Distinct s.dynamic → Distinct (remove_managed disk u s).0.dynamic
  remove_managed-Distinct u s d = elim (remove_managed-dynamic u s) [
    | inl same ↦ rw same d
    | inr less ↦ rw less (Distinct-remove_first (trim_space u) s.dynamic d)
  ]

  pub remove_managed-restore :
      (u : Text) (s : UrlStore) (d : List Text) (m : Dict Bool)
      → restore d m (remove_managed disk u s).0 ≡ restore d m s
  unfolding remove_managed persist restore
  remove_managed-restore u s d m = ground arith
