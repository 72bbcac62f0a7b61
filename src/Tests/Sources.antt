-- ===== src/Tests/Sources.antt =====
-- The theorems on subscription/*.go: a store with a URL of the user and one of the master.
use xray_checker_tg_bot.Base.{
  Text, codes, ℕ, Bool, true, false, Option, none, some, List, [], ◌∷◌, Result, ok, err, ◌≡◌, ◌⊎◌,
  inl, inr, refl, filter, remove_first, sort_strings, insert_sorted, eqt, contains, trim_space,
  trim_left, is_space, has_prefix,
}
use xray_checker_tg_bot.Base.Dict.{lookup, insert, erase}
use xray_checker_tg_bot.Subscription.Store.{
  UrlStore, all, is_managed, managed_urls, normalize_subscription_url, persist, add, remove,
  add_managed, remove_managed, restore,
}
use xray_checker_tg_bot.Subscription.Store.Laws.{IsClean}
use xray_checker_tg_bot.Subscription.Store.Flags.{changes-IsClean, remove-add-flagged}
use xray_checker_tg_bot.Subscription.Store.File.{
  StoreFile, bytes, new_url_store, restored_file, parsing, new_url_store-restored,
}
use xray_checker_tg_bot.Subscription.Reconcile.{
  ReconcileError, desired_set, add_all, remove_all, to_add, to_remove, conclude, reconcile_managed,
}
use xray_checker_tg_bot.Subscription.Reconcile.Outcome.{reconcile_managed_lem}
use xray_checker_tg_bot.Subscription.Reconcile.Settled.{reconcile_managed-reconcile_managed}

abbrev mine : Text
mine = codes "http://a"

abbrev theirs : Text
theirs = codes "http://b"

abbrev wanted : Text
wanted = codes "http://c"

abbrev store : UrlStore
store = record {
  path = codes "subs.json";
  static = [];
  dynamic = mine ∷ theirs ∷ [];
  meta = [];
  managed = (theirs, true) ∷ [];
}

-- The disk takes everything, and every URL serves two proxies.
abbrev disk : UrlStore → Bool
disk s = true

abbrev validate : Text → Option ℕ
validate u = some 2

store-IsClean : IsClean store
unfolding contains eqt trim_space trim_left is_space
store-IsClean = record { trimmed = (refl, (refl, tt)); distinct = (refl, (refl, tt)) }

abbrev after : UrlStore × Result ReconcileError Bool
after = reconcile_managed disk validate (wanted ∷ []) true store

accepted : after.1 ≡ ok true
unfolding reconcile_managed add_all remove_all to_add to_remove conclude desired_set
    normalize_subscription_url add_managed remove_managed persist managed_urls is_managed all filter
    remove_first sort_strings insert_sorted lookup insert erase contains eqt trim_space trim_left
    is_space has_prefix
accepted = refl

-- The new URL comes in, flagged.
reconcile_managed_lem_example :
    (contains wanted after.0.dynamic ≡ true) × (is_managed after.0 wanted ≡ true)
unfolding desired_set normalize_subscription_url is_managed all lookup contains eqt trim_space
    trim_left is_space has_prefix
reconcile_managed_lem_example =
    reconcile_managed_lem disk validate (wanted ∷ []) true wanted store {r = true} store-IsClean
      accepted

reconcile_managed-reconcile_managed_example :
    reconcile_managed disk validate (wanted ∷ []) true after.0 ≡ (after.0, ok false)
reconcile_managed-reconcile_managed_example =
    reconcile_managed-reconcile_managed disk validate validate (wanted ∷ []) true true store
      {r = true} (λ j works. works) store-IsClean accepted

-- Reloading fails.
abbrev reverted : UrlStore × Result ReconcileError Bool
reverted = reconcile_managed disk validate (wanted ∷ []) false store

changes-IsClean_example :
    IsClean (add disk wanted store).0
    × IsClean (remove disk wanted store).0
    × IsClean (add_managed disk wanted store).0
    × IsClean (remove_managed disk wanted store).0
    × IsClean (restore store.dynamic store.managed store)
changes-IsClean_example = changes-IsClean disk wanted store store store-IsClean store-IsClean

-- The user removes the master's URL and adds it again.
remove-add-flagged_example :
    contains theirs (managed_urls (add disk theirs (remove disk theirs store).0).0) ≡ true
unfolding add remove persist remove_first normalize_subscription_url managed_urls is_managed filter
    lookup contains eqt trim_space trim_left is_space has_prefix
remove-add-flagged_example = remove-add-flagged disk theirs store refl refl refl

-- The bytes of a file are what was written to it.
abbrev decode : StoreFile ⊎ List Text → Option StoreFile
decode (inl f) = some f
decode (inr urls) = none

abbrev decode_list : StoreFile ⊎ List Text → Option (List Text)
decode_list (inl f) = none
decode_list (inr urls) = some urls

new_url_store-restored_example :
    new_url_store decode decode_list [] (codes "subs.json") (bytes (inl (restored_file [] [])))
    ≡ err parsing
unfolding eqt
new_url_store-restored_example =
    new_url_store-restored decode decode_list inl (λ f. refl) (λ f. refl) [] [] (codes "subs.json")
      [] refl
