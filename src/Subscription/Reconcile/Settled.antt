-- ===== src/Subscription/Reconcile/Settled.antt =====
-- What holds once ReconcileManaged succeeded, and what a second run does.
use xray_checker_tg_bot.Base.{
  Text, ℕ, Bool, true, false, Option, List, [], ◌∷◌, ok, eqt_iff, contains, contains-append,
  contains-empty, contains-filter, Any, All-intro, ◌≡◌, ◌↔◌, ◌∙◌, ap, arith, Result-cases, inl, inr,
}
use xray_checker_tg_bot.Subscription.Store.{
  UrlStore, all, is_managed, managed_urls, normalize_subscription_url,
}
use xray_checker_tg_bot.Subscription.Store.Laws.{IsClean}
use xray_checker_tg_bot.Subscription.Reconcile.Changes.{add_all_idle, remove_all_end}
use xray_checker_tg_bot.Subscription.Reconcile.Outcome.{
  contains-to_add, contains-to_remove, adding, removing, reconcile_done, reconcile_managed_lem,
  reconcile_managed-static,
}
use xray_checker_tg_bot.Subscription.Reconcile.{
  desired_set, is_working, remove_all, to_add, to_remove, conclude, reconcile_managed,
}

-- A URL is desired exactly if one of the given texts is it, up to white space around it.
pub contains-desired_set :
    (desired : List Text) (j : Text)
    → (contains j (desired_set desired) ≡ true)
      ↔ Any (λ raw. normalize_subscription_url raw ≡ ok j) desired
unfolding desired_set contains
contains-desired_set [] j = ground arith
contains-desired_set (raw ∷ desired) j =
    let rest = contains-desired_set desired j in
    elim (Result-cases (normalize_subscription_url raw)) [
      | inr (e, bad) ↦ ground (arith, rest)
      | inl (u, good) ↦
          ground (arith, rest, eqt_iff u j, ap (λ v. contains v (desired_set desired)))
    ]

module _ (disk : UrlStore → Bool) (validate : Text → Option ℕ) where
  -- After a success every managed URL is a desired one.
  pub reconcile_managed-wanted :
      (desired : List Text) (reload : Bool) (j : Text) (s : UrlStore) {r : Bool}
      → IsClean s
      → (reconcile_managed disk validate desired reload s).1 ≡ ok r
      → contains j (managed_urls (reconcile_managed disk validate desired reload s).0) ≡ true
      → contains j (desired_set desired) ≡ true
  unfolding all managed_urls
  reconcile_managed-wanted desired reload j s clean h here =
      let s' = (reconcile_managed disk validate desired reload s).0 in
      let (d, m) = reconcile_managed_lem disk validate desired reload j s clean h in
      ground (
        arith,
        d,
        m,
        contains-filter (is_managed s') j s'.dynamic,
        contains-append j s.static s.dynamic,
      )

  -- After a success every desired URL that serves a proxy is in effect.
  pub reconcile_managed-reaches :
      (desired : List Text) (reload : Bool) (j : Text) (s : UrlStore) {r : Bool}
      → IsClean s
      → (reconcile_managed disk validate desired reload s).1 ≡ ok r
      → contains j (desired_set desired) ≡ true
      → is_working validate j ≡ true
      → contains j (all (reconcile_managed disk validate desired reload s).0) ≡ true
  unfolding all
  reconcile_managed-reaches desired reload j s clean h want works =
      let s' = (reconcile_managed disk validate desired reload s).0 in
      let (d, m) = reconcile_managed_lem disk validate desired reload j s clean h in
      let same = ap (contains j) (reconcile_managed-static disk validate desired reload s h) in
      ground (
        arith,
        d,
        same,
        contains-append j s.static s.dynamic,
        contains-append j s'.static s'.dynamic,
      )

  -- A run that finds nothing to add that works, and nothing to remove, changes nothing.
  settled :
      (desired : List Text) (reload : Bool) (s : UrlStore)
      → ((j : Text)
          → contains j (to_add (desired_set desired) s) ≡ true
          → is_working validate j ≡ false)
      → ((j : Text) → contains j (to_remove (desired_set desired) s) ≡ false)
      → reconcile_managed disk validate desired reload s ≡ (s, ok false)
  unfolding conclude
  settled desired reload s nothing none_left =
      let want = desired_set desired in
      let added =
        add_all_idle disk validate (to_add want s) false s (All-intro (to_add want s) nothing) in
      let empty = contains-empty (to_remove want s) none_left in
      let removed : removing disk validate desired s ≡ (s, ok false) =
        ap (λ us. remove_all disk validate us false (adding disk validate desired s).0) empty
        ∙ remove_all_end disk validate false (adding disk validate desired s).0
        ∙ ap (λ a. (a.0, ok false)) added in
      reconcile_done disk validate desired reload s (ap (λ a. a.1) added) (ap (λ a. a.1) removed)
      ∙ ap (λ a. (a.0, ok false)) removed

module _ (disk : UrlStore → Bool) (before after : Text → Option ℕ) where
  -- After a success, reconciling with the same desired URLs again changes nothing, whatever reloading
  -- would do: from a store whose run-time URLs are trimmed and distinct, if no URL that could not be
  -- fetched in the first run can be fetched in the second.
  pub reconcile_managed-reconcile_managed :
      (desired : List Text) (reload again : Bool) (s : UrlStore) {r : Bool}
      → ((j : Text) → is_working after j ≡ true → is_working before j ≡ true)
      → IsClean s
      → (reconcile_managed disk before desired reload s).1 ≡ ok r
      → reconcile_managed disk after desired again
          (reconcile_managed disk before desired reload s).0
        ≡ ((reconcile_managed disk before desired reload s).0, ok false)
  unfolding all managed_urls
  reconcile_managed-reconcile_managed desired reload again s still clean h =
      let want = desired_set desired in
      let s' = (reconcile_managed disk before desired reload s).0 in
      let static = reconcile_managed-static disk before desired reload s h in
      settled disk after desired again s'
        (λ j fresh.
          let reached = reconcile_managed-reaches disk before desired reload j s clean h in
          ground (arith, contains-to_add want s' j, reached, still j))
        (λ j.
          let wanted = reconcile_managed-wanted disk before desired reload j s clean h in
          ground (
            arith,
            contains-to_remove want s' j,
            wanted,
            contains-filter (is_managed s') j s'.dynamic,
          ))
