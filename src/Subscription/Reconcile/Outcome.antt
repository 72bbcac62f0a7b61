-- ===== src/Subscription/Reconcile/Outcome.antt =====
-- What ReconcileManaged leaves, on an error and on success.
use xray_checker_tg_bot.Base.{
  Text, ℕ, Bool, true, false, ◌||◌, ◌&&◌, not, Option, List, [], ◌∷◌, Result, ok, err, eqt, eqt_iff,
  trim_space, contains, contains-append, All-intro, All-elim, filter, contains-filter,
  contains-sort_strings, ◌≡◌, refl, sym, ◌∙◌, ap, subst, arith, Bool-cases, Result-cases, inl, inr,
}
use xray_checker_tg_bot.Subscription.Store.{
  UrlStore, UrlError, all, is_managed, managed_urls, normalize_subscription_url, restore,
}
use xray_checker_tg_bot.Subscription.Store.Laws.{IsClean, normalize_normal}
use xray_checker_tg_bot.Subscription.Reconcile.Changes.{
  AreNormal, AreTrimmed, add_all-restore, remove_all-restore, add_all_lem, add_all-Distinct,
  remove_all_lem,
}
use xray_checker_tg_bot.Subscription.Reconcile.{
  add_failed, remove_failed, desired_set, is_working, add_all, remove_all, to_add, to_remove,
  conclude, reconcile_managed,
}

-- Every URL of the desired set is in normal form.
desired_set-normal :
    (desired : List Text) (j : Text)
    → contains j (desired_set desired) ≡ true
    → normalize_subscription_url j ≡ ok j
unfolding desired_set contains
desired_set-normal [] j h = ground arith
desired_set-normal (raw ∷ desired) j h = elim (Result-cases (normalize_subscription_url raw)) [
  | inr (e, bad) ↦ desired_set-normal desired j (ground arith)
  | inl (u, good) ↦ elim (Bool-cases (eqt u j)) [
    | inl own ↦
        subst (λ v. normalize_subscription_url v ≡ ok v) ((eqt_iff u j).0 own)
          (normalize_normal raw u good)
    | inr other ↦ desired_set-normal desired j (ground arith)
  ]
]

pub contains-to_add :
    (want : List Text) (s : UrlStore) (j : Text)
    → contains j (to_add want s) ≡ (contains j want && not (contains j (all s)))
unfolding to_add
contains-to_add want s j =
    let fresh : Text → Bool = λ u. not (contains u (all s)) in
    contains-sort_strings j (filter fresh want) ∙ contains-filter fresh j want

pub contains-to_remove :
    (want : List Text) (s : UrlStore) (j : Text)
    → contains j (to_remove want s)
      ≡ (contains j s.dynamic && is_managed s j && not (contains j want))
unfolding to_remove managed_urls
contains-to_remove want s j =
    let unwanted : Text → Bool = λ u. not (contains u want) in
    ground (
      arith,
      contains-filter unwanted j (managed_urls s),
      contains-filter (is_managed s) j s.dynamic,
    )

to_add-AreNormal : (desired : List Text) (s : UrlStore) → AreNormal (to_add (desired_set desired) s)
to_add-AreNormal desired s =
    let want = desired_set desired in
    All-intro (to_add want s)
      (λ u h. desired_set-normal desired u (ground (arith, contains-to_add want s u)))

to_remove-AreTrimmed : (want : List Text) (s : UrlStore) → IsClean s → AreTrimmed (to_remove want s)
to_remove-AreTrimmed want s clean = All-intro (to_remove want s) (λ u h.
    All-elim (λ v. trim_space v ≡ v) u s.dynamic (ground (arith, contains-to_remove want s u))
      clean.trimmed)

pub conclude_done :
    (reload changed : Bool) (orig s : UrlStore) {b : Bool}
    → (conclude reload orig changed s).1 ≡ ok b
    → (conclude reload orig changed s).0 ≡ s
unfolding conclude
conclude_done reload changed orig s h = ground arith

module _ (disk : UrlStore → Bool) (validate : Text → Option ℕ) where
  abbrev pub adding : List Text → UrlStore → UrlStore × Result UrlError Bool
  adding desired s = add_all disk validate (to_add (desired_set desired) s) false s

  abbrev pub removing : List Text → UrlStore → UrlStore × Result UrlError Bool
  removing desired s =
      remove_all disk validate (to_remove (desired_set desired) s) false (adding desired s).0

  -- The three ways out of the two loops.
  reconcile_add_failed :
      (desired : List Text) (reload : Bool) (s : UrlStore) {e : UrlError}
      → (adding desired s).1 ≡ err e
      → reconcile_managed disk validate desired reload s
        ≡ (restore s.dynamic s.managed (adding desired s).0, err (add_failed e))
  unfolding reconcile_managed
  reconcile_add_failed desired reload s h = rw (reconcile_managed, h) refl

  reconcile_remove_failed :
      (desired : List Text) (reload : Bool) (s : UrlStore) {b : Bool} {e : UrlError}
      → (adding desired s).1 ≡ ok b
      → (removing desired s).1 ≡ err e
      → reconcile_managed disk validate desired reload s
        ≡ (restore s.dynamic s.managed (removing desired s).0, err (remove_failed e))
  unfolding reconcile_managed
  reconcile_remove_failed desired reload s h h' = rw (reconcile_managed, h, h') refl

  pub reconcile_done :
      (desired : List Text) (reload : Bool) (s : UrlStore) {b c : Bool}
      → (adding desired s).1 ≡ ok b
      → (removing desired s).1 ≡ ok c
      → reconcile_managed disk validate desired reload s
        ≡ conclude reload s (b || c) (removing desired s).0
  unfolding reconcile_managed
  reconcile_done desired reload s h h' = rw (reconcile_managed, h, h') refl

  unchanged : (s : UrlStore) → restore s.dynamic s.managed s ≡ s
  unfolding restore
  unchanged s = refl

  removing-restore :
      (desired : List Text) (s : UrlStore) → restore s.dynamic s.managed (removing desired s).0 ≡ s
  removing-restore desired s =
      let want = desired_set desired in
      remove_all-restore disk validate (to_remove want s) false (adding desired s).0 s.dynamic
        s.managed
      ∙ add_all-restore disk validate (to_add want s) false s s.dynamic s.managed
      ∙ unchanged s

  -- On success the two loops succeeded, and the store is the one they left.
  reconcile_managed-done :
      (desired : List Text) (reload : Bool) (s : UrlStore) {r : Bool}
      → (reconcile_managed disk validate desired reload s).1 ≡ ok r
      → ((b : Bool) × ((adding desired s).1 ≡ ok b))
        × ((c : Bool) × ((removing desired s).1 ≡ ok c))
        × ((reconcile_managed disk validate desired reload s).0 ≡ (removing desired s).0)
  reconcile_managed-done desired reload s h = elim (Result-cases (adding desired s).1) [
    | inr (e, failed) ↦
        ground (arith, sym (ap (λ r. r.1) (reconcile_add_failed desired reload s failed)) ∙ h)
    | inl (b, added) ↦ elim (Result-cases (removing desired s).1) [
      | inr (e, failed) ↦
          ground
            (arith, sym (ap (λ r. r.1) (reconcile_remove_failed desired reload s added failed)) ∙ h)
      | inl (c, removed) ↦
          let e = reconcile_done desired reload s added removed in
          (
            (b, added),
            (c, removed),
            rw e (
                conclude_done reload (b || c) s (removing desired s).0 (sym (ap (λ r. r.1) e) ∙ h)),
          )
    ]
  ]

  -- On success, from a store whose run-time URLs are trimmed and distinct: a run-time URL is there
  -- afterwards exactly if it was there and is not a managed one that is no longer desired, or is
  -- desired, new and serves a proxy; and its flag is set exactly if the same holds of the flag.
  pub reconcile_managed_lem :
      (desired : List Text) (reload : Bool) (j : Text) (s : UrlStore) {r : Bool}
      → IsClean s
      → (reconcile_managed disk validate desired reload s).1 ≡ ok r
      → (contains j (reconcile_managed disk validate desired reload s).0.dynamic ≡ (
          (contains j s.dynamic && not (is_managed s j && not (contains j (desired_set desired))))
          || (contains j (desired_set desired)
              && not (contains j (all s))
              && is_working validate j)))
        × (is_managed (reconcile_managed disk validate desired reload s).0 j ≡ (
            (is_managed s j && not (contains j s.dynamic && not (contains j (desired_set desired))))
            || (contains j (desired_set desired)
                && not (contains j (all s))
                && is_working validate j)))
  unfolding all
  reconcile_managed_lem desired reload j s clean h =
      let want = desired_set desired in
      let ((b, added), (c, removed), e) = reconcile_managed-done desired reload s h in
      let normal = to_add-AreNormal desired s in
      let (d1, m1) = add_all_lem disk validate (to_add want s) false j s normal added in
      let distinct = add_all-Distinct disk validate (to_add want s) false s normal clean.distinct in
      let (d2, m2) =
        remove_all_lem disk validate (to_remove want s) false j (adding desired s).0
          (to_remove-AreTrimmed want s clean) distinct removed in
      let fresh = contains-to_add want s j in
      let gone = contains-to_remove want s j in
      let in_all = contains-append j s.static s.dynamic in
      rw e (
        ground (arith, d1, m1, d2, m2, fresh, gone, in_all),
        ground (arith, d1, m1, d2, m2, fresh, gone, in_all),
      )

  -- The static URLs are never touched.
  pub reconcile_managed-static :
      (desired : List Text) (reload : Bool) (s : UrlStore) {r : Bool}
      → (reconcile_managed disk validate desired reload s).1 ≡ ok r
      → (reconcile_managed disk validate desired reload s).0.static ≡ s.static
  unfolding restore
  reconcile_managed-static desired reload s h =
      let (b, c, e) = reconcile_managed-done desired reload s h in
      ap (λ t. t.static) e ∙ ap (λ t. t.static) (removing-restore desired s)
