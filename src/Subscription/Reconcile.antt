-- ===== src/Subscription/Reconcile.antt =====
-- subscription/reconcile.go: ReconcileManaged. `validate` is what the fetches of one run answer: how many
-- proxies a URL serves, or none for an error. A run fetches a URL once, and another run has a `validate`
-- of its own. `reload` is whether reloading the subscriptions succeeds in the run; what it does to the
-- process of Xray is not modelled, and it does not touch the store.
pub mod Changes
pub mod Outcome
pub mod Settled
use xray_checker_tg_bot.Base.{
  Text, ℕ, Bool, true, false, ◌||◌, ◌&&◌, not, Option, none, some, List, [], ◌∷◌, ◌++◌, Result, ok,
  err, eqt, contains, filter, sort_strings, ltb, if◌then◌else◌,
}
use xray_checker_tg_bot.Subscription.Store.{
  UrlStore, UrlError, all, managed_urls, normalize_subscription_url, add_managed, remove_managed,
  restore,
}

pub data ReconcileError : Type 0 where
  add_failed remove_failed : UrlError → ReconcileError
  reload_failed : ReconcileError

-- desiredSet: the valid URLs, each of them once; the invalid ones are skipped
unfoldable pub desired_set : List Text → List Text
desired_set [] = []
desired_set (raw ∷ desired) =
    let rest = desired_set desired in
    elim (normalize_subscription_url raw) [
      | err e ↦ rest
      | ok u ↦ if contains u rest then rest else u ∷ rest
    ]

-- `err != nil || len(configs) == 0`, negated
abbrev pub is_working : (Text → Option ℕ) → Text → Bool
is_working validate u = elim (validate u) [ none ↦ false | some n ↦ ltb 0 n ]

unfoldable pub to_add : List Text → UrlStore → List Text
to_add want s = sort_strings (filter (λ u. not (contains u (all s))) want)

unfoldable pub to_remove : List Text → UrlStore → List Text
to_remove want s = filter (λ u. not (contains u want)) (managed_urls s)

-- what follows the two loops
unfoldable pub conclude : Bool → UrlStore → Bool → UrlStore → UrlStore × Result ReconcileError Bool
conclude reload orig changed s =
    if not changed
    then (s, ok false)
    else if reload
    then (s, ok true)
    else (restore orig.dynamic orig.managed s, err reload_failed)

module _ (disk : UrlStore → Bool) (validate : Text → Option ℕ) where
  -- the loop over toAdd: the store, and whether something was added
  unfoldable pub add_all : List Text → Bool → UrlStore → UrlStore × Result UrlError Bool
  add_all [] any s = (s, ok any)
  add_all (u ∷ us) any s = elim (is_working validate u) [
    | false ↦ add_all us any s
    | true ↦
        let (s', result) = add_managed disk u s in
        elim result [ err e ↦ (s', err e) | ok b ↦ add_all us (any || b) s' ]
  ]

  -- the loop over toRemove
  unfoldable pub remove_all : List Text → Bool → UrlStore → UrlStore × Result UrlError Bool
  remove_all [] any s = (s, ok any)
  remove_all (u ∷ us) any s =
      let (s', result) = remove_managed disk u s in
      elim result [ err e ↦ (s', err e) | ok b ↦ remove_all us (any || b) s' ]

  -- ReconcileManaged
  unfoldable pub reconcile_managed :
      List Text → Bool → UrlStore → UrlStore × Result ReconcileError Bool
  unfolding conclude
  reconcile_managed desired reload s =
      let want = desired_set desired in
      let (s', adding) = add_all (to_add want s) false s in
      elim adding [
        | err e ↦ (restore s.dynamic s.managed s', err (add_failed e))
        | ok added ↦
            let (s'', removing) = remove_all (to_remove want s) false s' in
            elim removing [
              | err e ↦ (restore s.dynamic s.managed s'', err (remove_failed e))
              | ok removed ↦ conclude reload s (added || removed) s''
            ]
      ]
