-- ===== src/Subscription/Reconcile/Changes.antt =====
-- The two loops of ReconcileManaged, URL by URL.
use xray_checker_tg_bot.Base.{
  Text, ℕ, Bool, true, false, ◌||◌, ◌&&◌, not, Option, List, [], ◌∷◌, ok, err, eqt, eqt_iff,
  trim_space, contains, Distinct, All, ◌≡◌, refl, sym, ◌∙◌, ap, arith, Bool-cases, Result-cases,
  inl, inr,
}
use xray_checker_tg_bot.Base.Dict.{Dict}
use xray_checker_tg_bot.Subscription.Store.{
  UrlStore, UrlError, is_managed, normalize_subscription_url, add_managed, remove_managed, restore,
}
use xray_checker_tg_bot.Subscription.Store.Laws.{
  add_managed_lem, add_managed-Distinct, add_managed-restore, remove_managed_lem,
  remove_managed-Distinct, remove_managed-restore,
}
use xray_checker_tg_bot.Subscription.Reconcile.{is_working, add_all, remove_all}

abbrev pub AreNormal : List Text → Type 0
AreNormal = All (λ u. normalize_subscription_url u ≡ ok u)

abbrev pub AreTrimmed : List Text → Type 0
AreTrimmed = All (λ u. trim_space u ≡ u)

module _ (disk : UrlStore → Bool) (validate : Text → Option ℕ) where
  -- One turn of either loop, by how it ends.
  add_all_end : (any : Bool) (s : UrlStore) → add_all disk validate [] any s ≡ (s, ok any)
  unfolding add_all
  add_all_end any s = refl

  pub remove_all_end : (any : Bool) (s : UrlStore) → remove_all disk validate [] any s ≡ (s, ok any)
  unfolding remove_all
  remove_all_end any s = refl

  add_all_skipped :
      (u : Text) (us : List Text) (any : Bool) (s : UrlStore)
      → is_working validate u ≡ false
      → add_all disk validate (u ∷ us) any s ≡ add_all disk validate us any s
  unfolding add_all
  add_all_skipped u us any s idle = ground arith

  add_all_done :
      (u : Text) (us : List Text) (any : Bool) (s : UrlStore) {b : Bool}
      → is_working validate u ≡ true
      → (add_managed disk u s).1 ≡ ok b
      → add_all disk validate (u ∷ us) any s
        ≡ add_all disk validate us (any || b) (add_managed disk u s).0
  unfolding add_all
  add_all_done u us any s works done = ground arith

  add_all_failed :
      (u : Text) (us : List Text) (any : Bool) (s : UrlStore) {e : UrlError}
      → is_working validate u ≡ true
      → (add_managed disk u s).1 ≡ err e
      → add_all disk validate (u ∷ us) any s ≡ ((add_managed disk u s).0, err e)
  unfolding add_all
  add_all_failed u us any s works failed = ground arith

  remove_all_done :
      (u : Text) (us : List Text) (any : Bool) (s : UrlStore) {b : Bool}
      → (remove_managed disk u s).1 ≡ ok b
      → remove_all disk validate (u ∷ us) any s
        ≡ remove_all disk validate us (any || b) (remove_managed disk u s).0
  unfolding remove_all
  remove_all_done u us any s done = rw (remove_all, done) refl

  remove_all_failed :
      (u : Text) (us : List Text) (any : Bool) (s : UrlStore) {e : UrlError}
      → (remove_managed disk u s).1 ≡ err e
      → remove_all disk validate (u ∷ us) any s ≡ ((remove_managed disk u s).0, err e)
  unfolding remove_all
  remove_all_failed u us any s failed = rw (remove_all, failed) refl

  -- Neither loop touches anything but the dynamic URLs and their flags.
  pub add_all-restore :
      (us : List Text) (any : Bool) (s : UrlStore) (d : List Text) (m : Dict Bool)
      → restore d m (add_all disk validate us any s).0 ≡ restore d m s
  unfolding add_all
  add_all-restore [] any s d m = refl
  add_all-restore (u ∷ us) any s d m =
      let s' = (add_managed disk u s).0 in
      elim (Bool-cases (is_working validate u)) [
        | inr idle ↦ rw (add_all_skipped u us any s idle) (add_all-restore us any s d m)
        | inl works ↦ elim (Result-cases (add_managed disk u s).1) [
          | inl (b, done) ↦
              rw (add_all_done u us any s works done)
                (add_all-restore us (any || b) s' d m ∙ add_managed-restore disk u s d m)
          | inr (e, failed) ↦
              rw (add_all_failed u us any s works failed) (add_managed-restore disk u s d m)
        ]
      ]

  pub remove_all-restore :
      (us : List Text) (any : Bool) (s : UrlStore) (d : List Text) (m : Dict Bool)
      → restore d m (remove_all disk validate us any s).0 ≡ restore d m s
  unfolding remove_all
  remove_all-restore [] any s d m = refl
  remove_all-restore (u ∷ us) any s d m =
      let s' = (remove_managed disk u s).0 in
      elim (Result-cases (remove_managed disk u s).1) [
        | inl (b, done) ↦
            rw (remove_all_done u us any s done)
              (remove_all-restore us (any || b) s' d m ∙ remove_managed-restore disk u s d m)
        | inr (e, failed) ↦
            rw (remove_all_failed u us any s failed) (remove_managed-restore disk u s d m)
      ]

  add_managed-static : (u : Text) (s : UrlStore) → (add_managed disk u s).0.static ≡ s.static
  unfolding restore
  add_managed-static u s = ap (λ t. t.static) (add_managed-restore disk u s [] [])

  is_working-eqt : (u j : Text) → eqt u j ≡ true → is_working validate u ≡ is_working validate j
  is_working-eqt u j own = ap (is_working validate) ((eqt_iff u j).0 own)

  -- The loop over the URLs to add, if it succeeds, puts in those that work and are not static, flagged.
  pub add_all_lem :
      (us : List Text) (any : Bool) (j : Text) (s : UrlStore) {b : Bool}
      → AreNormal us
      → (add_all disk validate us any s).1 ≡ ok b
      → (contains j (add_all disk validate us any s).0.dynamic ≡ (
          contains j s.dynamic
          || (contains j us && is_working validate j && not (contains j s.static))))
        × (is_managed (add_all disk validate us any s).0 j ≡ (
            is_managed s j
            || (contains j us && is_working validate j && not (contains j s.static))))
  unfolding contains
  add_all_lem [] any j s normal h = rw (add_all_end any s) (ground arith, ground arith)
  add_all_lem (u ∷ us) any j s normal h =
      let s' = (add_managed disk u s).0 in
      elim (Bool-cases (is_working validate u)) [
        | inr idle ↦
            let e = add_all_skipped u us any s idle in
            let (d, m) = add_all_lem us any j s normal.1 (sym (ap (λ r. r.1) e) ∙ h) in
            rw e (ground (arith, d, is_working-eqt u j), ground (arith, m, is_working-eqt u j))
        | inl works ↦ elim (Result-cases (add_managed disk u s).1) [
          | inl (b, done) ↦
              let e = add_all_done u us any s works done in
              let (d, m) = add_all_lem us (any || b) j s' normal.1 (sym (ap (λ r. r.1) e) ∙ h) in
              let (d1, m1) = add_managed_lem disk u j s normal.0 done in
              let same = ap (contains j) (add_managed-static u s) in
              rw e (
                ground (arith, d, d1, same, is_working-eqt u j, eqt_iff u j),
                ground (arith, m, m1, same, is_working-eqt u j, eqt_iff u j),
              )
          | inr (e, failed) ↦
              ground (arith, sym (ap (λ r. r.1) (add_all_failed u us any s works failed)) ∙ h)
        ]
      ]

  pub add_all-Distinct :
      (us : List Text) (any : Bool) (s : UrlStore)
      → AreNormal us
      → Distinct s.dynamic
      → Distinct (add_all disk validate us any s).0.dynamic
  unfolding add_all
  add_all-Distinct [] any s normal d = d
  add_all-Distinct (u ∷ us) any s normal d =
      let s' = (add_managed disk u s).0 in
      let d' = add_managed-Distinct disk u s normal.0 d in
      elim (Bool-cases (is_working validate u)) [
        | inr idle ↦ rw (add_all_skipped u us any s idle) (add_all-Distinct us any s normal.1 d)
        | inl works ↦ elim (Result-cases (add_managed disk u s).1) [
          | inl (b, done) ↦
              rw (add_all_done u us any s works done)
                (add_all-Distinct us (any || b) s' normal.1 d')
          | inr (e, failed) ↦ rw (add_all_failed u us any s works failed) d'
        ]
      ]

  -- URLs that do not work are passed over.
  pub add_all_idle :
      (us : List Text) (any : Bool) (s : UrlStore)
      → All (λ u. is_working validate u ≡ false) us
      → add_all disk validate us any s ≡ (s, ok any)
  add_all_idle [] any s idle = add_all_end any s
  add_all_idle (u ∷ us) any s idle =
      add_all_skipped u us any s idle.0 ∙ add_all_idle us any s idle.1

  -- The loop over the URLs to remove, if it succeeds, takes out those that are managed, with their flags.
  pub remove_all_lem :
      (us : List Text) (any : Bool) (j : Text) (s : UrlStore) {b : Bool}
      → AreTrimmed us
      → Distinct s.dynamic
      → (remove_all disk validate us any s).1 ≡ ok b
      → (contains j (remove_all disk validate us any s).0.dynamic
          ≡ (contains j s.dynamic && not (contains j us && is_managed s j)))
        × (is_managed (remove_all disk validate us any s).0 j
            ≡ (is_managed s j && not (contains j us && contains j s.dynamic)))
  unfolding contains
  remove_all_lem [] any j s trimmed d h = rw (remove_all_end any s) (ground arith, ground arith)
  remove_all_lem (u ∷ us) any j s trimmed d h =
      let s' = (remove_managed disk u s).0 in
      elim (Result-cases (remove_managed disk u s).1) [
        | inl (b, done) ↦
            let e = remove_all_done u us any s done in
            let (c, m) =
              remove_all_lem us (any || b) j s' trimmed.1 (remove_managed-Distinct disk u s d)
                (sym (ap (λ r. r.1) e) ∙ h) in
            let (c1, m1) = remove_managed_lem disk u j s trimmed.0 d done in
            rw e (ground (arith, c, m, c1, m1), ground (arith, c, m, c1, m1))
        | inr (e, failed) ↦
            ground (arith, sym (ap (λ r. r.1) (remove_all_failed u us any s failed)) ∙ h)
      ]
