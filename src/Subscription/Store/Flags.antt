-- ===== src/Subscription/Store/Flags.antt =====
-- What the changes of URLStore keep: the invariant on the URLs, and the flags of the master's URLs.
use xray_checker_tg_bot.Base.{
  Text, ℕ, ◌+◌, Bool, true, false, ◌||◌, Option, none, some, List, [], ◌∷◌, ◌++◌, ok, eqt, eqt_iff,
  trim_space, contains, contains-append, remove_first, Distinct, Distinct-snoc,
  Distinct-remove_first, contains-filter, All, All-append, All-remove_first, ◌≡◌, ◌⊎◌, refl, ◌∙◌,
  ap, arith, Bool-cases, Result-cases, inl, inr,
}
use xray_checker_tg_bot.Base.Dict.{lookup, insert, erase}
use xray_checker_tg_bot.Base.Dict.Laws.{lookup-insert}
use xray_checker_tg_bot.Subscription.Store.{
  UrlMeta, UrlStore, is_managed, managed_urls, next_meta, record_update, normalize_subscription_url,
  persist, add, remove, add_managed, remove_managed, restore,
}
use xray_checker_tg_bot.Subscription.Store.Laws.{IsClean, normalize_trimmed}

abbrev AreClean : List Text → Type 0
AreClean urls = All (λ u. trim_space u ≡ u) urls × Distinct urls

-- The run-time URLs a change leaves: as before, one more that is new and in normal form, or one less.
abbrev Change : List Text → List Text → Type 0
Change old new =
    (new ≡ old)
    ⊎ ((u : Text) × (trim_space u ≡ u) × (contains u old ≡ false) × (new ≡ old ++ (u ∷ [])))
    ⊎ ((u : Text) × (new ≡ remove_first u old))

AreClean-Change : (old new : List Text) → Change old new → AreClean old → AreClean new
AreClean-Change old new (inl same) clean = rw same clean
AreClean-Change old new (inr (inl (u, trimmed, fresh, more))) clean = rw more (
  All-append (λ v. trim_space v ≡ v) old (u ∷ []) clean.0 (trimmed, tt),
  Distinct-snoc u old fresh clean.1,
)
AreClean-Change old new (inr (inr (u, less))) clean =
    rw less
      (All-remove_first (λ v. trim_space v ≡ v) u old clean.0, Distinct-remove_first u old clean.1)

IsClean-Change : (s s' : UrlStore) → Change s.dynamic s'.dynamic → IsClean s → IsClean s'
IsClean-Change s s' change clean =
    let (trimmed, distinct) =
      AreClean-Change s.dynamic s'.dynamic change (clean.trimmed, clean.distinct) in
    record { trimmed = trimmed; distinct = distinct }

persist-dynamic :
    (disk : UrlStore → Bool) (s new : UrlStore)
    → Change s.dynamic new.dynamic
    → Change s.dynamic (persist disk s new).0.dynamic
unfolding persist
persist-dynamic disk s new change = elim (Bool-cases (eqt new.path [] || disk new)) [
  | inl saved ↦ rw saved change
  | inr lost ↦ rw lost (inl refl)
]

next_meta_books :
    (known : Option UrlMeta) (count now : ℕ)
    → let m = next_meta known count now in
      (m.count ≡ count) × (m.prev_count + m.added ≡ m.count + m.removed)
unfolding next_meta
next_meta_books none count now = (refl, refl)
next_meta_books (some prev) count now = (refl, ground arith)

-- RecordUpdate keeps the books: the earlier count with what came is the new one with what went.
pub record_update_lem :
    (u : Text) (count now : ℕ) (s : UrlStore)
    → (m : UrlMeta) × (lookup u (record_update u count now s).meta ≡ some m)
      × (m.count ≡ count)
      × (m.prev_count + m.added ≡ m.count + m.removed)
unfolding record_update
record_update_lem u count now s =
    let m = next_meta (lookup u s.meta) count now in
    let (same, books) = next_meta_books (lookup u s.meta) count now in
    (m, ground (arith, lookup-insert u u m s.meta, eqt_iff u u), same, books)

module _ (disk : UrlStore → Bool) where
  add-Change : (raw : Text) (s : UrlStore) → Change s.dynamic (add disk raw s).0.dynamic
  unfolding add
  add-Change raw s = elim (Result-cases (normalize_subscription_url raw)) [
    | inr (e, bad) ↦ rw (add, bad) (inl refl)
    | inl (u, good) ↦ elim (Bool-cases (contains u s.static || contains u s.dynamic)) [
      | inl known ↦ rw (add, good, known) (inl refl)
      | inr fresh ↦
          rw (add, good, fresh)
            (persist-dynamic disk s (record s { dynamic = s.dynamic ++ (u ∷ []) })
              (inr (inl (u, normalize_trimmed raw u good, ground arith, refl))))
    ]
  ]

  remove-Change : (raw : Text) (s : UrlStore) → Change s.dynamic (remove disk raw s).0.dynamic
  unfolding remove
  remove-Change raw s = elim (Bool-cases (contains (trim_space raw) s.dynamic)) [
    | inl here ↦ rw here (
        persist-dynamic disk s (record s { dynamic = remove_first (trim_space raw) s.dynamic })
          (inr (inr (trim_space raw, refl))))
    | inr gone ↦ rw gone (inl refl)
  ]

  add_managed-Change :
      (raw : Text) (s : UrlStore) → Change s.dynamic (add_managed disk raw s).0.dynamic
  unfolding add_managed
  add_managed-Change raw s = elim (Result-cases (normalize_subscription_url raw)) [
    | inr (e, bad) ↦ rw (add_managed, bad) (inl refl)
    | inl (u, good) ↦ elim (Bool-cases (contains u s.static)) [
      | inl static ↦ rw (add_managed, good, static) (inl refl)
      | inr free ↦ elim (Bool-cases (contains u s.dynamic)) [
        | inl known ↦
            rw (add_managed, good, free, known)
              (persist-dynamic disk s (record s { managed = insert u true s.managed }) (inl refl))
        | inr fresh ↦
            rw (add_managed, good, free, fresh)
              (persist-dynamic disk s
                (record s { dynamic = s.dynamic ++ (u ∷ []); managed = insert u true s.managed })
                (inr (inl (u, normalize_trimmed raw u good, fresh, refl))))
      ]
    ]
  ]

  remove_managed-Change :
      (raw : Text) (s : UrlStore) → Change s.dynamic (remove_managed disk raw s).0.dynamic
  unfolding remove_managed
  remove_managed-Change raw s =
      let u = trim_space raw in
      elim (Bool-cases (is_managed s u)) [
        | inr free ↦ rw free (inl refl)
        | inl flagged ↦ elim (Bool-cases (contains u s.dynamic)) [
          | inr gone ↦ rw (flagged, gone) (inl refl)
          | inl here ↦
              rw (flagged, here)
                (persist-dynamic disk s
                  (record s { dynamic = remove_first u s.dynamic; managed = erase u s.managed })
                  (inr (inr (u, refl))))
        ]
      ]

  -- Add, Remove, AddManaged and RemoveManaged keep the run-time URLs trimmed and distinct, whatever the
  -- disk does, and so does Restore, if it is given the URLs of an earlier store that had them so.
  pub changes-IsClean :
      (raw : Text) (s earlier : UrlStore)
      → IsClean s
      → IsClean earlier
      → IsClean (add disk raw s).0
        × IsClean (remove disk raw s).0
        × IsClean (add_managed disk raw s).0
        × IsClean (remove_managed disk raw s).0
        × IsClean (restore earlier.dynamic earlier.managed s)
  unfolding restore
  changes-IsClean raw s earlier clean before = (
    IsClean-Change s (add disk raw s).0 (add-Change raw s) clean,
    IsClean-Change s (remove disk raw s).0 (remove-Change raw s) clean,
    IsClean-Change s (add_managed disk raw s).0 (add_managed-Change raw s) clean,
    IsClean-Change s (remove_managed disk raw s).0 (remove_managed-Change raw s) clean,
    record { trimmed = before.trimmed; distinct = before.distinct },
  )

  -- A change of the store reports that it was done, or has left the store as it was.
  pub changes-done :
      (raw : Text) (s : UrlStore)
      → (((add disk raw s).0 ≡ s) ⊎ ((add disk raw s).1 ≡ ok true))
        × (((remove disk raw s).0 ≡ s) ⊎ ((remove disk raw s).1 ≡ ok true))
        × (((add_managed disk raw s).0 ≡ s) ⊎ ((add_managed disk raw s).1 ≡ ok true))
        × (((remove_managed disk raw s).0 ≡ s) ⊎ ((remove_managed disk raw s).1 ≡ ok true))
  unfolding add remove add_managed remove_managed persist
  changes-done raw s = (ground arith, ground arith, ground arith, ground arith)

  add_flags : (raw : Text) (s : UrlStore) → (add disk raw s).0.managed ≡ s.managed
  unfolding add persist
  add_flags raw s = ground arith

  remove_flags : (raw : Text) (s : UrlStore) → (remove disk raw s).0.managed ≡ s.managed
  unfolding remove persist
  remove_flags raw s = ground arith

  add_here :
      (u : Text) (s : UrlStore)
      → normalize_subscription_url u ≡ ok u
      → (add disk u s).1 ≡ ok true
      → contains u (add disk u s).0.dynamic ≡ true
  unfolding add persist contains
  add_here u s normal added = ground (arith, contains-append u s.dynamic (u ∷ []), eqt_iff u u)

  -- A URL of the master, in its normal form, that Remove takes out and Add puts back with success counts as
  -- the master's again: Remove leaves its flag.
  pub remove-add-flagged :
      (u : Text) (s : UrlStore)
      → normalize_subscription_url u ≡ ok u
      → contains u (managed_urls s) ≡ true
      → (add disk u (remove disk u s).0).1 ≡ ok true
      → contains u (managed_urls (add disk u (remove disk u s).0).0) ≡ true
  unfolding managed_urls is_managed
  remove-add-flagged u s normal here added =
      let s1 = (remove disk u s).0 in
      let s2 = (add disk u s1).0 in
      let flags = ap (lookup u) (add_flags u s1 ∙ remove_flags u s) in
      ground (
        arith,
        flags,
        add_here u s1 normal added,
        contains-filter (is_managed s2) u s2.dynamic,
        contains-filter (is_managed s) u s.dynamic,
      )
