-- ===== src/Nodes/SubsStore/Laws.antt =====
-- What Add and Remove do to the lists that Get returns.
use xray_checker_tg_bot.Base.{
  Text, Bool, true, false, List, [], ◌∷◌, ◌++◌, ok, eqt, eqt_iff, eqt_refl, trim_space, contains,
  contains-append, remove_first, Distinct-snoc, Distinct-remove_first, Distinct, if◌then◌else◌, ◌≡◌,
  arith, Bool-cases, inl, inr,
}
use xray_checker_tg_bot.Base.Dict.{lookup, insert}
use xray_checker_tg_bot.Base.Dict.Laws.{lookup-insert}
use xray_checker_tg_bot.Nodes.SubsStore.{NodeSubsStore, get, add, remove, list_of}

get-insert :
    (node j : Text) (l : List Text) (s : NodeSubsStore)
    → list_of (lookup j (insert node l s.urls)) ≡ (if eqt node j then l else get s j)
unfolding get
get-insert node j l s = ground (arith, lookup-insert node j l s.urls)

-- What Get returns after an Add: the URL, trimmed, stands at the end of the node's list if it is
-- new and was saved; every other list, and every list after an error or a duplicate, is as before.
pub get-add :
    (saved : Bool) (node raw j : Text) (s : NodeSubsStore)
    → get (add saved node raw s).0 j ≡ (elim (add saved node raw s).1 [
      | ok true ↦ if eqt node j then get s j ++ (trim_space raw ∷ []) else get s j
      | _ ↦ get s j
    ])
unfolding add get
get-add saved node raw j s = ground (
  arith,
  get-insert node j (get s node) s,
  get-insert node j (get s node ++ (trim_space raw ∷ [])) s,
  eqt_iff node j,
)

-- Every list of the store holds no URL twice.
abbrev pub IsDistinct : NodeSubsStore → Type 0
IsDistinct s = (j : Text) → Distinct (get s j)

remove_first-snoc :
    (u : Text) (l : List Text) → contains u l ≡ false → remove_first u (l ++ (u ∷ [])) ≡ l
unfolding contains remove_first
remove_first-snoc u [] h = ground (arith, eqt_refl u)
remove_first-snoc u (x ∷ l) h = ground (arith, remove_first-snoc u l)

add-IsDistinct :
    (saved : Bool) (node raw : Text) (s : NodeSubsStore)
    → IsDistinct s
    → IsDistinct (add saved node raw s).0
unfolding add
add-IsDistinct saved node raw s d j =
    let u = trim_space raw in
    elim (Bool-cases (contains u (get s node))) [
      | inl old ↦ ground (arith, d j, d node, get-insert node j (get s node) s)
      | inr new ↦ ground (
        arith,
        d j,
        Distinct-snoc u (get s node) new (d node),
        d node,
        get-insert node j (get s node) s,
        get-insert node j (get s node ++ (u ∷ [])) s,
      )
    ]

remove-IsDistinct :
    (saved : Bool) (node raw : Text) (s : NodeSubsStore)
    → IsDistinct s
    → IsDistinct (remove saved node raw s).0
unfolding remove
remove-IsDistinct saved node raw s d j =
    let u = trim_space raw in
    ground (
      arith,
      d j,
      d node,
      Distinct-remove_first u (get s node) (d node),
      get-insert node j (get s node) s,
      get-insert node j (remove_first u (get s node)) s,
    )

-- Add and Remove, successful or not, keep every list free of duplicates.
pub change-IsDistinct :
    (saved : Bool) (node raw : Text) (s : NodeSubsStore)
    → IsDistinct s
    → IsDistinct (add saved node raw s).0 × IsDistinct (remove saved node raw s).0
change-IsDistinct saved node raw s d =
    (add-IsDistinct saved node raw s d, remove-IsDistinct saved node raw s d)

add_new :
    (node raw j : Text) (s : NodeSubsStore)
    → (add true node raw s).1 ≡ ok true
    → (contains (trim_space raw) (get s node) ≡ false)
      × (get (add true node raw s).0 j
          ≡ (if eqt node j then get s node ++ (trim_space raw ∷ []) else get s j))
unfolding add get
add_new node raw j s h =
    (ground arith, ground (arith, get-insert node j (get s node ++ (trim_space raw ∷ [])) s))

remove_old :
    (node raw j : Text) (s : NodeSubsStore)
    → contains (trim_space raw) (get s node) ≡ true
    → ((remove true node raw s).1 ≡ ok true)
      × (get (remove true node raw s).0 j
          ≡ (if eqt node j then remove_first (trim_space raw) (get s node) else get s j))
unfolding remove get
remove_old node raw j s h =
    (ground arith, ground (arith, get-insert node j (remove_first (trim_space raw) (get s node)) s))

contains-snoc : (u : Text) (l : List Text) → contains u (l ++ (u ∷ [])) ≡ true
unfolding contains
contains-snoc u l = ground (arith, contains-append u l (u ∷ []), eqt_refl u)

-- A URL that was new and is removed again leaves every list as it was before it was added.
pub remove-add :
    (node raw : Text) (s : NodeSubsStore)
    → (add true node raw s).1 ≡ ok true
    → ((remove true node raw (add true node raw s).0).1 ≡ ok true)
      × ((j : Text) → get (remove true node raw (add true node raw s).0).0 j ≡ get s j)
remove-add node raw s h =
    let u = trim_space raw in
    let after = (add true node raw s).0 in
    let (fresh, own) = add_new node raw node s h in
    let there : contains u (get after node) ≡ true =
      ground (arith, eqt_refl node, contains-snoc u (get s node)) in
    (
      (remove_old node raw node after there).0,
      λ j. ground (
        arith,
        eqt_refl node,
        eqt_iff node j,
        add_new node raw j s h,
        remove_old node raw j after there,
        remove_first-snoc u (get s node) fresh,
      ),
    )
