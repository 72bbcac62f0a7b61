-- ===== src/Base/Lists.antt =====
-- Lists measured by native numbers, and predicates on lists that compute.
use Prim.Native.Nat.{ℕ, suc, ◌+◌}
use mathlib.Core.Path.{◌≡◌, refl, ap, subst}
use mathlib.Core.Logic.{◌⊎◌, inl, inr}
use mathlib.Core.Bool.{Bool, true, false, ◌||◌, ◌&&◌}
use mathlib.Core.List.{List, [], ◌∷◌, ◌++◌}
use native.Mathlib.Omega.{arith}
use xray_checker_tg_bot.Base.Tests.{if◌then◌else◌, Bool-cases}
use xray_checker_tg_bot.Base.Strings.{Text, eqt, eqt_iff, le_text}

module _ {ℓ} {A : Type ℓ} where
  abbrev pub length : List A → ℕ
  length [] = 0
  length (x ∷ xs) = suc (length xs)

  pub length-append : (xs ys : List A) → length (xs ++ ys) ≡ length xs + length ys
  length-append [] ys = omega arith
  length-append (x ∷ xs) ys = omega (arith, length-append xs ys)

abbrev pub All {ℓ κ} : {A : Type ℓ} → (A → Type κ) → List A → Type κ
All P [] = Unit
All P (x ∷ xs) = P x × All P xs

pub All-imp {ℓ κ ι} :
    {A : Type ℓ} {P : A → Type κ} {Q : A → Type ι} (xs : List A)
    → ((x : A) → P x → Q x)
    → All P xs
    → All Q xs
All-imp [] f h = tt
All-imp (x ∷ xs) f h = (f x h.0, All-imp xs f h.1)

pub All-append {ℓ κ} :
    {A : Type ℓ} (P : A → Type κ) (xs ys : List A) → All P xs → All P ys → All P (xs ++ ys)
All-append P [] ys h k = k
All-append P (x ∷ xs) ys h k = (h.0, All-append P xs ys h.1 k)

-- One of the list satisfies the predicate.
abbrev pub Any {ℓ} : {A : Type ℓ} → (A → Type 0) → List A → Type 0
Any P [] = ⊥
Any P (x ∷ xs) = P x ⊎ Any P xs

pub Any-imp {ℓ} :
    {A : Type ℓ} {P Q : A → Type 0} (xs : List A) → ((x : A) → P x → Q x) → Any P xs → Any Q xs
Any-imp [] f h = h
Any-imp (x ∷ xs) f (inl h) = inl (f x h)
Any-imp (x ∷ xs) f (inr h) = inr (Any-imp xs f h)

-- Is the text in the list?
unfoldable pub contains : Text → List Text → Bool
contains k [] = false
contains k (x ∷ xs) = eqt x k || contains k xs

-- A predicate on all members, by membership.
pub All-intro :
    {P : Text → Type 0} (xs : List Text) → ((x : Text) → contains x xs ≡ true → P x) → All P xs
unfolding contains
All-intro [] f = tt
All-intro (x ∷ xs) f = (f x (ground (arith, eqt_iff x x)), All-intro xs (λ y h. f y (ground arith)))

pub All-elim :
    (P : Text → Type 0) (x : Text) (xs : List Text) → contains x xs ≡ true → All P xs → P x
unfolding contains
All-elim P x [] h all = ground arith
All-elim P x (y ∷ ys) h all = elim (Bool-cases (eqt y x)) [
  | inl own ↦ subst P ((eqt_iff y x).0 own) all.0
  | inr other ↦ All-elim P x ys (ground arith) all.1
]

pub contains-empty : (xs : List Text) → ((x : Text) → contains x xs ≡ false) → xs ≡ []
unfolding contains
contains-empty [] f = refl
contains-empty (x ∷ xs) f = ground (arith, f x, eqt_iff x x)

-- No text stands twice in the list.
abbrev pub Distinct : List Text → Type 0
Distinct [] = Unit
Distinct (x ∷ xs) = (contains x xs ≡ false) × Distinct xs

-- sort.Strings, as an insertion sort
unfoldable pub insert_sorted : Text → List Text → List Text
unfolding le_text
insert_sorted x [] = x ∷ []
insert_sorted x (y ∷ ys) = if le_text x y then x ∷ y ∷ ys else y ∷ insert_sorted x ys

unfoldable pub sort_strings : List Text → List Text
unfolding insert_sorted
sort_strings [] = []
sort_strings (x ∷ xs) = insert_sorted x (sort_strings xs)

pub contains-insert_sorted :
    (k x : Text) (xs : List Text) → contains k (insert_sorted x xs) ≡ contains k (x ∷ xs)
unfolding contains insert_sorted
contains-insert_sorted k x [] = refl
contains-insert_sorted k x (y ∷ ys) = ground (arith, contains-insert_sorted k x ys)

-- Sorting keeps the members.
pub contains-sort_strings :
    (k : Text) (xs : List Text) → contains k (sort_strings xs) ≡ contains k xs
unfolding sort_strings contains
contains-sort_strings k [] = refl
contains-sort_strings k (x ∷ xs) =
    ground (arith, contains-insert_sorted k x (sort_strings xs), contains-sort_strings k xs)

pub contains-append :
    (k : Text) (xs ys : List Text) → contains k (xs ++ ys) ≡ (contains k xs || contains k ys)
unfolding contains
contains-append k [] ys = refl
contains-append k (x ∷ xs) ys = ground (arith, contains-append k xs ys)

-- The texts that pass a test.
unfoldable pub filter : (Text → Bool) → List Text → List Text
filter f [] = []
filter f (x ∷ xs) = let rest = filter f xs in if f x then x ∷ rest else rest

pub contains-filter :
    (f : Text → Bool) (k : Text) (xs : List Text)
    → contains k (filter f xs) ≡ (contains k xs && f k)
unfolding filter contains
contains-filter f k [] = refl
contains-filter f k (x ∷ xs) = elim (Bool-cases (eqt x k)) [
  | inl own ↦
      let e : x ≡ k = ground (arith, eqt_iff x k) in
      let same = ap f e in ground (arith, contains-filter f k xs)
  | inr other ↦ ground (arith, contains-filter f k xs)
]

-- `append(l[:i:i], l[i+1:]...)` at the first `i` with `l[i] == u`
unfoldable pub remove_first : Text → List Text → List Text
remove_first u [] = []
remove_first u (x ∷ xs) = if eqt x u then xs else x ∷ remove_first u xs

pub Distinct-snoc :
    (u : Text) (l : List Text) → contains u l ≡ false → Distinct l → Distinct (l ++ (u ∷ []))
unfolding contains
Distinct-snoc u [] h d = (refl, tt)
Distinct-snoc u (x ∷ l) h d = (
  ground (arith, contains-append x l (u ∷ []), eqt_iff u x, eqt_iff x u),
  Distinct-snoc u l (ground arith) d.1,
)

pub contains-remove_first :
    (x u : Text) (l : List Text) → contains x l ≡ false → contains x (remove_first u l) ≡ false
unfolding contains remove_first
contains-remove_first x u [] h = refl
contains-remove_first x u (y ∷ l) h = ground (arith, contains-remove_first x u l)

pub All-remove_first :
    (P : Text → Type 0) (u : Text) (l : List Text) → All P l → All P (remove_first u l)
unfolding remove_first
All-remove_first P u [] h = tt
All-remove_first P u (x ∷ l) h = elim (Bool-cases (eqt x u)) [
  | inl e ↦ rw e h.1
  | inr e ↦ rw e (h.0, All-remove_first P u l h.1)
]

pub Distinct-remove_first : (u : Text) (l : List Text) → Distinct l → Distinct (remove_first u l)
unfolding remove_first
Distinct-remove_first u [] d = tt
Distinct-remove_first u (x ∷ l) d = elim (Bool-cases (eqt x u)) [
  | inl e ↦ rw e d.1
  | inr e ↦ rw e (contains-remove_first x u l d.0, Distinct-remove_first u l d.1)
]

-- In a list without duplicates a URL that was removed is gone.
pub contains-remove_first_self :
    (u : Text) (l : List Text) → Distinct l → contains u (remove_first u l) ≡ false
unfolding contains remove_first
contains-remove_first_self u [] d = refl
contains-remove_first_self u (x ∷ l) d =
    ground (arith, eqt_iff x u, contains-remove_first_self u l d.1)
