-- ===== src/Docs/Flags/Pixels.antt =====
-- The test of the polyfill, which compares texts, and the pixels that it is about.
use xray_checker_tg_bot.Base.{
  Text, codes, ℕ, Bool, true, false, ◌&&◌, List, [], ◌∷◌, ◌++◌, map, eqt_iff, cut, cut_plain,
  cut-append, has_prefix, has_char-print_nat, print_nat, print_nat-not-nil, read_nat,
  read_nat-print_nat, ◌==◌, ◌≡◌, ◌≢◌, ◌↔◌, refl, sym, ◌∙◌, ap, arith, Bool-cases, inl, inr,
}
use xray_checker_tg_bot.Docs.Flags.{Context, context, join, is_coloured}

-- The numbers of a text, cut at its commas.
cut-join : (n : ℕ) (ns : List ℕ) → cut b',' (join (n ∷ ns)) ≡ (print_nat n, map print_nat ns)
unfolding join
cut-join n [] = cut_plain b',' (print_nat n) (has_char-print_nat b',' n refl)
cut-join n (m ∷ ns) = ground (
  arith,
  cut-append b',' (print_nat n) (join (m ∷ ns)) (has_char-print_nat b',' n refl),
  cut-join m ns,
)

print_nat-injective : (m n : ℕ) → print_nat m ≡ print_nat n → m ≡ n
print_nat-injective m n h =
    let e = sym (read_nat-print_nat m) ∙ ap read_nat h ∙ read_nat-print_nat n in ground (arith, e)

map-print_nat_injective : (a b : List ℕ) → map print_nat a ≡ map print_nat b → a ≡ b
map-print_nat_injective [] [] h = refl
map-print_nat_injective [] (n ∷ b) h = ground arith
map-print_nat_injective (m ∷ a) [] h = ground arith
map-print_nat_injective (m ∷ a) (n ∷ b) h =
    ground (arith, print_nat-injective m n, map-print_nat_injective a b)

append-not-nil : (s t : Text) (c : ℕ) → s ++ (c ∷ t) ≢ []
append-not-nil [] t c = λ e. ground (arith, e)
append-not-nil (d ∷ s) t c = λ e. ground (arith, e)

join-not-nil : (n : ℕ) (ns : List ℕ) → join (n ∷ ns) ≢ []
unfolding join
join-not-nil n [] = print_nat-not-nil n
join-not-nil n (m ∷ ns) = append-not-nil (print_nat n) (join (m ∷ ns)) b','

join-injective : (a b : List ℕ) → join a ≡ join b → a ≡ b
unfolding join
join-injective [] [] h = refl
join-injective [] (n ∷ b) h = absurd (join-not-nil n b (sym h))
join-injective (m ∷ a) [] h = absurd (join-not-nil m a h)
join-injective (m ∷ a) (n ∷ b) h =
    let e = sym (cut-join m a) ∙ ap (cut b',') h ∙ cut-join n b in
    ground (arith, e, print_nat-injective m n, map-print_nat_injective a b)

-- A text that starts with 0 and a comma.
has_prefix-zero :
    (s p : Text)
    → has_prefix s (b'0' ∷ b',' ∷ p) ≡ true
    → (rest : Text) × (s ≡ b'0' ∷ b',' ∷ rest) × (has_prefix rest p ≡ true)
unfolding has_prefix
has_prefix-zero [] p h = ground arith
has_prefix-zero (x ∷ []) p h = ground arith
has_prefix-zero (x ∷ y ∷ s) p h = (s, ground arith, ground arith)

print_nat_zero : print_nat 0 ≡ b'0' ∷ []
unfolding print_nat
print_nat_zero = refl

-- Then the first number is 0, and another one follows.
first_zero :
    (n : ℕ) (ns : List ℕ) (p : Text)
    → has_prefix (join (n ∷ ns)) (b'0' ∷ b',' ∷ p) ≡ true
    → (n ≡ 0) × (ns ≢ [])
unfolding cut
first_zero n ns p h =
    let (rest, e, more) = has_prefix-zero (join (n ∷ ns)) p h in
    let f : (print_nat n, map print_nat ns) ≡ (b'0' ∷ [], (cut b',' rest).0 ∷ (cut b',' rest).1) =
      sym (cut-join n ns) ∙ ap (cut b',') e in
    (
      print_nat-injective n 0 (ap (λ c. c.0) f ∙ sym print_nat_zero),
      λ none_left.
          let g = sym (ap (map print_nat) none_left) ∙ ap (λ c. c.1) f in ground (arith, g),
    )

has_prefix-join_end : (n : ℕ) (p : Text) → has_prefix (join (n ∷ [])) (b'0' ∷ b',' ∷ p) ≡ false
has_prefix-join_end n p = elim (Bool-cases (has_prefix (join (n ∷ [])) (b'0' ∷ b',' ∷ p))) [
  | inl starts ↦ absurd ((first_zero n [] p starts).1 refl)
  | inr other ↦ other
]

has_prefix-join_zero :
    (m : ℕ) (ns : List ℕ) (p : Text)
    → has_prefix (join (0 ∷ m ∷ ns)) (b'0' ∷ b',' ∷ p) ≡ has_prefix (join (m ∷ ns)) p
unfolding join has_prefix
has_prefix-join_zero m ns p = rw print_nat_zero refl

has_prefix-join :
    (n m : ℕ) (ns : List ℕ) (p : Text)
    → has_prefix (join (n ∷ m ∷ ns)) (b'0' ∷ b',' ∷ p) ≡ ((n == 0) && has_prefix (join (m ∷ ns)) p)
has_prefix-join n m ns p = elim (Bool-cases (n == 0)) [
  | inl zero ↦ let e : n ≡ 0 = ground arith in rw e (has_prefix-join_zero m ns p)
  | inr positive ↦ elim (Bool-cases (has_prefix (join (n ∷ m ∷ ns)) (b'0' ∷ b',' ∷ p))) [
    | inl starts ↦ ground (arith, (first_zero n (m ∷ ns) p starts).0)
    | inr other ↦ ground arith
  ]
]

-- Are the first three of at least four numbers 0?
unfoldable pub is_blank : List ℕ → Bool
is_blank (r ∷ g ∷ b ∷ a ∷ more) = r == 0 && (g == 0 && b == 0)
is_blank _ = false

has_prefix-is_blank : (ns : List ℕ) → has_prefix (join ns) (codes "0,0,0,") ≡ is_blank ns
unfolding is_blank has_prefix join
has_prefix-is_blank [] = refl
has_prefix-is_blank (r ∷ []) = has_prefix-join_end r (codes "0,0,")
has_prefix-is_blank (r ∷ g ∷ []) =
    ground (arith, has_prefix-join r g [] (codes "0,0,"), has_prefix-join_end g (codes "0,"))
has_prefix-is_blank (r ∷ g ∷ b ∷ []) = ground (
  arith,
  has_prefix-join r g (b ∷ []) (codes "0,0,"),
  has_prefix-join g b [] (codes "0,"),
  has_prefix-join_end b [],
)
has_prefix-is_blank (r ∷ g ∷ b ∷ a ∷ more) = ground (
  arith,
  has_prefix-join r g (b ∷ a ∷ more) (codes "0,0,"),
  has_prefix-join g b (a ∷ more) (codes "0,"),
  has_prefix-join b a more [],
)

-- A text counts as coloured exactly if it leaves the same pixel in white and in black, and that pixel is
-- not black: its numbers are not three zeros and more.
pub is_coloured_lem :
    (draw : Context → Text → Text → List ℕ) (o : Text)
    → (is_coloured draw o ≡ true) ↔ (
        (draw context o (codes "#000") ≡ draw context o (codes "#fff"))
        × (is_blank (draw context o (codes "#000")) ≡ false))
unfolding is_coloured
is_coloured_lem draw o =
    let black = draw context o (codes "#000") in
    let white = draw context o (codes "#fff") in
    ground (
      arith,
      eqt_iff (join black) (join white),
      join-injective black white,
      ap join {x = black} {y = white},
      has_prefix-is_blank black,
    )
