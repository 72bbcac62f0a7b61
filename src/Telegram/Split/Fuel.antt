-- ===== src/Telegram/Split/Fuel.antt =====
-- The turns of the loop of updateOpenTags.
use xray_checker_tg_bot.Base.{
  Text, ℕ, zero, suc, ◌≤◌, List, [], ◌∷◌, length, ◌≡◌, refl, sym, subst, arith, is_some, ap, none,
  some, Option-cases, inl, inr,
}
use xray_checker_tg_bot.Telegram.Split.{cut_at, next, update_from, update_open_tags}

-- What stands behind a separator is shorter than the text.
length-cut_at :
    (sep : ℕ) (s : Text) {p : Text × Text} → cut_at sep s ≡ some p → suc (length p.1) ≤ length s
unfolding cut_at
length-cut_at sep [] h = ground arith
length-cut_at sep (c ∷ s) {p} h = elim (Option-cases (cut_at sep s)) [
  | inl nowhere ↦ ground (arith, ap (λ o. is_some o) h)
  | inr (q, here) ↦ ground (arith, length-cut_at sep s {p = q} here)
]

module _ (to_lower : Text → Text) where
  length-next :
      (s : Text) (tags : List Text) {p : Text × List Text}
      → next to_lower s tags ≡ some p
      → suc (length p.0) ≤ length s
  unfolding next
  length-next [] tags h = ground arith
  length-next (c ∷ s) tags {p} h = elim (Option-cases (cut_at b'>' s)) [
    | inl nowhere ↦ ground (arith, h)
    | inr (q, here) ↦ ground (arith, length-cut_at b'>' s {p = q} here)
  ]

  next_end : (s : Text) (tags : List Text) → length s ≤ 0 → next to_lower s tags ≡ none
  unfolding next
  next_end [] tags h = refl
  next_end (c ∷ s) tags h = ground arith

  update_from-enough :
      (m n : ℕ) (s : Text) (tags : List Text)
      → length s ≤ m
      → length s ≤ n
      → update_from to_lower m s tags ≡ update_from to_lower n s tags
  unfolding update_from
  update_from-enough zero zero s tags h k = refl
  update_from-enough zero (suc n) s tags h k = rw (update_from, next_end s tags h) refl
  update_from-enough (suc m) zero s tags h k = rw (update_from, next_end s tags k) refl
  update_from-enough (suc m) (suc n) s tags h k = elim (Option-cases (next to_lower s tags)) [
    | inl done ↦ rw (update_from, done) refl
    | inr (p, more) ↦
        let shorter = length-next s tags {p = p} more in
        rw (update_from, more)
          (update_from-enough m n p.0 p.1 (omega (arith, shorter)) (omega (arith, shorter)))
  ]

  -- A run of the loop to its end: from the rest of the text and the open tags to the last open tags.
  pub data Ends : Text → List Text → List Text → Type 0 where
    stop : (s : Text) (tags : List Text) → next to_lower s tags ≡ none → Ends s tags tags
    turn :
        (s : Text) (tags : List Text) (p : Text × List Text) (out : List Text)
        → next to_lower s tags ≡ some p
        → Ends p.0 p.1 out
        → Ends s tags out

  update_from-Ends :
      (n : ℕ) (s : Text) (tags : List Text)
      → length s ≤ n
      → Ends s tags (update_from to_lower n s tags)
  unfolding update_from
  update_from-Ends zero s tags h = stop s tags (next_end s tags h)
  update_from-Ends (suc n) s tags h = elim (Option-cases (next to_lower s tags)) [
    | inl done ↦
        let same : update_from to_lower (suc n) s tags ≡ tags = rw (update_from, done) refl in
        subst (Ends s tags) (sym same) (stop s tags done)
    | inr (p, more) ↦
        let shorter = length-next s tags {p = p} more in
        let same : update_from to_lower (suc n) s tags ≡ update_from to_lower n p.0 p.1 =
          rw (update_from, more) refl in
        subst (Ends s tags) (sym same) (
          turn s tags p (update_from to_lower n p.0 p.1) more
            (update_from-Ends n p.0 p.1 (omega (arith, shorter))))
  ]

  -- The loop of updateOpenTags ends: from every text and open tags, finitely many turns lead to where the
  -- loop stops, and the tags there are what updateOpenTags gives. More fuel than the text has characters
  -- changes nothing.
  pub update_open_tags-Ends :
      (s : Text) (tags : List Text)
      → Ends s tags (update_open_tags to_lower s tags)
        × ((n : ℕ)
            → length s ≤ n
            → update_from to_lower n s tags ≡ update_open_tags to_lower s tags)
  unfolding update_open_tags
  update_open_tags-Ends s tags = (
    update_from-Ends (length s) s tags (omega arith),
    λ n h. update_from-enough n (length s) s tags h (omega arith),
  )
