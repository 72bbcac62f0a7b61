-- ===== src/Telegram/Targets/Accepted.antt =====
-- What ParseChatTargets promises.
use xray_checker_tg_bot.Base.{
  Text, zero, suc, ℤ, pos, negsuc, true, false, List, [], ◌∷◌, ◌++◌, map, ok, ◌≡◌, refl, arith, eqt,
  eqt_iff, contains, Distinct, All, trim_space, cut, Result-cases, Bool-cases, inl, inr, print_int,
  has_char, has_char-append, has_char-print_int, print_int-injective,
}
use xray_checker_tg_bot.Checker.Runtime.{is_positive, is_nonnegative}
use xray_checker_tg_bot.Telegram.Targets.{
  ChatTarget, target_key, is_zero, parse_parts, parse_from, parse_chat_targets,
}

-- A chat, and a topic or zero for none.
abbrev pub IsTarget : ChatTarget → Type 0
IsTarget t = (is_zero t.chat_id ≡ false) × (is_nonnegative t.thread_id ≡ true)

positive-nonnegative : (z : ℤ) → is_positive z ≡ true → is_nonnegative z ≡ true
positive-nonnegative (pos n) h = refl
positive-nonnegative (negsuc n) h = h

parse_parts-IsTarget :
    (parts : Text × List Text) {t : ChatTarget} → parse_parts parts ≡ ok t → IsTarget t
unfolding parse_parts
parse_parts-IsTarget (word, []) {t} h = ground arith
parse_parts-IsTarget (word, next ∷ rest) {t} h = ground (arith, positive-nonnegative t.thread_id)

pub colon_splits :
    (a b s t : Text)
    → has_char b':' a ≡ false
    → has_char b':' b ≡ false
    → a ++ (b':' ∷ s) ≡ b ++ (b':' ∷ t)
    → (a ≡ b) × (s ≡ t)
unfolding has_char
colon_splits [] [] s t ha hb e = ground arith
colon_splits [] (y ∷ b) s t ha hb e = ground arith
colon_splits (x ∷ a) [] s t ha hb e = ground arith
colon_splits (x ∷ a) (y ∷ b) s t ha hb e = ground (arith, colon_splits a b s t)

has_colon : (a s : Text) → has_char b':' (a ++ (b':' ∷ s)) ≡ true
unfolding has_char
has_colon a s = ground (arith, has_char-append b':' a (b':' ∷ s))

pub no_colon : (z : ℤ) → has_char b':' (print_int z) ≡ false
no_colon z = has_char-print_int b':' z refl (λ e. absurd (omega arith))

not-positive : (z : ℤ) → is_nonnegative z ≡ true → is_positive z ≡ false → z ≡ pos 0
not-positive (pos zero) h k = refl
not-positive (pos (suc n)) h k = cc
not-positive (negsuc n) h k = cc

-- Different targets have different keys.
pub target_key-injective :
    (t u : ChatTarget)
    → is_nonnegative t.thread_id ≡ true
    → is_nonnegative u.thread_id ≡ true
    → target_key t ≡ target_key u
    → t ≡ u
unfolding target_key
target_key-injective t u ht hu e = ground (
  arith,
  print_int-injective t.chat_id u.chat_id,
  print_int-injective t.thread_id u.thread_id,
  colon_splits (print_int t.chat_id) (print_int u.chat_id) (print_int t.thread_id)
      (print_int u.thread_id) (no_colon t.chat_id) (no_colon u.chat_id),
  has_colon (print_int t.chat_id) (print_int t.thread_id),
  has_colon (print_int u.chat_id) (print_int u.thread_id),
  no_colon t.chat_id,
  no_colon u.chat_id,
  not-positive t.thread_id ht,
  not-positive u.thread_id hu,
)

record IsParsed (seen : List Text) (ts : List ChatTarget) : Type 0 where
  targets : All IsTarget ts
  fresh : All (λ t. contains (target_key t) seen ≡ false) ts
  distinct : Distinct (map target_key ts)

fresh-shrink :
    (k : Text) (seen : List Text) (ts : List ChatTarget)
    → All (λ t. contains (target_key t) (k ∷ seen) ≡ false) ts
    → All (λ t. contains (target_key t) seen ≡ false) ts × (contains k (map target_key ts) ≡ false)
unfolding contains
fresh-shrink k seen [] h = (tt, refl)
fresh-shrink k seen (t ∷ ts) h =
    ground (arith, fresh-shrink k seen ts, eqt_iff k (target_key t), eqt_iff (target_key t) k)

parse_from-IsParsed :
    (seen entries : List Text) {ts : List ChatTarget}
    → parse_from seen entries ≡ ok ts
    → IsParsed seen ts
unfolding parse_from
parse_from-IsParsed seen [] h = ground arith
parse_from-IsParsed seen (raw ∷ entries) {ts} h = elim (Bool-cases (eqt (trim_space raw) [])) [
  | inl blank ↦ parse_from-IsParsed seen entries (ground arith)
  | inr entry ↦ elim (Result-cases (parse_parts (cut b':' (trim_space raw)))) [
    | inr (x, failed) ↦ ground arith
    | inl (t, found) ↦ elim (Bool-cases (contains (target_key t) seen)) [
      | inl again ↦ parse_from-IsParsed seen entries (ground arith)
      | inr new ↦ elim (Result-cases (parse_from (target_key t ∷ seen) entries)) [
        | inr (x, failed) ↦ ground arith
        | inl (us, rest) ↦
            let ih = parse_from-IsParsed (target_key t ∷ seen) entries rest in
            let shrunk = fresh-shrink (target_key t) seen us ih.fresh in
            let e : t ∷ us ≡ ts = ground arith in
            rw (← e) (record {
              targets = (parse_parts-IsTarget _ found, ih.targets);
              fresh = (new, shrunk.0);
              distinct = (shrunk.1, ih.distinct);
            })
      ]
    ]
  ]
]

-- The accepted targets have a chat that is not zero and a topic that is not negative, and no
-- target stands twice: their keys are distinct.
pub parse_chat_targets_lem :
    (entries : List Text) {ts : List ChatTarget}
    → parse_chat_targets entries ≡ ok ts
    → All IsTarget ts × Distinct (map target_key ts)
unfolding parse_chat_targets
parse_chat_targets_lem entries h =
    let parsed = parse_from-IsParsed [] entries h in (parsed.targets, parsed.distinct)
