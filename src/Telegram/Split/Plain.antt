-- ===== src/Telegram/Split/Plain.antt =====
-- The chunks of a text without tags.
use xray_checker_tg_bot.Base.{
  Text, ℕ, zero, suc, ◌+◌, ◌≤◌, Bool, true, false, ◌&&◌, List, [], ◌∷◌, ◌++◌, length, All,
  All-append, has_char, ltb, leb, if◌then◌else◌, ◌≡◌, refl, sym, ◌∙◌, ap, subst, arith, Bool-cases,
  inl, inr, split,
}
use xray_checker_tg_bot.Telegram.Split.{
  size, len, next, update_from, update_open_tags, close_tags, open_tags_prefix, Cut, make_room,
  put_line, put_lines, flush, split_message,
}
use xray_checker_tg_bot.Telegram.Split.Letters.{
  IsPlain, letters, all_letters, len-append, append_assoc, append_nil, letters-append,
  all_letters-append, all_letters-split, split-IsPlain,
}

module _ (to_lower : Text → Text) where
  -- A line without a tag opens none.
  update_from_plain :
      (n : ℕ) (s : Text) → has_char b'<' s ≡ false → update_from to_lower n s [] ≡ []
  unfolding update_from next has_char
  update_from_plain zero s h = refl
  update_from_plain (suc n) [] h = refl
  update_from_plain (suc n) (c ∷ s) h = ground (arith, update_from_plain n s)

  update_open_tags_plain :
      (s : Text) → has_char b'<' s ≡ false → update_open_tags to_lower s [] ≡ []
  unfolding update_open_tags
  update_open_tags_plain s h = update_from_plain (length s) s h

  module _ (limit : ℕ) (line cur : Text) (chunks : List Text) where
    abbrev at : Cut
    at = record { chunks = chunks; cur = cur; open_tags = [] }

    -- Does the line need a new chunk?
    abbrev is_full : Bool
    is_full = ltb 0 (len cur) && ltb limit (len cur + len line + 1)

    -- One line of a text without tags.
    put_line_full :
        is_full ≡ true
        → has_char b'<' line ≡ false
        → put_line to_lower limit line (make_room to_lower limit line at)
          ≡ record { chunks = chunks ++ ((cur ++ []) ∷ []); cur = line; open_tags = [] }
    unfolding put_line make_room close_tags open_tags_prefix len
    put_line_full full plain = ground (arith, update_open_tags_plain line plain)

    put_line_fits :
        is_full ≡ false
        → has_char b'<' line ≡ false
        → put_line to_lower limit line (make_room to_lower limit line at) ≡ record {
          chunks = chunks;
          cur = cur ++ (if ltb 0 (len cur) then 10 ∷ [] else []) ++ line;
          open_tags = [];
        }
    unfolding put_line make_room close_tags open_tags_prefix len
    put_line_fits fits plain = ground (arith, update_open_tags_plain line plain)

-- The letters and the length of a line that was put into a chunk.
abbrev joined : Text → Text → Text
joined cur line = cur ++ (if ltb 0 (len cur) then 10 ∷ [] else []) ++ line

letters_full :
    (chunks : List Text) (cur tail : Text)
    → all_letters (chunks ++ ((cur ++ []) ∷ [])) ++ tail
      ≡ all_letters chunks ++ (letters cur ++ tail)
unfolding all_letters
letters_full chunks cur tail =
    ap (λ l. l ++ tail) (all_letters-append chunks ((cur ++ []) ∷ []))
    ∙ ap (λ l. (all_letters chunks ++ l) ++ tail)
        (append_nil (letters (cur ++ [])) ∙ ap letters (append_nil cur))
    ∙ append_assoc (all_letters chunks) (letters cur) tail

letters_break : (b : Bool) → letters (if b then 10 ∷ [] else []) ≡ []
unfolding letters
letters_break true = refl
letters_break false = refl

letters_fits :
    (cur line tail : Text)
    → letters (joined cur line) ++ tail ≡ letters cur ++ (letters line ++ tail)
letters_fits cur line tail =
    let sep : Text = if ltb 0 (len cur) then 10 ∷ [] else [] in
    let e : letters (cur ++ sep) ≡ letters cur =
      letters-append cur sep
      ∙ ap (λ l. letters cur ++ l) (letters_break (ltb 0 (len cur)))
      ∙ append_nil (letters cur) in
    ap (λ l. l ++ tail) (letters-append (cur ++ sep) line ∙ ap (λ l. l ++ letters line) e)
    ∙ append_assoc (letters cur) (letters line) tail

len_fits :
    (limit : ℕ) (line cur : Text)
    → (ltb 0 (len cur) && ltb limit (len cur + len line + 1)) ≡ false
    → len line ≤ limit
    → len (joined cur line) ≤ limit
unfolding len
len_fits limit line cur fits h =
    let sep : Text = if ltb 0 (len cur) then 10 ∷ [] else [] in
    ground (arith, len-append (cur ++ sep) line, len-append cur sep)

-- The chunk that was being filled, at the end.
letters_empty : (s : Text) → ltb 0 (len s) ≡ false → letters s ≡ []
unfolding len letters
letters_empty [] h = refl
letters_empty (c ∷ s) h = ground arith

flush_begun :
    (k : Cut)
    → ltb 0 (len k.cur) ≡ true
    → k.open_tags ≡ []
    → flush k ≡ k.chunks ++ ((k.cur ++ []) ∷ [])
unfolding flush close_tags
flush_begun k begun tags = rw (flush, begun, tags) refl

flush_empty : (k : Cut) → ltb 0 (len k.cur) ≡ false → flush k ≡ k.chunks
unfolding flush
flush_empty k empty = ground arith

module _ (to_lower : Text → Text) (limit : ℕ) where
  -- What the loop over the lines does to the chunks and to the one that is being filled.
  abbrev Filled : List Text → Text → Cut → Type 0
  Filled lines text k =
      ((put_lines to_lower limit lines k).open_tags ≡ [])
      × (len (put_lines to_lower limit lines k).cur ≤ limit)
      × All (λ c. len c ≤ limit) (put_lines to_lower limit lines k).chunks
      × (all_letters (put_lines to_lower limit lines k).chunks
            ++ letters (put_lines to_lower limit lines k).cur
          ≡ text)

  put_lines-Filled :
      (lines chunks : List Text) (cur : Text)
      → All IsPlain lines
      → All (λ l. len l ≤ limit) lines
      → len cur ≤ limit
      → All (λ c. len c ≤ limit) chunks
      → Filled lines
          (all_letters chunks ++ (letters cur ++ all_letters lines))
          (record { chunks = chunks; cur = cur; open_tags = [] })
  unfolding put_lines all_letters
  put_lines-Filled [] chunks cur plain short h hs =
      (refl, h, hs, ap (λ l. all_letters chunks ++ l) (sym (append_nil (letters cur))))
  put_lines-Filled (line ∷ lines) chunks cur plain short h hs =
      let text = all_letters chunks ++ (letters cur ++ all_letters (line ∷ lines)) in
      elim (Bool-cases (is_full to_lower limit line cur chunks)) [
        | inl full ↦
            let e = put_line_full to_lower limit line cur chunks full plain.0 in
            let chunks' = chunks ++ ((cur ++ []) ∷ []) in
            let fits : len (cur ++ []) ≤ limit = rw (append_nil cur) h in
            let (tags, size, sizes, same) =
              put_lines-Filled lines chunks' line plain.1 short.1 short.0
                (All-append (λ c. len c ≤ limit) chunks ((cur ++ []) ∷ []) hs (fits, tt)) in
            subst (Filled lines text) (sym e) (
              tags,
              size,
              sizes,
              same ∙ letters_full chunks cur (letters line ++ all_letters lines),
            )
        | inr fits ↦
            let e = put_line_fits to_lower limit line cur chunks fits plain.0 in
            let cur' = cur ++ (if ltb 0 (len cur) then 10 ∷ [] else []) ++ line in
            let small = len_fits limit line cur fits short.0 in
            let (tags, size, sizes, same) =
              put_lines-Filled lines chunks cur' plain.1 short.1 small hs in
            subst (Filled lines text) (sym e) (
              tags,
              size,
              sizes,
              same ∙ ap (λ l. all_letters chunks ++ l) (letters_fits cur line (all_letters lines)),
            )
      ]

  flush_plain :
      (k : Cut)
      → k.open_tags ≡ []
      → len k.cur ≤ limit
      → All (λ c. len c ≤ limit) k.chunks
      → All (λ c. len c ≤ limit) (flush k)
        × (all_letters (flush k) ≡ all_letters k.chunks ++ letters k.cur)
  flush_plain k tags h hs = elim (Bool-cases (ltb 0 (len k.cur))) [
    | inl begun ↦
        let e = flush_begun k begun tags in
        let small = subst (λ s. len s ≤ limit) (sym (append_nil k.cur)) h in
        let both = All-append (λ c. len c ≤ limit) k.chunks ((k.cur ++ []) ∷ []) hs (small, tt) in
        (
          subst (All (λ c. len c ≤ limit)) (sym e) both,
          ap all_letters e
              ∙ sym (append_nil (all_letters (k.chunks ++ ((k.cur ++ []) ∷ []))))
              ∙ letters_full k.chunks k.cur []
              ∙ ap (λ l. all_letters k.chunks ++ l) (append_nil (letters k.cur)),
        )
    | inr empty ↦
        let e = flush_empty k empty in
        (
          subst (All (λ c. len c ≤ limit)) (sym e) hs,
          ap all_letters e
              ∙ sym (append_nil (all_letters k.chunks))
              ∙ ap (λ l. all_letters k.chunks ++ l) (sym (letters_empty k.cur empty)),
        )
  ]

  -- A message without tags, whose lines are within the limit, is sent in chunks within the limit that
  -- hold all of its letters, in their order: only line breaks are lost.
  pub split_message_plain :
      (text : Text)
      → has_char b'<' text ≡ false
      → All (λ l. len l ≤ limit) (split 10 text)
      → All (λ c. len c ≤ limit) (split_message to_lower limit text)
        × (all_letters (split_message to_lower limit text) ≡ letters text)
  unfolding split_message all_letters letters len
  split_message_plain text plain short = elim (Bool-cases (leb (len text) limit)) [
    | inl fits ↦ rw fits ((ground arith, tt), append_nil (letters text))
    | inr long ↦
        let k =
          put_lines to_lower limit (split 10 text)
            (record { chunks = []; cur = []; open_tags = [] }) in
        let nothing : len [] ≤ limit = ground arith in
        let (tags, size, sizes, same) =
          put_lines-Filled (split 10 text) [] [] (split-IsPlain text plain) short nothing tt in
        let (within, all) = flush_plain k tags size sizes in
        rw long (within, all ∙ same ∙ all_letters-split text)
  ]
