-- ===== src/Telegram/Split.antt =====
-- telegram/formatters.go: splitMessage, which cuts a message of Telegram's HTML into chunks at its line
-- breaks. `to_lower` is strings.ToLower; lengths are in bytes of UTF-8.
pub mod Defects
pub mod Fuel
pub mod Letters
pub mod Plain
use xray_checker_tg_bot.Base.{
  Text, codes, ℕ, zero, suc, ◌+◌, ◌≤◌, Bool, true, false, ◌||◌, ◌&&◌, not, Option, none, some, List,
  [], ◌∷◌, ◌++◌, length, eqt, contains, cut, split, has_prefix, drop_prefix, has_infix, is_space,
  trim_space, trim_left, ltb, leb, ◌==◌, if◌then◌else◌,
}

-- len of a string: the bytes of its characters
abbrev pub size : ℕ → ℕ
size c = if ltb c 128 then 1 else if ltb c 2048 then 2 else if ltb c 65536 then 3 else 4

unfoldable pub len : Text → ℕ
len [] = 0
len (c ∷ s) = size c + len s

-- strings.Fields(s)[0], of a text with a field
unfoldable pub word : Text → Text
word [] = []
word (c ∷ s) = let rest = word s in if is_space c then [] else c ∷ rest

unfoldable pub first_field : Text → Text
first_field s = word (trim_left s)

-- the text before the first character of its kind, and the text behind it
unfoldable pub cut_at : ℕ → Text → Option (Text × Text)
cut_at sep [] = none
cut_at sep (c ∷ s) =
    let later : Option (Text × Text) = elim (cut_at sep s) [
      | none ↦ none
      | some p ↦ some (c ∷ p.0, p.1)
    ] in
    if c == sep then some ([], s) else later

-- Does the text end in a slash?
unfoldable pub ends_in_slash : Text → Bool
ends_in_slash [] = false
ends_in_slash (c ∷ s) = eqt (c ∷ s) (codes "/") || ends_in_slash s

-- the tags that Telegram knows, but for links
abbrev pub plain_tags : List Text
plain_tags =
    codes "b"
    ∷ codes "strong"
    ∷ codes "i"
    ∷ codes "em"
    ∷ codes "u"
    ∷ codes "ins"
    ∷ codes "s"
    ∷ codes "strike"
    ∷ codes "del"
    ∷ codes "code"
    ∷ codes "pre"
    ∷ codes "tg-spoiler"
    ∷ codes "blockquote"
    ∷ []

module _ (to_lower : Text → Text) where
  -- the inner loop of updateOpenTags: the tags without the last one of the name
  unfoldable pub close_last : Text → List Text → List Text
  close_last name [] = []
  close_last name (t ∷ tags) =
      let rest = close_last name tags in
      let is_later = not (leb (length tags) (length rest)) in
      if is_later then t ∷ rest else if eqt (to_lower (first_field t)) name then tags else t ∷ tags

  -- what one tag does to the open tags
  unfoldable pub apply_tag : Text → List Text → List Text
  apply_tag content tags =
      if has_prefix content (codes "/")
      then close_last (to_lower (drop_prefix content (codes "/"))) tags
      else if ends_in_slash content || eqt content []
      then tags
      else let name = to_lower (first_field content) in
        if contains name plain_tags
        then tags ++ (name ∷ [])
        else if eqt name (codes "a")
        then tags ++ (content ∷ [])
        else tags

  -- a turn of the loop of updateOpenTags: the rest of the text and the tags, or none where it ends
  unfoldable pub next : Text → List Text → Option (Text × List Text)
  next [] tags = none
  next (c ∷ s) tags =
      let tag : Option (Text × List Text) = elim (cut_at b'>' s) [
        | none ↦ none
        | some p ↦ some (p.1, apply_tag (trim_space p.0) tags)
      ] in
      if c == b'<' then tag else some (s, tags)

  -- the loop, with fuel
  unfoldable pub update_from : ℕ → Text → List Text → List Text
  update_from zero s tags = tags
  update_from (suc n) s tags = elim (next s tags) [ none ↦ tags | some p ↦ update_from n p.0 p.1 ]

  -- updateOpenTags
  unfoldable pub update_open_tags : Text → List Text → List Text
  update_open_tags text tags = update_from (length text) text tags

-- closeTags
unfoldable pub close_tags : List Text → Text
close_tags [] = []
close_tags (t ∷ tags) = close_tags tags ++ codes "</" ++ first_field t ++ codes ">"

-- openTagsPrefix
unfoldable pub open_tags_prefix : List Text → Text
open_tags_prefix [] = []
open_tags_prefix (t ∷ tags) = codes "<" ++ t ++ codes ">" ++ open_tags_prefix tags

-- the variables of splitMessage
pub record Cut : Type 0 where
  pub chunks : List Text
  pub cur : Text
  pub open_tags : List Text

-- the end of splitMessage: the chunk that was being filled
unfoldable pub flush : Cut → List Text
flush k =
    if ltb 0 (len k.cur) then k.chunks ++ ((k.cur ++ close_tags k.open_tags) ∷ []) else k.chunks

module _ (to_lower : Text → Text) (limit : ℕ) where
  -- the first half of the loop's body: a new chunk where the line does not fit
  unfoldable pub make_room : Text → Cut → Cut
  make_room line k =
      let closing = close_tags k.open_tags in
      if ltb 0 (len k.cur) && ltb limit (len k.cur + len line + 1 + len closing)
      then record k {
        chunks = k.chunks ++ ((k.cur ++ closing) ∷ []);
        cur = open_tags_prefix k.open_tags;
      }
      else k

  -- the second half: the line, after a line break where the chunk has begun
  unfoldable pub put_line : Text → Cut → Cut
  put_line line k =
      let begun = ltb 0 (len k.cur) && not (len k.cur == len (open_tags_prefix k.open_tags)) in
      record k {
        cur = k.cur ++ (if begun then 10 ∷ [] else []) ++ line;
        open_tags = update_open_tags to_lower line k.open_tags;
      }

  unfoldable pub put_lines : List Text → Cut → Cut
  put_lines [] k = k
  put_lines (line ∷ lines) k = put_lines lines (put_line line (make_room line k))

  -- splitMessage
  unfoldable pub split_message : Text → List Text
  split_message text =
      if leb (len text) limit
      then text ∷ []
      else flush (put_lines (split 10 text) (record { chunks = []; cur = []; open_tags = [] }))
