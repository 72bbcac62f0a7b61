-- ===== src/Telegram/Split/Defects.antt =====
-- telegram/formatters.go: splitMessage at the edges of its chunks.
use xray_checker_tg_bot.Base.{
  codes, [], ◌∷◌, ◌++◌, split, cut, eqt, trim_space, trim_left, is_space, has_prefix, drop_prefix,
  contains, ◌≡◌, refl,
}
use xray_checker_tg_bot.Telegram.Split.{
  len, split_message, flush, put_lines, put_line, make_room, close_tags, update_open_tags,
  update_from, next, open_tags_prefix, cut_at, apply_tag, ends_in_slash, first_field, close_last,
  word,
}

-- The line break after a blank first line is lost.
blank_line_is_lost : split_message (λ s. s) 1 (10 ∷ codes "a") ≡ codes "a" ∷ []
unfolding split cut len split_message flush put_lines put_line make_room close_tags update_open_tags
    update_from next
blank_line_is_lost = refl

-- The first chunk has 10 bytes, and the limit is 6: the closing tag is not counted.
closing_tag_exceeds_limit :
    split_message (λ s. s) 6 (codes "aa" ++ (10 ∷ codes "<b>") ++ (10 ∷ codes "cc"))
    ≡ (codes "aa" ++ (10 ∷ codes "<b></b>")) ∷ codes "<b>cc</b>" ∷ []
unfolding split cut len split_message flush put_lines put_line make_room close_tags update_open_tags
    update_from next open_tags_prefix cut_at apply_tag has_prefix trim_space ends_in_slash eqt
    contains first_field drop_prefix is_space trim_left close_last word
closing_tag_exceeds_limit = refl
