-- ===== src/Telegram/Quiet.antt =====
-- telegram/scheduler.go: quiet hours. The clock gives the time in Unix seconds, and its hour and
-- minute twice: in its own location, and in the one of the configuration's timezone, which the time
-- zone database of Go finds.
pub mod Hours
use xray_checker_tg_bot.Base.{
  Text, codes, ℕ, ◌+◌, ◌*◌, ℤ, pos, negsuc, Bool, true, false, ◌||◌, ◌&&◌, not, Option, none, some,
  List, [], ◌∷◌, ◌++◌, eqt, trim_space, split, atoi, ltb, leb, ltz, ◌==◌, if◌then◌else◌,
}

-- The fields of BotConfig that IsQuietTime reads.
pub record QuietConfig : Type 0 where
  pub quiet_hours_enabled : Bool
  pub quiet_hours_start : Text
  pub quiet_hours_end : Text
  pub quiet_snooze_until : ℤ
  pub timezone : Text

-- The answers of the clock: Unix seconds, and minutes since midnight.
pub record Clock : Type 0 where
  pub unix : ℤ
  pub own_minutes : ℕ
  pub zone_minutes : ℕ

-- a number from 0 to `most`, as the tests on the hour and the minute ask
unfoldable pub in_range : ℕ → Option ℤ → Option ℕ
in_range most none = none
in_range most (some (pos n)) = if leb n most then some n else none
in_range most (some (negsuc n)) = none

unfoldable pub time_of_parts : List Text → Option (ℕ × ℕ)
unfolding in_range
time_of_parts (a ∷ b ∷ []) = elim (in_range 23 (atoi a)) [
  | none ↦ none
  | some h ↦ elim (in_range 59 (atoi b)) [ none ↦ none | some m ↦ some (h, m) ]
]
time_of_parts _ = none

-- parseTimeOfDay
unfoldable pub parse_time_of_day : Text → Option (ℕ × ℕ)
unfolding time_of_parts
parse_time_of_day s = time_of_parts (split b':' (trim_space s))

-- strings.EqualFold of an ASCII letter and a text character, for `local`: it folds the case of
-- ASCII letters; no other character folds to one of `local`.
unfoldable pub fold_ascii : Text → Text
fold_ascii [] = []
fold_ascii (c ∷ s) = (if leb b'A' c && leb c b'Z' then c + 32 else c) ∷ fold_ascii s

unfoldable pub local_minutes : Clock → Text → ℕ
unfolding fold_ascii
local_minutes now timezone =
    if not (eqt timezone []) && not (eqt (fold_ascii timezone) (codes "local"))
    then now.zone_minutes
    else now.own_minutes

-- The comparison of the minutes, for hours that do not span midnight and for those that do.
unfoldable pub in_hours : ℕ → ℕ → ℕ → Bool
in_hours start end now =
    if start == end
    then false
    else if ltb start end
    then leb start now && ltb now end
    else leb start now || ltb now end

abbrev pub minutes : ℕ × ℕ → ℕ
minutes t = t.0 * 60 + t.1

-- IsQuietTime
unfoldable pub is_quiet_time : Clock → QuietConfig → Bool
is_quiet_time now cfg =
    if ltz now.unix cfg.quiet_snooze_until
    then true
    else if not cfg.quiet_hours_enabled
    then false
    else elim (parse_time_of_day cfg.quiet_hours_start) [
      | none ↦ false
      | some start ↦ elim (parse_time_of_day cfg.quiet_hours_end) [
        | none ↦ false
        | some end ↦ in_hours (minutes start) (minutes end) (local_minutes now cfg.timezone)
      ]
    ]
