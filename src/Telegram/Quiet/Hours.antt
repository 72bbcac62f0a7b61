-- ===== src/Telegram/Quiet/Hours.antt =====
-- Quiet hours as an interval on the circle of a day.
use xray_checker_tg_bot.Base.{
  Text, ℕ, ◌+◌, ◌-◌, ◌%◌, ◌<◌, true, false, some, List, [], ◌∷◌, ◌≡◌, ◌↔◌, arith, ltz,
}
use xray_checker_tg_bot.Telegram.Quiet.{
  QuietConfig, Clock, time_of_parts, parse_time_of_day, local_minutes, in_hours, minutes,
  is_quiet_time,
}

-- A minute is in the hours exactly if it comes, going round the day from their start, before their
-- end.
in_hours_circle :
    (start end now : ℕ)
    → start < 1440
    → end < 1440
    → now < 1440
    → (in_hours start end now ≡ true) ↔ ((now + 1440 - start) % 1440 < (end + 1440 - start) % 1440)
unfolding in_hours
in_hours_circle start end now hs he hn = ground arith

time_of_parts_bounds :
    (parts : List Text) {h m : ℕ} → time_of_parts parts ≡ some (h, m) → (h < 24) × (m < 60)
unfolding time_of_parts
time_of_parts_bounds (a ∷ b ∷ []) e = (ground arith, ground arith)
time_of_parts_bounds _ e = ground arith

-- An accepted time of day is one.
pub parse_time_of_day_bounds :
    (s : Text) {h m : ℕ} → parse_time_of_day s ≡ some (h, m) → (h < 24) × (m < 60)
unfolding parse_time_of_day
parse_time_of_day_bounds s e = time_of_parts_bounds _ e

-- Without a snooze, and with two times of day that are read, it is quiet exactly if the quiet
-- hours are enabled and the minute of the configured time zone lies in the half-open interval from
-- the start to the end, going round midnight where they span it.
pub is_quiet_time_lem :
    (now : Clock) (cfg : QuietConfig) {h m h' m' : ℕ}
    → ltz now.unix cfg.quiet_snooze_until ≡ false
    → parse_time_of_day cfg.quiet_hours_start ≡ some (h, m)
    → parse_time_of_day cfg.quiet_hours_end ≡ some (h', m')
    → local_minutes now cfg.timezone < 1440
    → (is_quiet_time now cfg ≡ true) ↔ (
        (cfg.quiet_hours_enabled ≡ true)
        × ((local_minutes now cfg.timezone + 1440 - minutes (h, m)) % 1440
            < (minutes (h', m') + 1440 - minutes (h, m)) % 1440))
unfolding is_quiet_time
is_quiet_time_lem now cfg {h} {m} {h'} {m'} awake start end day =
    let (hb, mb) = parse_time_of_day_bounds cfg.quiet_hours_start start in
    let (hb', mb') = parse_time_of_day_bounds cfg.quiet_hours_end end in
    ground (
      arith,
      awake,
      start,
      end,
      in_hours_circle (minutes (h, m)) (minutes (h', m')) (local_minutes now cfg.timezone)
          (omega arith) (omega arith) day,
    )
