-- ===== src/Tests/Bot.antt =====
-- The theorems on the bot's parts (telegram/*.go but alerts.go).
use xray_checker_tg_bot.Base.{
  codes, ℕ, ◌+◌, ◌-◌, ◌%◌, ◌≤◌, ◌<◌, pos, true, false, List, [], ◌∷◌, length, ◌≡◌, ◌≢◌, ◌↔◌, refl,
  arith, Text, ◌++◌, All, has_char, cut, eqt, trim_space, trim_left, is_space, split, atoi,
  read_nat, read_digits, ltz,
}
use xray_checker_tg_bot.Base.Dict.{lookup}
use xray_checker_tg_bot.Telegram.Targets.{ChatTarget}
use xray_checker_tg_bot.Telegram.Tracker.{ActiveAlert}
use xray_checker_tg_bot.Telegram.Tracker.Refine.{
  Call, tracks, resolves, asks, run, run_table, table_of, run_refines,
}
use xray_checker_tg_bot.Telegram.Quiet.{
  QuietConfig, Clock, parse_time_of_day, time_of_parts, in_range, local_minutes, fold_ascii,
  minutes, is_quiet_time,
}
use xray_checker_tg_bot.Telegram.Quiet.Hours.{is_quiet_time_lem}
use xray_checker_tg_bot.Telegram.Split.{len, update_from, update_open_tags, split_message}
use xray_checker_tg_bot.Telegram.Split.Fuel.{Ends, update_open_tags-Ends}
use xray_checker_tg_bot.Telegram.Split.Letters.{letters, all_letters}
use xray_checker_tg_bot.Telegram.Split.Plain.{split_message_plain}
use xray_checker_tg_bot.Telegram.Stats.{
  StatsStore, stats_for, record_transition, opened, count_of, first, add_incident, max_global,
}
use xray_checker_tg_bot.Telegram.Stats.Quota.{IsWithinQuota, add_incident-IsWithinQuota}
use xray_checker_tg_bot.Telegram.Stats.Outage.{IsClosed, record_transition-outage}
use xray_checker_tg_bot.Telegram.Stats.Rolling.{Events, events_of, record_event}
use xray_checker_tg_bot.Telegram.Stats.Rolling.Alternates.{
  IsRolling, IsRecorded, record_event-IsRolling,
}

abbrev chat : ChatTarget
chat = record { chat_id = pos 7; thread_id = pos 3 }

abbrev alert : ActiveAlert
alert = record {
  chat_id = pos 7;
  thread_id = pos 3;
  message_id = pos 11;
  stable_id = codes "a1";
  proxy_name = codes "Alpha";
  down_at = 5;
  reason = codes "Offline";
}

abbrev night : QuietConfig
night = record {
  quiet_hours_enabled = true;
  quiet_hours_start = codes "23:00";
  quiet_hours_end = codes "08:00";
  quiet_snooze_until = pos 0;
  timezone = codes "Local";
}

abbrev one_o_clock : Clock
one_o_clock = record { unix = pos 100; own_minutes = 60; zone_minutes = 60 }

is_quiet_time_lem_example : (is_quiet_time one_o_clock night ≡ true) ↔ (
    (true ≡ true)
    × ((local_minutes one_o_clock (codes "Local") + 1440 - minutes (23, 0)) % 1440
        < (minutes (8, 0) + 1440 - minutes (23, 0)) % 1440))
unfolding parse_time_of_day time_of_parts in_range split trim_space trim_left is_space local_minutes
    fold_ascii eqt ltz atoi read_nat read_digits
is_quiet_time_lem_example =
    is_quiet_time_lem one_o_clock night {h = 23} {m = 0} {h' = 8} {m' = 0} refl refl refl
      (ground arith)

abbrev no_stats : StatsStore
no_stats = record { incidents = []; stats = []; rolling = []; latency_map = [] }

abbrev history : Events
history = record_event (codes "a1") true 5 []

record_event-IsRolling_example :
    IsRolling (record_event (codes "a1") false 6 history)
    × IsRecorded false 6
        (events_of (lookup (codes "a1") history))
        (events_of (lookup (codes "a1") (record_event (codes "a1") false 6 history)))
    × ((j : Text)
        → codes "a1" ≢ j
        → lookup j (record_event (codes "a1") false 6 history) ≡ lookup j history)
unfolding lookup
record_event-IsRolling_example =
    record_event-IsRolling (codes "a1") false 6 history
      (record_event-IsRolling (codes "a1") true 5 [] (λ j. (tt, ground arith))).0

add_incident-IsWithinQuota_example :
    (first 1 (add_incident (opened (codes "a1") (codes "Alpha") [] 5) [])
      ≡ opened (codes "a1") (codes "Alpha") [] 5 ∷ [])
    × (length (add_incident (opened (codes "a1") (codes "Alpha") [] 5) []) ≤ max_global)
    × IsWithinQuota (add_incident (opened (codes "a1") (codes "Alpha") [] 5) [])
unfolding count_of
add_incident-IsWithinQuota_example =
    add_incident-IsWithinQuota (opened (codes "a1") (codes "Alpha") [] 5) [] (λ j. ground arith)

record_transition-outage_example :
    (let before = stats_for (codes "a1") (codes "Alpha") no_stats in
      let down =
        (record_transition (codes "a1") (codes "Alpha") false (codes "Offline") 5 no_stats).0 in
      let up = record_transition (codes "a1") (codes "Alpha") true [] 9 down in
      let after = stats_for (codes "a1") (codes "Alpha") up.0 in
      (up.1 ≡ 9 - 5)
      × (after.total_downtime_sec ≡ before.total_downtime_sec + (9 - 5))
      × (after.drop_count ≡ before.drop_count + 1)
      × (after.currently_down ≡ false)
      × IsClosed (codes "a1") up.0.incidents)
unfolding stats_for lookup
record_transition-outage_example =
    record_transition-outage (codes "a1") (codes "Alpha") (codes "Alpha") (codes "Offline") 5 9
      no_stats refl (ground arith)

abbrev alert_calls : List Call
alert_calls =
    tracks alert ∷ resolves (pos 7) (pos 3) (codes "a1") ∷ asks (pos 7) (pos 3) (codes "a1") ∷ []

run_refines_example :
    ((run alert_calls []).0 ≡ (run_table alert_calls (table_of [])).0)
    × (table_of (run alert_calls []).1 ≡ (run_table alert_calls (table_of [])).1)
run_refines_example = run_refines alert_calls []

update_open_tags-Ends_example :
    Ends fold_ascii
      (codes "<b>x</b><i>y")
      []
      (update_open_tags fold_ascii (codes "<b>x</b><i>y") [])
    × ((n : ℕ)
        → length (codes "<b>x</b><i>y") ≤ n
        → update_from fold_ascii n (codes "<b>x</b><i>y") []
          ≡ update_open_tags fold_ascii (codes "<b>x</b><i>y") [])
update_open_tags-Ends_example = update_open_tags-Ends fold_ascii (codes "<b>x</b><i>y") []

abbrev message : Text
message = codes "abc" ++ (10 ∷ codes "de")

split_message_plain_example :
    All (λ c. len c ≤ 4) (split_message fold_ascii 4 message)
    × (all_letters (split_message fold_ascii 4 message) ≡ letters message)
unfolding split cut len has_char
split_message_plain_example =
    split_message_plain fold_ascii 4 message refl (ground arith, (ground arith, tt))
