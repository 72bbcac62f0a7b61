-- ===== src/Tests/Snapshots.antt =====
-- The theorems on ProcessSnapshot (telegram/alerts.go), at a chat and a proxy that goes down.
use xray_checker_tg_bot.Base.{
  eqt, codes, ℕ, ℤ, pos, Bool, true, false, Option, none, some, [], ◌∷◌, ◌≡◌, refl, All, contains,
  inl, inr, ltz,
}
use xray_checker_tg_bot.Base.Dict.{lookup}
use xray_checker_tg_bot.Checker.Types.{ProxyMetric, no_metric}
use xray_checker_tg_bot.Telegram.Targets.{ChatTarget}
use xray_checker_tg_bot.Telegram.Tracker.{alert_key}
use xray_checker_tg_bot.Telegram.Quiet.{QuietConfig, is_quiet_time, fold_ascii}
use xray_checker_tg_bot.Telegram.Alerts.{Moment, Setup, Bot, Message}
use xray_checker_tg_bot.Telegram.Alerts.Observe.{locked}
use xray_checker_tg_bot.Telegram.Alerts.Delivery.{process_snapshot}
use xray_checker_tg_bot.Telegram.Alerts.Seen.{last_word, process_snapshot-last_seen}
use xray_checker_tg_bot.Telegram.Alerts.Cleared.{NoAlert, process_snapshot-NoAlert}
use xray_checker_tg_bot.Telegram.Alerts.Silent.{is_silent, process_snapshot-IsSilent}
use xray_checker_tg_bot.Telegram.Alerts.Edges.{IsOutage, locked-outages}

abbrev chat : ChatTarget
chat = record { chat_id = pos 7; thread_id = pos 3 }

-- Telegram sends every message, with the number 11.
abbrev send : ChatTarget → Message → Option ℤ
send t m = some (pos 11)

abbrev quiet_config : QuietConfig
quiet_config = record {
  quiet_hours_enabled = false;
  quiet_hours_start = [];
  quiet_hours_end = [];
  quiet_snooze_until = pos 50;
  timezone = [];
}

abbrev setup : Setup
setup = record {
  targets = chat ∷ [];
  quiet = quiet_config;
  node_proxy_alerts_chat = true;
  alert_mode = codes "clean";
  notify_on_recovery = true;
  has_api = true;
}

-- A moment `n` seconds after 1970, which the snooze covers up to 49.
abbrev at : ℕ → Moment
at n = record {
  clock = record { unix = pos n; own_minutes = 0; zone_minutes = 0 };
  nanos = n;
  seconds = n;
}

abbrev alpha : Bool → ProxyMetric
alpha online = record no_metric { stable_id = codes "a1"; name = codes "Alpha"; online = online }

-- The bot after a first snapshot with the proxy online.
abbrev bot : Bot
bot = record {
  seeded = true;
  last_seen = (codes "a1", true) ∷ [];
  last_flap_alert = [];
  stats_store = none;
  alerts = [];
  event_buffer = [];
}

process_snapshot-last_seen_example :
    lookup
      (codes "a1")
      (process_snapshot fold_ascii send setup (at 60) (alpha false ∷ []) bot).0.last_seen
    ≡ last_word (codes "a1") none (alpha false ∷ [])
process_snapshot-last_seen_example =
    process_snapshot-last_seen fold_ascii send setup (at 60) (alpha false ∷ []) bot (codes "a1")
      refl

abbrev next_bot : Bot
next_bot = (process_snapshot fold_ascii send setup (at 60) (alpha true ∷ []) bot).0

alpha_online : lookup (codes "a1") next_bot.last_seen ≡ some true
unfolding last_word eqt
alpha_online =
    process_snapshot-last_seen fold_ascii send setup (at 60) (alpha true ∷ []) bot (codes "a1") refl

process_snapshot-NoAlert_example : NoAlert (codes "a1") next_bot.alerts (chat ∷ [])
unfolding lookup
process_snapshot-NoAlert_example =
    process_snapshot-NoAlert fold_ascii send setup (at 60) (alpha true ∷ []) bot (codes "a1") refl
      (inr (refl, tt)) alpha_online

process_snapshot-IsSilent_example :
    is_silent (process_snapshot fold_ascii send setup (at 40) (alpha false ∷ []) bot).1 ≡ true
unfolding is_quiet_time ltz
process_snapshot-IsSilent_example =
    process_snapshot-IsSilent fold_ascii send setup (at 40) (alpha false ∷ []) bot (inl refl)

locked-outages_example :
    All (IsOutage bot) (locked fold_ascii setup (at 60) (alpha false ∷ []) bot).outages
unfolding contains
locked-outages_example = locked-outages fold_ascii setup (at 60) (alpha false ∷ []) bot (refl, tt)

-- The alert of the proxy at the chat, which was down when it left the subscription.
abbrev forgotten : Bot
forgotten = record bot {
  last_seen = [];
  alerts =
      (
        alert_key (pos 7) (pos 3) (codes "a1"),
        record {
          chat_id = pos 7;
          thread_id = pos 3;
          message_id = pos 11;
          stable_id = codes "a1";
          proxy_name = codes "Alpha";
          down_at = 5;
          reason = codes "Offline";
        },
      )
      ∷ [];
}
