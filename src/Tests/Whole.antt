-- ===== src/Tests/Whole.antt =====
-- The theorems on main.go: a node that fell silent while its proxy was down and a chat had its alert.
use xray_checker_tg_bot.Base.{
  Text, codes, ◌*◌, ℤ, pos, true, false, Option, none, some, [], ◌∷◌, ◌≡◌, ◌≢◌, refl, sym, arith,
  eqt, eqt_iff, contains, ltz, scale_add, wrap64, sub_time,
}
use xray_checker_tg_bot.Base.Dict.{lookup}
use xray_checker_tg_bot.Checker.Types.{ProxyMetric, no_metric}
use xray_checker_tg_bot.Nodes.Registry.{up, down, NodeState, Registry}
use xray_checker_tg_bot.Nodes.Registry.Health.{is_stale, capped_interval, deadline, emit_at}
use xray_checker_tg_bot.Nodes.Registry.Merged.{live}
use xray_checker_tg_bot.Telegram.Targets.{ChatTarget}
use xray_checker_tg_bot.Telegram.Quiet.{QuietConfig, fold_ascii}
use xray_checker_tg_bot.Telegram.Tracker.{ActiveAlert, alert_key}
use xray_checker_tg_bot.Telegram.Alerts.{Moment, Setup, Bot, Message}
use xray_checker_tg_bot.Telegram.Alerts.Seen.{is_told}
use xray_checker_tg_bot.Telegram.Alerts.Withdrawn.{is_there}
use xray_checker_tg_bot.Telegram.Alerts.Cleared.{NoAlert}
use xray_checker_tg_bot.Main.{view, emit_snapshot, sweep}
use xray_checker_tg_bot.Main.Forgotten.{sweep-forgets}
use xray_checker_tg_bot.Main.Viewed.{view-keeps_alerts}

abbrev chat : ChatTarget
chat = record { chat_id = pos 7; thread_id = pos 3 }

abbrev send : ChatTarget → Message → Option ℤ
send t m = some (pos 11)

abbrev quiet_config : QuietConfig
quiet_config = record {
  quiet_hours_enabled = false;
  quiet_hours_start = [];
  quiet_hours_end = [];
  quiet_snooze_until = pos 0;
  timezone = [];
}

abbrev setup : Setup
setup = record {
  targets = chat ∷ [];
  quiet = quiet_config;
  node_proxy_alerts_chat = true;
  alert_mode = codes "clean";
  notify_on_recovery = true;
  has_api = true;
}

abbrev later : Moment
later = record {
  clock = record { unix = pos 100; own_minutes = 0; zone_minutes = 0 };
  nanos = 100 * 1000000000;
  seconds = 100;
}

abbrev alpha : ProxyMetric
alpha = record no_metric { stable_id = codes "fi/a1"; name = codes "Alpha" }

abbrev fi : NodeState
fi = record {
  cfg = record { name = codes "fi"; token = codes "t" };
  status = up;
  last_report = 0;
  interval_sec = pos 1;
  version = [];
  host_ip = [];
  asn = [];
  snapshot = alpha ∷ [];
  diag_reports = [];
  grace_pending = false;
}

abbrev registry_of : NodeState → Registry
registry_of st = record {
  nodes = (codes "fi", st) ∷ [];
  by_token = [];
  subs = none;
  asn = none;
  has_on_update = false;
  cfg_source = none;
  nodes_store = none;
  stale_cap = 0;
  audits = [];
}

abbrev alert : ActiveAlert
alert = record {
  chat_id = pos 7;
  thread_id = pos 3;
  message_id = pos 11;
  stable_id = codes "fi/a1";
  proxy_name = codes "Alpha";
  down_at = 5;
  reason = codes "Offline";
}

abbrev bot : Bot
bot = record {
  seeded = true;
  last_seen = (codes "fi/a1", false) ∷ [];
  last_flap_alert = [];
  stats_store = none;
  alerts = (alert_key (pos 7) (pos 3) (codes "fi/a1"), alert) ∷ [];
  event_buffer = [];
}

-- No other node is known.
nothing_else :
    (n : Text) → n ≢ codes "fi" → is_told (codes "fi/a1") (emit_at (registry_of fi).nodes n) ≡ false
unfolding is_told emit_at lookup
nothing_else n apart =
    let other : codes "fi" ≢ n = λ e. apart (sym e) in ground (arith, eqt_iff (codes "fi") n, other)

fi_stale : is_stale later.nanos 0 fi ≡ true
unfolding is_stale capped_interval deadline scale_add wrap64 ltz sub_time
fi_stale = ground arith

sweep-forgets_example :
    (b' : Bot) × ((sweep fold_ascii send setup later []
        (record { registry = registry_of fi; bot = some bot })).0.bot
      ≡ some b')
    × NoAlert (codes "fi/a1") b'.alerts (chat ∷ [])
    × (lookup (codes "fi/a1") b'.last_seen ≡ none)
unfolding lookup eqt contains is_there is_told
sweep-forgets_example =
    sweep-forgets fold_ascii send setup later [] (codes "fi") (codes "fi/a1") (registry_of fi) bot
      {st = fi} (refl, tt) refl fi_stale refl refl nothing_else refl

abbrev fi_down : NodeState
fi_down = record fi { status = down; grace_pending = true }

nothing_live :
    (n : Text)
    → n ≢ codes "fi"
    → is_there (codes "fi/a1") (live (registry_of fi_down).nodes n) ≡ false
unfolding is_there live lookup
nothing_live n apart =
    let other : codes "fi" ≢ n = λ e. apart (sym e) in ground (arith, eqt_iff (codes "fi") n, other)

view-keeps_alerts_example :
    (b' : Bot) × ((emit_snapshot fold_ascii send setup later []
        (view [] (record { registry = registry_of fi_down; bot = some bot })).0).0.bot
      ≡ some b')
    × (lookup (alert_key (pos 7) (pos 3) (codes "fi/a1")) b'.alerts
        ≡ lookup (alert_key (pos 7) (pos 3) (codes "fi/a1")) bot.alerts)
unfolding is_there lookup eqt
view-keeps_alerts_example =
    view-keeps_alerts fold_ascii send setup later [] [] (codes "fi") (codes "fi/a1") (pos 7) (pos 3)
      (registry_of fi_down) bot {st = fi_down} refl refl refl nothing_live refl
