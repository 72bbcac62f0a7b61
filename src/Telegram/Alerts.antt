-- ===== src/Telegram/Alerts.antt =====
-- telegram/alerts.go and EventBuffer of telegram/scheduler.go: ProcessSnapshot. What it does while
-- it holds the bot's lock is in Alerts/Observe.antt, what it sends afterwards in
-- Alerts/Delivery.antt. Calls of the Telegram API are values; their errors are dropped, as the
-- source drops them.
pub mod Observe
pub mod Delivery
pub mod Keeps
pub mod Seen
pub mod Cleared
pub mod Silent
pub mod Edges
pub mod Defects
pub mod Withdrawn
pub mod Absent
pub mod Digest
use xray_checker_tg_bot.Base.{
  Text, codes, ℕ, ◌+◌, ◌-◌, ◌*◌, ◌^◌, ℤ, pos, negsuc, sub_time, ltz, Bool, true, false, ◌||◌, ◌&&◌,
  not, Option, none, some, is_some, List, [], ◌∷◌, ◌++◌, map, eqt, contains, ltb, leb, ◌==◌,
  if◌then◌else◌,
}
use xray_checker_tg_bot.Base.Dict.{Dict, lookup, insert, erase}
use xray_checker_tg_bot.Checker.Types.{ProxyMetric}
use xray_checker_tg_bot.Checker.Runtime.{is_positive}
use xray_checker_tg_bot.Checker.Taxonomy.{category_of, format_soft_hint, is_udp_proto}
use xray_checker_tg_bot.Telegram.Targets.{ChatTarget}
use xray_checker_tg_bot.Telegram.Tracker.{ActiveAlert, Alerts, resolve}
use xray_checker_tg_bot.Telegram.Quiet.{QuietConfig, Clock, is_quiet_time}
use xray_checker_tg_bot.Telegram.Stats.{
  StatsStore, record_check, record_initial_down, sync_online_state, record_transition,
  get_flap_count_24h, prune_inactive,
}

pub data EventType : Type 0 where
  down up : EventType

-- BufferedEvent
pub record BufferedEvent : Type 0 where
  pub timestamp : ℕ
  pub type : EventType
  pub proxy_name : Text
  pub reason : Text
  pub latency_ms : ℕ
  pub downtime : ℤ

-- A moment: what the clock shows, nanoseconds since Go's zero time, and Unix seconds.
pub record Moment : Type 0 where
  pub clock : Clock
  pub nanos : ℕ
  pub seconds : ℕ

-- What the bot is set up with: its chats, the fields of BotConfig that ProcessSnapshot reads,
-- notifyOnRecovery, and whether there is an API client.
pub record Setup : Type 0 where
  pub targets : List ChatTarget
  pub quiet : QuietConfig
  pub node_proxy_alerts_chat : Bool
  pub alert_mode : Text
  pub notify_on_recovery : Bool
  pub has_api : Bool

-- The state of Bot that ProcessSnapshot reads and writes.
pub record Bot : Type 0 where
  pub seeded : Bool
  pub last_seen : Dict Bool
  pub last_flap_alert : Dict ℕ
  pub stats_store : Option StatsStore
  pub alerts : Alerts
  pub event_buffer : List BufferedEvent

-- The texts that are sent, by what they show.
pub data Message : Type 0 where
  outage : ProxyMetric → Text → ℕ → Option ℕ → Message
  recovered : ProxyMetric → Option ℤ → Message
  live : ProxyMetric → ℤ → Message

-- The calls of the Telegram API; `delete_later` is the timer of two minutes.
pub data Call : Type 0 where
  send_message : ChatTarget → Message → Call
  delete_message : ℤ → ℤ → Call
  edit_message : ℤ → ℤ → Message → Call
  delete_later : ℤ → ℤ → Call

-- recoveryAction; its hadAlert is whether `alert` is there
pub record RecoveryAction : Type 0 where
  pub target : ChatTarget
  pub pm : ProxyMetric
  pub alert : Option ActiveAlert
  pub downtime : ℤ

-- The variables of the locked part: the bot, seenNow, the lists of actions, and the calls made
-- on the way.
pub record Round : Type 0 where
  pub bot : Bot
  pub seen : List Text
  pub deletions : List (ℤ × ℤ)
  pub outages : List ProxyMetric
  pub recoveries : List RecoveryAction
  pub calls : List Call

-- pName
unfoldable pub display_name : ProxyMetric → Text
display_name pm =
    if eqt pm.node_name [] then pm.name else codes "[" ++ pm.node_name ++ codes "] " ++ pm.name

abbrev pub with_stats : (StatsStore → StatsStore) → Option StatsStore → Option StatsStore
with_stats f none = none
with_stats f (some ss) = some (f ss)

-- Resolve for every chat: the alerts that stay, and what each chat had
unfoldable pub resolve_all :
    List ChatTarget → Text → Alerts → Alerts × List (ChatTarget × Option ActiveAlert)
unfolding resolve
resolve_all [] id alerts = (alerts, [])
resolve_all (t ∷ targets) id alerts =
    let (alerts', found) = resolve t.chat_id t.thread_id id alerts in
    let (rest, more) = resolve_all targets id alerts' in (rest, (t, found) ∷ more)

-- the body of the loop of the first snapshot
unfoldable pub seed_one : Setup → Moment → ProxyMetric → Bot → Bot
unfolding display_name resolve_all
seed_one s now pm b =
    if pm.disabled
    then b
    else let name = display_name pm in
      record b {
        last_seen = insert pm.stable_id pm.online b.last_seen;
        stats_store =
            with_stats
              (λ ss.
                let checked =
                  record_check now.seconds pm.stable_id name pm.online pm.latency_ms ss in
                if pm.online
                then sync_online_state pm.stable_id now.seconds checked
                else record_initial_down pm.stable_id name now.seconds checked)
              b.stats_store;
        alerts = if pm.online then (resolve_all s.targets pm.stable_id b.alerts).0 else b.alerts;
      }

unfoldable pub seed_all : Setup → Moment → List ProxyMetric → Bot → Bot
seed_all s now [] b = record b { seeded = true }
seed_all s now (pm ∷ snapshot) b = seed_all s now snapshot (seed_one s now pm b)

module _ (to_lower : Text → Text) where
  -- determineFailureReason
  unfoldable pub determine_failure_reason : ProxyMetric → Text
  determine_failure_reason pm =
      if not (eqt pm.last_error_msg [])
      then pm.last_error_msg
      else if is_positive pm.last_error_category
      then format_soft_hint (category_of pm.last_error_category) (is_udp_proto to_lower pm.protocol)
      else codes "Offline"
