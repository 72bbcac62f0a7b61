-- ===== src/Telegram/Alerts/Observe.antt =====
-- telegram/alerts.go: the part of ProcessSnapshot that holds the lock, from the second snapshot on.
use xray_checker_tg_bot.Base.{
  Text, codes, ℕ, ◌*◌, ◌^◌, ℤ, pos, sub_time, ltz, Bool, true, false, ◌&&◌, not, Option, none, some,
  List, [], ◌∷◌, ◌++◌, eqt, contains, ltb, ◌==◌, if◌then◌else◌,
}
use xray_checker_tg_bot.Base.Dict.{Dict, lookup, insert, erase}
use xray_checker_tg_bot.Checker.Types.{ProxyMetric}
use xray_checker_tg_bot.Telegram.Targets.{ChatTarget}
use xray_checker_tg_bot.Telegram.Tracker.{ActiveAlert}
use xray_checker_tg_bot.Telegram.Quiet.{is_quiet_time}
use xray_checker_tg_bot.Telegram.Stats.{
  StatsStore, record_check, record_transition, get_flap_count_24h, prune_inactive,
}
use xray_checker_tg_bot.Telegram.Alerts.{
  BufferedEvent, down, up, Moment, Setup, Bot, live, Call, delete_message, edit_message,
  RecoveryAction, Round, display_name, with_stats, resolve_all, determine_failure_reason,
}

-- the deletions for the alerts that were found
unfoldable pub deletions_of : List (ChatTarget × Option ActiveAlert) → List (ℤ × ℤ)
deletions_of [] = []
deletions_of ((t, none) ∷ found) = deletions_of found
deletions_of ((t, some a) ∷ found) = (t.chat_id, a.message_id) ∷ deletions_of found

-- the branch of a disabled proxy
unfoldable pub observe_disabled : Setup → ProxyMetric → Round → Round
unfolding deletions_of
observe_disabled s pm r =
    let (alerts, found) = resolve_all s.targets pm.stable_id r.bot.alerts in
    record r {
      bot = record r.bot { alerts = alerts; last_seen = erase pm.stable_id r.bot.last_seen };
      deletions = r.deletions ++ deletions_of found;
    }

-- `flaps > 10` and an alert less than 15 minutes ago
unfoldable pub is_flapping : Moment → Text → Option StatsStore → Bool
is_flapping now id none = false
is_flapping now id (some ss) = ltb 10 (get_flap_count_24h id now.seconds ss)

unfoldable pub is_recent : Moment → Option ℕ → Bool
is_recent now none = false
is_recent now (some last) =
    not (last == 0) && ltz (sub_time now.nanos last) (pos (15 * 60 * 10 ^ 9))

-- an outage outside the quiet hours
unfoldable pub observe_outage : Moment → ProxyMetric → Round → Round
unfolding is_flapping is_recent
observe_outage now pm r =
    if is_flapping now pm.stable_id r.bot.stats_store
    then (if is_recent now (lookup pm.stable_id r.bot.last_flap_alert) then r else record r {
      bot = record r.bot { last_flap_alert = insert pm.stable_id now.nanos r.bot.last_flap_alert };
      outages = r.outages ++ (pm ∷ []);
    })
    else record r { outages = r.outages ++ (pm ∷ []) }

abbrev pub add_event : BufferedEvent → Bot → Bot
add_event e b = record b { event_buffer = b.event_buffer ++ (e ∷ []) }

-- Drain: the buffered events, and the bot without them
unfoldable pub drain : Bot → List BufferedEvent × Bot
drain b = (b.event_buffer, record b { event_buffer = [] })

-- the downtime that an alert tells, or the one known so far
unfoldable pub downtime_of : Moment → ℤ → Option ActiveAlert → ℤ
downtime_of now d none = d
downtime_of now d (some a) = if a.down_at == 0 then d else sub_time now.nanos a.down_at

-- the recoveries, chat by chat: a downtime goes on to the chats that follow
unfoldable pub recoveries_of :
    Moment → ProxyMetric → ℤ → List (ChatTarget × Option ActiveAlert) → List RecoveryAction
unfolding downtime_of
recoveries_of now pm d [] = []
recoveries_of now pm d ((t, alert) ∷ found) =
    let d' = downtime_of now d alert in
    record { target = t; pm = pm; alert = alert; downtime = d' } ∷ recoveries_of now pm d' found

-- the call for an alert during the quiet hours
unfoldable pub quiet_calls : Setup → ProxyMetric → ℤ → ChatTarget → ActiveAlert → List Call
quiet_calls s pm d t a =
    if not s.has_api
    then []
    else if eqt s.alert_mode (codes "clean")
    then delete_message t.chat_id a.message_id ∷ []
    else if eqt s.alert_mode (codes "live")
    then edit_message t.chat_id a.message_id (live pm d) ∷ []
    else []

-- the loop over the chats during the quiet hours: the calls, and the downtime at its end
unfoldable pub quiet_recovery :
    Setup → Moment → ProxyMetric → ℤ → List (ChatTarget × Option ActiveAlert) → List Call × ℤ
unfolding downtime_of quiet_calls
quiet_recovery s now pm d [] = ([], d)
quiet_recovery s now pm d ((t, none) ∷ found) = quiet_recovery s now pm d found
quiet_recovery s now pm d ((t, some a) ∷ found) =
    let d' = downtime_of now d (some a) in
    let (calls, last) = quiet_recovery s now pm d' found in (quiet_calls s pm d' t a ++ calls, last)

-- RecordTransition of a recovery, with its downtime in nanoseconds, 0 without statistics
unfoldable pub stats_up : Text → Text → ℕ → Option StatsStore → Option StatsStore × ℤ
stats_up id name t none = (none, pos 0)
stats_up id name t (some ss) =
    let (ss', d) = record_transition id name true [] t ss in (some ss', pos (d * 10 ^ 9))

-- the case `!prev && pm.Online`
unfoldable pub observe_up : Setup → Moment → Bool → Bool → ProxyMetric → Round → Round
unfolding stats_up quiet_recovery recoveries_of
observe_up s now is_quiet skip pm r =
    let name = display_name pm in
    let (stats, d) = stats_up pm.stable_id name now.seconds r.bot.stats_store in
    let (alerts, found) = resolve_all s.targets pm.stable_id r.bot.alerts in
    let b = record r.bot { stats_store = stats; alerts = alerts } in
    if skip
    then record r { bot = b }
    else if is_quiet
    then (let (calls, last) = quiet_recovery s now pm d found in
        record r {
          bot =
              add_event
                (record {
                  timestamp = now.nanos;
                  type = up;
                  proxy_name = name;
                  reason = [];
                  latency_ms = pm.latency_ms;
                  downtime = last;
                })
                b;
          calls = r.calls ++ calls;
        })
    else record r { bot = b; recoveries = r.recoveries ++ recoveries_of now pm d found }

-- the loop that drops the proxies that were not seen: lastSeen, and lastFlapAlert
unfoldable pub keep_seen : List Text → Dict Bool → Dict Bool
keep_seen seen [] = []
keep_seen seen ((id, b) ∷ m) =
    let rest = keep_seen seen m in if contains id seen then (id, b) ∷ rest else rest

unfoldable pub keep_flaps : List Text → Dict Bool → Dict ℕ → Dict ℕ
keep_flaps seen [] flaps = flaps
keep_flaps seen ((id, b) ∷ m) flaps =
    keep_flaps seen m (if contains id seen then flaps else erase id flaps)

unfoldable pub drop_removed : List Text → Bot → Bot
unfolding keep_flaps
drop_removed seen b = record b {
  last_seen = keep_seen seen b.last_seen;
  last_flap_alert = keep_flaps seen b.last_seen b.last_flap_alert;
  stats_store = with_stats (prune_inactive seen) b.stats_store;
}

-- RecordCheck, lastSeen and seenNow of an enabled proxy
unfoldable pub noted : Moment → ProxyMetric → Round → Round
noted now pm r = record r {
  bot = record r.bot {
    last_seen = insert pm.stable_id pm.online r.bot.last_seen;
    stats_store =
        with_stats (record_check now.seconds pm.stable_id (display_name pm) pm.online pm.latency_ms)
          r.bot.stats_store;
  };
  seen = pm.stable_id ∷ r.seen;
}

-- the variables at the start
abbrev pub start : Bot → Round
start b = record { bot = b; seen = []; deletions = []; outages = []; recoveries = []; calls = [] }

module _ (to_lower : Text → Text) where
  -- the case `prev && !pm.Online`
  unfoldable pub observe_down : Moment → Bool → Bool → ProxyMetric → Round → Round
  unfolding observe_outage
  observe_down now is_quiet skip pm r =
      let name = display_name pm in
      let reason = determine_failure_reason to_lower pm in
      let b = record r.bot {
        stats_store =
            with_stats (λ ss. (record_transition pm.stable_id name false reason now.seconds ss).0)
              r.bot.stats_store;
      } in
      if skip
      then record r { bot = b }
      else if is_quiet
      then record r {
        bot =
            add_event
              (record {
                timestamp = now.nanos;
                type = down;
                proxy_name = name;
                reason = reason;
                latency_ms = 0;
                downtime = pos 0;
              })
              b;
      }
      else observe_outage now pm (record r { bot = b })

  -- the switch, by the state before, if it was known, and the state now
  unfoldable pub observe_change : Setup → Moment → Bool → Option Bool → ProxyMetric → Round → Round
  observe_change s now is_quiet none pm r = r
  observe_change s now is_quiet (some prev) pm r =
      let skip = not (eqt pm.node_name []) && not s.node_proxy_alerts_chat in
      if prev && not pm.online
      then observe_down now is_quiet skip pm r
      else if not prev && pm.online
      then observe_up s now is_quiet skip pm r
      else r

  -- the body of the loop over the snapshot
  unfoldable pub observe : Setup → Moment → Bool → ProxyMetric → Round → Round
  observe s now is_quiet pm r =
      if pm.disabled
      then observe_disabled s pm r
      else observe_change s now is_quiet (lookup pm.stable_id r.bot.last_seen) pm (noted now pm r)

  unfoldable pub observe_all : Setup → Moment → Bool → List ProxyMetric → Round → Round
  observe_all s now is_quiet [] r = r
  observe_all s now is_quiet (pm ∷ snapshot) r =
      observe_all s now is_quiet snapshot (observe s now is_quiet pm r)

  -- The locked part of a snapshot.
  unfoldable pub locked : Setup → Moment → List ProxyMetric → Bot → Round
  locked s now snapshot b =
      let r = observe_all s now (is_quiet_time now.clock s.quiet) snapshot (start b) in
      record r { bot = drop_removed r.seen r.bot }
