-- ===== src/Telegram/Alerts/Delivery.antt =====
-- telegram/alerts.go: the part of ProcessSnapshot after the lock is released, and the whole of it.
-- `send` is the Telegram API: the number of the message that was sent, or none for an error. The
-- model is of one snapshot at a time: no other goroutine writes the bot while messages are sent.
use xray_checker_tg_bot.Base.{
  Text, codes, ℕ, ℤ, pos, ltz, Bool, false, not, Option, none, some, List, [], ◌∷◌, ◌++◌, eqt, ltb,
  if◌then◌else◌,
}
use xray_checker_tg_bot.Base.Dict.{lookup}
use xray_checker_tg_bot.Checker.Types.{ProxyMetric}
use xray_checker_tg_bot.Checker.Runtime.{is_positive}
use xray_checker_tg_bot.Checker.Taxonomy.{category_of, format_soft_hint, is_udp_proto}
use xray_checker_tg_bot.Telegram.Targets.{ChatTarget, is_zero}
use xray_checker_tg_bot.Telegram.Tracker.{ActiveAlert, has_alert, track}
use xray_checker_tg_bot.Telegram.Stats.{StatsStore, get_drop_count, get_flap_count_24h}
use xray_checker_tg_bot.Telegram.Alerts.{
  Moment, Setup, Bot, Message, outage, recovered, live, Call, send_message, delete_message,
  edit_message, delete_later, RecoveryAction, determine_failure_reason, seed_all,
}
use xray_checker_tg_bot.Telegram.Alerts.Observe.{locked}

-- the deletions of the alerts of disabled proxies
unfoldable pub deletion_calls : Setup → List (ℤ × ℤ) → List Call
deletion_calls s [] = []
deletion_calls s ((chat, message) ∷ ds) =
    let rest = deletion_calls s ds in if s.has_api then delete_message chat message ∷ rest else rest

-- dropCount: 1 without statistics
unfoldable pub drops_of : Option StatsStore → Text → ℕ
drops_of none id = 1
drops_of (some ss) id = let drops = get_drop_count id ss in if ltb 0 drops then drops else 1

-- flapNote: the flaps, if there are more than 10
unfoldable pub flaps_of : Option StatsStore → ℕ → Text → Option ℕ
flaps_of none now id = none
flaps_of (some ss) now id =
    let flaps = get_flap_count_24h id now ss in if ltb 10 flaps then some flaps else none

module _ (to_lower : Text → Text) where
  -- the alert that Track writes
  unfoldable pub new_alert : Moment → ProxyMetric → ChatTarget → ℤ → ActiveAlert
  new_alert now pm t id = record {
    chat_id = t.chat_id;
    thread_id = t.thread_id;
    message_id = id;
    stable_id = pm.stable_id;
    proxy_name = pm.name;
    down_at = now.nanos;
    reason = determine_failure_reason to_lower pm;
  }

  -- outageText
  unfoldable pub outage_text : Moment → Bot → ProxyMetric → Message
  unfolding drops_of flaps_of
  outage_text now b pm =
      let hint =
        if is_positive pm.last_error_category
        then format_soft_hint (category_of pm.last_error_category)
            (is_udp_proto to_lower pm.protocol)
        else [] in
      outage pm hint (drops_of b.stats_store pm.stable_id)
        (flaps_of b.stats_store now.seconds pm.stable_id)

  module _ (send : ChatTarget → Message → Option ℤ) where
    -- sendAndReturn: the number of the message, 0 for an error or without a client
    unfoldable pub sent_id : Setup → ChatTarget → Message → ℤ
    sent_id s t m = if s.has_api then elim (send t m) [ none ↦ pos 0 | some id ↦ id ] else pos 0

    abbrev pub send_calls : Setup → ChatTarget → Message → List Call
    send_calls s t m = if s.has_api then send_message t m ∷ [] else []

    -- lastSeen[id] of a Go map
    abbrev pub is_online : Text → Bot → Bool
    is_online id b = elim (lookup id b.last_seen) [ none ↦ false | some online ↦ online ]

    -- an outage for one chat: the bot, and the calls
    unfoldable pub deliver_to :
        Setup → Moment → Message → ProxyMetric → ChatTarget → Bot → Bot × List Call
    unfolding new_alert
    deliver_to s now m pm t b =
        if has_alert t.chat_id t.thread_id pm.stable_id b.alerts
        then (b, [])
        else if is_zero (sent_id s t m)
        then (b, send_calls s t m)
        else if is_online pm.stable_id b
        then (b, send_calls s t m ++ (delete_message t.chat_id (sent_id s t m) ∷ []))
        else (
          record b { alerts = track (new_alert now pm t (sent_id s t m)) b.alerts },
          send_calls s t m,
        )

    unfoldable pub deliver_outage :
        Setup → Moment → Message → ProxyMetric → List ChatTarget → Bot → Bot × List Call
    deliver_outage s now m pm [] b = (b, [])
    deliver_outage s now m pm (t ∷ ts) b =
        let (b', calls) = deliver_to s now m pm t b in
        let (b'', more) = deliver_outage s now m pm ts b' in (b'', calls ++ more)

    unfoldable pub deliver_outages : Setup → Moment → List ProxyMetric → Bot → Bot × List Call
    deliver_outages s now [] b = (b, [])
    deliver_outages s now (pm ∷ pms) b =
        let (b', calls) = deliver_outage s now (outage_text now b pm) pm s.targets b in
        let (b'', more) = deliver_outages s now pms b' in (b'', calls ++ more)

    -- a recovery in the mode `clean`
    unfoldable pub clean_calls : Setup → RecoveryAction → ActiveAlert → List Call
    unfolding sent_id
    clean_calls s rec a =
        let m = recovered rec.pm (if ltz (pos 0) rec.downtime then some rec.downtime else none) in
        let removal =
          if s.has_api then delete_message rec.target.chat_id a.message_id ∷ [] else [] in
        let notice =
          if s.notify_on_recovery
          then send_calls s rec.target m
            ++ (if is_zero (sent_id s rec.target m)
                then []
                else delete_later rec.target.chat_id (sent_id s rec.target m) ∷ [])
          else [] in
        removal ++ notice

    -- a recovery in the other mode, `live`, of a chat that had an alert or not
    unfoldable pub live_calls : Setup → RecoveryAction → List Call
    live_calls s rec =
        let notice =
          if s.notify_on_recovery then send_calls s rec.target (recovered rec.pm none) else [] in
        elim rec.alert [
          | none ↦ notice
          | some a ↦
              if s.has_api
              then edit_message rec.target.chat_id a.message_id (live rec.pm rec.downtime) ∷ []
              else notice
        ]

    unfoldable pub recovery_calls : Setup → RecoveryAction → List Call
    unfolding clean_calls live_calls
    recovery_calls s rec =
        if eqt s.alert_mode (codes "clean")
        then elim rec.alert [ none ↦ [] | some a ↦ clean_calls s rec a ]
        else live_calls s rec

    unfoldable pub all_recoveries : Setup → List RecoveryAction → List Call
    all_recoveries s [] = []
    all_recoveries s (rec ∷ recs) = recovery_calls s rec ++ all_recoveries s recs

    -- ProcessSnapshot: the bot after it, and the calls that it makes, in their order
    unfoldable pub process_snapshot : Setup → Moment → List ProxyMetric → Bot → Bot × List Call
    process_snapshot s now snapshot b =
        if not b.seeded
        then (seed_all s now snapshot b, [])
        else let r = locked to_lower s now snapshot b in
          let (after, sent) = deliver_outages s now r.outages r.bot in
          (
            after,
            r.calls ++ (deletion_calls s r.deletions ++ (sent ++ all_recoveries s r.recoveries)),
          )
