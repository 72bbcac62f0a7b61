-- ===== src/Telegram/Alerts/Absent.antt =====
-- The alerts of the proxies that a snapshot does not show.
use xray_checker_tg_bot.Base.{
  Text, ℤ, Bool, true, false, Option, List, [], ◌∷◌, ◌≡◌, ◌≢◌, refl, ◌∙◌, ap, arith, eqt, eqt_iff,
  inl, inr,
}
use xray_checker_tg_bot.Base.Dict.{lookup}
use xray_checker_tg_bot.Base.Dict.Laws.{lookup-insert, lookup-erase}
use xray_checker_tg_bot.Checker.Types.{ProxyMetric}
use xray_checker_tg_bot.Telegram.Targets.{ChatTarget}
use xray_checker_tg_bot.Telegram.Tracker.{Alerts, alert_key, resolve}
use xray_checker_tg_bot.Telegram.Tracker.Laws.{alert_key-injective}
use xray_checker_tg_bot.Telegram.Quiet.{is_quiet_time}
use xray_checker_tg_bot.Telegram.Alerts.{Moment, Setup, Bot, Message, Round, resolve_all}
use xray_checker_tg_bot.Telegram.Alerts.Observe.{observe, observe_all, start, drop_removed, locked}
use xray_checker_tg_bot.Telegram.Alerts.Keeps.{observe-alerts}
use xray_checker_tg_bot.Telegram.Alerts.Seen.{is_told}
use xray_checker_tg_bot.Telegram.Alerts.Cleared.{deliver_to-alerts}
use xray_checker_tg_bot.Telegram.Alerts.Withdrawn.{is_there, AreOthers, observe_all-AreOthers}
use xray_checker_tg_bot.Telegram.Alerts.Delivery.{
  outage_text, deliver_to, deliver_outage, deliver_outages, process_snapshot,
}

-- The keys of two proxies are never the same.
keys_apart : (c d t u : ℤ) (id j : Text) → eqt id j ≡ false → alert_key c t id ≢ alert_key d u j
keys_apart c d t u id j other e =
    let (_, _, same) = alert_key-injective c d t u id j e in ground (arith, eqt_iff id j)

module _ (c t : ℤ) (j : Text) where
  -- Resolving the alerts of another proxy leaves those of `j`.
  resolve_all-other :
      (ts : List ChatTarget) (id : Text) (alerts : Alerts)
      → eqt id j ≡ false
      → lookup (alert_key c t j) (resolve_all ts id alerts).0 ≡ lookup (alert_key c t j) alerts
  unfolding resolve_all resolve
  resolve_all-other [] id alerts other = refl
  resolve_all-other (u ∷ us) id alerts other =
      let own = alert_key u.chat_id u.thread_id id in
      let key = alert_key c t j in
      let apart = keys_apart u.chat_id c u.thread_id t id j other in
      resolve_all-other us id (resolve u.chat_id u.thread_id id alerts).0 other
      ∙ ground (arith, lookup-erase own key alerts, eqt_iff own key, apart)

  module _ (to_lower : Text → Text) where
    observe_all-absent :
        (s : Setup) (now : Moment) (q : Bool) (snapshot : List ProxyMetric) (r : Round)
        → is_there j snapshot ≡ false
        → lookup (alert_key c t j) (observe_all to_lower s now q snapshot r).bot.alerts
          ≡ lookup (alert_key c t j) r.bot.alerts
    unfolding observe_all is_there
    observe_all-absent s now q [] r h = refl
    observe_all-absent s now q (pm ∷ snapshot) r h =
        let other : eqt pm.stable_id j ≡ false = ground arith in
        let same = ap (lookup (alert_key c t j)) (observe-alerts to_lower s now q pm r) in
        observe_all-absent s now q snapshot (observe to_lower s now q pm r) (ground arith)
        ∙ ground (arith, same, resolve_all-other s.targets pm.stable_id r.bot.alerts other)

    module _ (send : ChatTarget → Message → Option ℤ) where
      deliver_outage-absent :
          (s : Setup) (now : Moment) (m : Message) (pm : ProxyMetric) (us : List ChatTarget)
          (b : Bot)
          → eqt pm.stable_id j ≡ false
          → lookup (alert_key c t j) (deliver_outage to_lower send s now m pm us b).0.alerts
            ≡ lookup (alert_key c t j) b.alerts
      unfolding deliver_outage
      deliver_outage-absent s now m pm [] b other = refl
      deliver_outage-absent s now m pm (u ∷ us) b other =
          let own = alert_key u.chat_id u.thread_id pm.stable_id in
          let key = alert_key c t j in
          deliver_outage-absent s now m pm us (deliver_to to_lower send s now m pm u b).0 other
          ∙ elim (deliver_to-alerts to_lower send s now m pm u b) [
            | inl same ↦ ap (lookup key) same
            | inr (a, down, more) ↦
                let apart = keys_apart u.chat_id c u.thread_id t pm.stable_id j other in
                ap (lookup key) more
                ∙ ground (arith, lookup-insert own key a b.alerts, eqt_iff own key, apart)
          ]

      deliver_outages-absent :
          (s : Setup) (now : Moment) (pms : List ProxyMetric) (b : Bot)
          → AreOthers j pms
          → lookup (alert_key c t j) (deliver_outages to_lower send s now pms b).0.alerts
            ≡ lookup (alert_key c t j) b.alerts
      unfolding deliver_outages
      deliver_outages-absent s now [] b others = refl
      deliver_outages-absent s now (pm ∷ pms) b others =
          let m = outage_text to_lower now b pm in
          deliver_outages-absent s now pms (deliver_outage to_lower send s now m pm s.targets b).0
            others.1
          ∙ deliver_outage-absent s now m pm s.targets b others.0

      is_told_absent :
          (snapshot : List ProxyMetric) → is_there j snapshot ≡ false → is_told j snapshot ≡ false
      unfolding is_there is_told
      is_told_absent [] h = refl
      is_told_absent (pm ∷ snapshot) h = ground (arith, is_told_absent snapshot)

      -- A snapshot leaves the alerts of a proxy that it does not show as they are.
      pub process_snapshot-absent :
          (s : Setup) (now : Moment) (snapshot : List ProxyMetric) (b : Bot)
          → b.seeded ≡ true
          → is_there j snapshot ≡ false
          → lookup (alert_key c t j) (process_snapshot to_lower send s now snapshot b).0.alerts
            ≡ lookup (alert_key c t j) b.alerts
      unfolding process_snapshot locked drop_removed
      process_snapshot-absent s now snapshot b h absent =
          let q = is_quiet_time now.clock s.quiet in
          let r = locked to_lower s now snapshot b in
          let key = alert_key c t j in
          let goes : (process_snapshot to_lower send s now snapshot b).0
              ≡ (deliver_outages to_lower send s now r.outages r.bot).0 =
            ground arith in
          ap (λ a. lookup key a.alerts) goes
          ∙ deliver_outages-absent s now r.outages r.bot (
              observe_all-AreOthers to_lower s now q j snapshot (start b)
                (is_told_absent snapshot absent) tt)
          ∙ observe_all-absent s now q snapshot (start b) absent
