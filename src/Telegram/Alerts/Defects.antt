-- ===== src/Telegram/Alerts/Defects.antt =====
-- An alert that outlives its proxy.
use xray_checker_tg_bot.Base.{Text, ℤ, true, false, Option, none, [], ◌∷◌, ◌≡◌, arith}
use xray_checker_tg_bot.Base.Dict.{lookup}
use xray_checker_tg_bot.Checker.Types.{ProxyMetric}
use xray_checker_tg_bot.Telegram.Targets.{ChatTarget}
use xray_checker_tg_bot.Telegram.Alerts.{Moment, Setup, Bot, Message}
use xray_checker_tg_bot.Telegram.Alerts.Observe.{
  observe, observe_all, observe_change, noted, drop_removed, locked,
}
use xray_checker_tg_bot.Telegram.Alerts.Delivery.{
  deletion_calls, deliver_outages, all_recoveries, process_snapshot,
}

module _ (to_lower : Text → Text) (send : ChatTarget → Message → Option ℤ) where
  -- When a proxy that the bot does not remember appears alone in a snapshot, enabled, every alert
  -- stays and nothing is sent, even if the proxy is online and an alert says that it is down: a proxy
  -- that was down when it left the subscription keeps its alert when it comes back online.
  pub unknown_proxy_keeps_alert :
      (s : Setup) (now : Moment) (pm : ProxyMetric) (b : Bot)
      → b.seeded ≡ true
      → pm.disabled ≡ false
      → lookup pm.stable_id b.last_seen ≡ none
      → (let after = process_snapshot to_lower send s now (pm ∷ []) b in
          (after.0.alerts ≡ b.alerts) × (after.1 ≡ []))
  unfolding process_snapshot locked drop_removed observe_all observe observe_change noted
      deliver_outages all_recoveries deletion_calls
  unknown_proxy_keeps_alert s now pm b seeded enabled new = (ground arith, ground arith)
