-- ===== src/Telegram/Tracker/Laws.antt =====
-- Alerts by chat, topic and proxy.
use xray_checker_tg_bot.Base.{
  Text, ℤ, false, none, some, ◌≡◌, ◌≢◌, arith, eqt_iff, print_int, print_int-injective,
}
use xray_checker_tg_bot.Base.Dict.{lookup, insert}
use xray_checker_tg_bot.Base.Dict.Laws.{
  lookup-insert, lookup-insert_self, lookup-erase, lookup-erase_self,
}
use xray_checker_tg_bot.Telegram.Targets.Accepted.{colon_splits, no_colon}
use xray_checker_tg_bot.Telegram.Tracker.{ActiveAlert, Alerts, alert_key, has_alert, track, resolve}

-- The key tells chats, topics and proxies apart, whatever characters the proxy's identity holds.
pub alert_key-injective :
    (c d t u : ℤ) (s s' : Text) → alert_key c t s ≡ alert_key d u s' → (c ≡ d) × (t ≡ u) × (s ≡ s')
unfolding alert_key
alert_key-injective c d t u s s' e =
    let outer = colon_splits (print_int c) (print_int d) _ _ (no_colon c) (no_colon d) e in
    let inner = colon_splits (print_int t) (print_int u) s s' (no_colon t) (no_colon u) outer.1 in
    (print_int-injective c d outer.0, print_int-injective t u inner.0, inner.1)

-- An alert that was tracked is the one that is resolved. After that there is none for its chat,
-- topic and proxy, and a second Resolve finds nothing.
pub resolve-track :
    (a : ActiveAlert) (alerts : Alerts)
    → (let after = resolve a.chat_id a.thread_id a.stable_id (track a alerts) in
        (after.1 ≡ some a)
        × (has_alert a.chat_id a.thread_id a.stable_id after.0 ≡ false)
        × (resolve a.chat_id a.thread_id a.stable_id after.0 ≡ (after.0, none)))
unfolding resolve track has_alert
resolve-track a alerts =
    let key = alert_key a.chat_id a.thread_id a.stable_id in
    let there = lookup-insert_self key a alerts in
    let gone = lookup-erase_self key (insert key a alerts) in
    (ground (arith, there), ground (arith, there, gone), ground (arith, there, gone))

-- Neither Track nor Resolve touches the alerts of another chat, topic or proxy.
pub alerts_apart :
    (a : ActiveAlert) (c t : ℤ) (s : Text) (alerts : Alerts)
    → ¬ ((a.chat_id ≡ c) × (a.thread_id ≡ t) × (a.stable_id ≡ s))
    → (lookup (alert_key c t s) (track a alerts) ≡ lookup (alert_key c t s) alerts)
      × (lookup (alert_key c t s) (resolve a.chat_id a.thread_id a.stable_id alerts).0
          ≡ lookup (alert_key c t s) alerts)
unfolding track resolve
alerts_apart a c t s alerts ne =
    let key = alert_key a.chat_id a.thread_id a.stable_id in
    let other = alert_key c t s in
    let apart : key ≢ other =
      λ e. ne (alert_key-injective a.chat_id c a.thread_id t a.stable_id s e) in
    (
      ground (arith, apart, lookup-insert key other a alerts, eqt_iff key other),
      ground (arith, apart, lookup-erase key other alerts, eqt_iff key other),
    )
