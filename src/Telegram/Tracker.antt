-- ===== src/Telegram/Tracker.antt =====
-- telegram/alert_tracker.go: the alert messages of the proxies that are offline. Writing the file
-- never changes the result of an operation (its errors are dropped), and decoding it is
-- encoding/json's: `load` takes the decoded alerts. Times are nanoseconds since Go's zero time.
pub mod Laws
pub mod Downtime
pub mod Refine
use xray_checker_tg_bot.Base.{
  Text, ℕ, ◌-◌, ℤ, Bool, true, false, ◌||◌, ◌&&◌, Option, none, some, is_some, List, [], ◌∷◌, ◌++◌,
  eqt, print_int, ltb, ◌==◌, if◌then◌else◌,
}
use xray_checker_tg_bot.Base.Dict.{Dict, lookup, insert, erase}
use xray_checker_tg_bot.Telegram.Targets.{is_zero}

-- ActiveAlert
pub record ActiveAlert : Type 0 where
  pub chat_id : ℤ
  pub thread_id : ℤ
  pub message_id : ℤ
  pub stable_id : Text
  pub proxy_name : Text
  pub down_at : ℕ
  pub reason : Text

-- the alerts of AlertTracker
abbrev pub Alerts : Type 0
Alerts = Dict ActiveAlert

-- alertKey
unfoldable pub alert_key : ℤ → ℤ → Text → Text
alert_key chat_id thread_id stable_id =
    print_int chat_id ++ (b':' ∷ (print_int thread_id ++ (b':' ∷ stable_id)))

-- the loop of load: entries without a chat are dropped, the others get the key of their fields
unfoldable pub rekey : List ActiveAlert → Alerts → Alerts
rekey [] alerts = alerts
rekey (a ∷ loaded) alerts = rekey loaded (
    if is_zero a.chat_id
    then alerts
    else insert (alert_key a.chat_id a.thread_id a.stable_id) a alerts)

-- HasAlert
unfoldable pub has_alert : ℤ → ℤ → Text → Alerts → Bool
has_alert chat_id thread_id stable_id alerts =
    is_some (lookup (alert_key chat_id thread_id stable_id) alerts)

-- Track
unfoldable pub track : ActiveAlert → Alerts → Alerts
track a alerts = insert (alert_key a.chat_id a.thread_id a.stable_id) a alerts

-- Resolve: the alerts without the one of the key, and that one
unfoldable pub resolve : ℤ → ℤ → Text → Alerts → Alerts × Option ActiveAlert
resolve chat_id thread_id stable_id alerts =
    let key = alert_key chat_id thread_id stable_id in
    elim (lookup key alerts) [ none ↦ (alerts, none) | some a ↦ (erase key alerts, some a) ]

-- GetAlertsForProxy
unfoldable pub get_alerts_for_proxy : Text → Alerts → List ActiveAlert
get_alerts_for_proxy stable_id [] = []
get_alerts_for_proxy stable_id ((_, a) ∷ alerts) =
    let rest = get_alerts_for_proxy stable_id alerts in
    if eqt a.stable_id stable_id then a ∷ rest else rest

-- the body of the loop of GetDowntime; 0 is the zero time
unfoldable pub pick : Text → ℕ → ActiveAlert → ℕ
pick stable_id earliest a =
    if eqt a.stable_id stable_id && (earliest == 0 || ltb a.down_at earliest)
    then a.down_at
    else earliest

unfoldable pub earliest_from : Text → ℕ → Alerts → ℕ
unfolding pick
earliest_from stable_id earliest [] = earliest
earliest_from stable_id earliest ((_, a) ∷ alerts) =
    earliest_from stable_id (pick stable_id earliest a) alerts

-- GetDowntime: never negative
unfoldable pub get_downtime : Text → ℕ → Alerts → ℕ
unfolding earliest_from
get_downtime stable_id now alerts =
    let earliest = earliest_from stable_id 0 alerts in if earliest == 0 then 0 else now - earliest
