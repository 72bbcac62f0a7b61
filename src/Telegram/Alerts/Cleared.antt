-- ===== src/Telegram/Alerts/Cleared.antt =====
-- The alerts of the proxies that are online again.
use xray_checker_tg_bot.Base.{
  Text, ℤ, Bool, true, false, ◌||◌, Option, none, some, List, [], ◌∷◌, ◌≡◌, ◌≢◌, ◌⊎◌, arith, eqt,
  eqt_iff, All, All-imp, Bool-cases, inl, inr,
}
use xray_checker_tg_bot.Base.Dict.{lookup, insert}
use xray_checker_tg_bot.Base.Dict.Laws.{lookup-insert, lookup-erase, lookup-erase_self}
use xray_checker_tg_bot.Checker.Types.{ProxyMetric}
use xray_checker_tg_bot.Telegram.Targets.{ChatTarget, is_zero}
use xray_checker_tg_bot.Telegram.Tracker.{ActiveAlert, Alerts, alert_key, has_alert, track, resolve}
use xray_checker_tg_bot.Telegram.Tracker.Laws.{alert_key-injective}
use xray_checker_tg_bot.Telegram.Quiet.{is_quiet_time}
use xray_checker_tg_bot.Telegram.Alerts.{Moment, Setup, Bot, Message, Round, resolve_all}
use xray_checker_tg_bot.Telegram.Alerts.Observe.{observe, observe_all, start, drop_removed, locked}
use xray_checker_tg_bot.Telegram.Alerts.Keeps.{
  observe-last_seen, observe-alerts, deliver_outages-last_seen, deliver_outage-last_seen,
}
use xray_checker_tg_bot.Telegram.Alerts.Seen.{lookup-keep_seen}
use xray_checker_tg_bot.Telegram.Alerts.Delivery.{
  new_alert, outage_text, is_online, sent_id, deliver_to, deliver_outage, deliver_outages,
  process_snapshot,
}

-- Resolving only takes alerts away.
resolve-shrinks :
    (c t : ℤ) (id k : Text) (alerts : Alerts)
    → lookup k alerts ≡ none
    → lookup k (resolve c t id alerts).0 ≡ none
unfolding resolve
resolve-shrinks c t id k alerts h = ground (arith, lookup-erase (alert_key c t id) k alerts)

resolve-gone :
    (c t : ℤ) (id : Text) (alerts : Alerts)
    → lookup (alert_key c t id) (resolve c t id alerts).0 ≡ none
unfolding resolve
resolve-gone c t id alerts = ground (arith, lookup-erase_self (alert_key c t id) alerts)

resolve_all-shrinks :
    (ts : List ChatTarget) (id k : Text) (alerts : Alerts)
    → lookup k alerts ≡ none
    → lookup k (resolve_all ts id alerts).0 ≡ none
unfolding resolve_all
resolve_all-shrinks [] id k alerts h = h
resolve_all-shrinks (t ∷ ts) id k alerts h =
    resolve_all-shrinks ts id k (resolve t.chat_id t.thread_id id alerts).0
      (resolve-shrinks t.chat_id t.thread_id id k alerts h)

-- None of the chats has an alert of the proxy `j`.
abbrev pub NoAlert : Text → Alerts → List ChatTarget → Type 0
NoAlert j alerts = All (λ t. lookup (alert_key t.chat_id t.thread_id j) alerts ≡ none)

pub NoAlert-resolve_all :
    (ts : List ChatTarget) (id : Text) (alerts : Alerts)
    → NoAlert id (resolve_all ts id alerts).0 ts
unfolding resolve_all
NoAlert-resolve_all [] id alerts = tt
NoAlert-resolve_all (t ∷ ts) id alerts =
    let after = (resolve t.chat_id t.thread_id id alerts).0 in
    (
      resolve_all-shrinks ts id (alert_key t.chat_id t.thread_id id) after
          (resolve-gone t.chat_id t.thread_id id alerts),
      NoAlert-resolve_all ts id after,
    )

-- The bot knows that the proxy is offline, or no chat has an alert of it.
abbrev pub IsClear : List ChatTarget → Text → Bot → Type 0
IsClear ts j b = (lookup j b.last_seen ≡ some false) ⊎ NoAlert j b.alerts ts

module _ (to_lower : Text → Text) where
  pub observe-shrinks :
      (s : Setup) (now : Moment) (q : Bool) (k : Text) (pm : ProxyMetric) (r : Round)
      → lookup k r.bot.alerts ≡ none
      → lookup k (observe to_lower s now q pm r).bot.alerts ≡ none
  observe-shrinks s now q k pm r h =
      rw (observe-alerts to_lower s now q pm r) ground
        (arith, resolve_all-shrinks s.targets pm.stable_id k r.bot.alerts h)

  observe-IsClear :
      (s : Setup) (now : Moment) (q : Bool) (j : Text) (pm : ProxyMetric) (r : Round)
      → IsClear s.targets j r.bot
      → IsClear s.targets j (observe to_lower s now q pm r).bot
  observe-IsClear s now q j pm r h =
      let same = observe-last_seen to_lower s now q j pm r in
      elim h [
        | inr clear ↦ inr (
            All-imp s.targets
              (λ t h. observe-shrinks s now q (alert_key t.chat_id t.thread_id j) pm r h) clear)
        | inl offline ↦ elim (Bool-cases (eqt pm.stable_id j)) [
          | inr other ↦ inl (ground arith)
          | inl own ↦
              let id : pm.stable_id ≡ j = ground (arith, eqt_iff pm.stable_id j) in
              elim (Bool-cases (pm.disabled || pm.online)) [
                | inl gone ↦
                    let after : (observe to_lower s now q pm r).bot.alerts
                        ≡ (resolve_all s.targets j r.bot.alerts).0 =
                      ground (arith, observe-alerts to_lower s now q pm r) in
                    inr (rw after (NoAlert-resolve_all s.targets j r.bot.alerts))
                | inr down ↦ inl (ground arith)
              ]
        ]
      ]

  observe_all-IsClear :
      (s : Setup) (now : Moment) (q : Bool) (j : Text) (snapshot : List ProxyMetric) (r : Round)
      → IsClear s.targets j r.bot
      → IsClear s.targets j (observe_all to_lower s now q snapshot r).bot
  unfolding observe_all
  observe_all-IsClear s now q j [] r h = h
  observe_all-IsClear s now q j (pm ∷ snapshot) r h =
      observe_all-IsClear s now q j snapshot (observe to_lower s now q pm r)
        (observe-IsClear s now q j pm r h)

  locked-NoAlert :
      (s : Setup) (now : Moment) (j : Text) (snapshot : List ProxyMetric) (b : Bot)
      → IsClear s.targets j b
      → lookup j (locked to_lower s now snapshot b).bot.last_seen ≡ some true
      → NoAlert j (locked to_lower s now snapshot b).bot.alerts s.targets
  unfolding locked drop_removed
  locked-NoAlert s now j snapshot b h online =
      let r = observe_all to_lower s now (is_quiet_time now.clock s.quiet) snapshot (start b) in
      elim (observe_all-IsClear s now (is_quiet_time now.clock s.quiet) j snapshot (start b) h) [
        | inr clear ↦ clear
        | inl offline ↦ absurd (ground (arith, lookup-keep_seen j r.seen r.bot.last_seen))
      ]

  module _ (send : ChatTarget → Message → Option ℤ) where
    -- A chat gets at most one new alert, and none of a proxy that is online.
    pub deliver_to-alerts :
        (s : Setup) (now : Moment) (m : Message) (pm : ProxyMetric) (u : ChatTarget) (b : Bot)
        → ((deliver_to to_lower send s now m pm u b).0.alerts ≡ b.alerts)
          ⊎ ((a : ActiveAlert) × (is_online to_lower send pm.stable_id b ≡ false)
              × ((deliver_to to_lower send s now m pm u b).0.alerts
                  ≡ insert (alert_key u.chat_id u.thread_id pm.stable_id) a b.alerts))
    unfolding deliver_to track new_alert
    deliver_to-alerts s now m pm u b =
        elim (Bool-cases (has_alert u.chat_id u.thread_id pm.stable_id b.alerts)) [
          | inl there ↦ inl (ground arith)
          | inr fresh ↦ elim (Bool-cases (is_zero (sent_id to_lower send s u m))) [
            | inl failed ↦ inl (ground arith)
            | inr sent ↦ elim (Bool-cases (is_online to_lower send pm.stable_id b)) [
              | inl online ↦ inl (ground arith)
              | inr down ↦
                  inr
                    (new_alert to_lower now pm u (sent_id to_lower send s u m), down, ground arith)
            ]
          ]
        ]

    deliver_to-NoAlert :
        (s : Setup) (now : Moment) (m : Message) (pm : ProxyMetric) (u t : ChatTarget) (b : Bot)
        (j : Text)
        → lookup j b.last_seen ≡ some true
        → lookup (alert_key t.chat_id t.thread_id j) b.alerts ≡ none
        → lookup
            (alert_key t.chat_id t.thread_id j)
            (deliver_to to_lower send s now m pm u b).0.alerts
          ≡ none
    deliver_to-NoAlert s now m pm u t b j online h =
        let own = alert_key u.chat_id u.thread_id pm.stable_id in
        let key = alert_key t.chat_id t.thread_id j in
        elim (deliver_to-alerts s now m pm u b) [
          | inl same ↦ rw same h
          | inr (a, down, more) ↦
              let apart : own ≢ key = λ e.
                let (_, _, id) =
                  alert_key-injective u.chat_id t.chat_id u.thread_id t.thread_id pm.stable_id j
                    e in
                ground arith in
              ground (arith, lookup-insert own key a b.alerts, eqt_iff own key, apart)
        ]

    deliver_outage-NoAlert :
        (s : Setup) (now : Moment) (m : Message) (pm : ProxyMetric) (us : List ChatTarget)
        (t : ChatTarget) (b : Bot) (j : Text)
        → lookup j b.last_seen ≡ some true
        → lookup (alert_key t.chat_id t.thread_id j) b.alerts ≡ none
        → lookup
            (alert_key t.chat_id t.thread_id j)
            (deliver_outage to_lower send s now m pm us b).0.alerts
          ≡ none
    unfolding deliver_outage
    deliver_outage-NoAlert s now m pm [] t b j online h = h
    deliver_outage-NoAlert s now m pm (u ∷ us) t b j online h =
        let b' = (deliver_to to_lower send s now m pm u b).0 in
        deliver_outage-NoAlert s now m pm us t b' j
          (rw (deliver_outage-last_seen to_lower send s now m pm (u ∷ []) b) online)
          (deliver_to-NoAlert s now m pm u t b j online h)

    deliver_outages-NoAlert :
        (s : Setup) (now : Moment) (pms : List ProxyMetric) (t : ChatTarget) (b : Bot) (j : Text)
        → lookup j b.last_seen ≡ some true
        → lookup (alert_key t.chat_id t.thread_id j) b.alerts ≡ none
        → lookup
            (alert_key t.chat_id t.thread_id j)
            (deliver_outages to_lower send s now pms b).0.alerts
          ≡ none
    unfolding deliver_outages
    deliver_outages-NoAlert s now [] t b j online h = h
    deliver_outages-NoAlert s now (pm ∷ pms) t b j online h =
        let m = outage_text to_lower now b pm in
        let b' = (deliver_outage to_lower send s now m pm s.targets b).0 in
        deliver_outages-NoAlert s now pms t b' j
          (rw (deliver_outage-last_seen to_lower send s now m pm s.targets b) online)
          (deliver_outage-NoAlert s now m pm s.targets t b j online h)

    -- For a bot that has seen its first snapshot: if the bot knew that a proxy is offline, or no chat had an alert of it, then after the snapshot
    -- no chat has an alert of it while the bot takes it for online: recoveries take every alert away,
    -- and no outage is tracked for a proxy that is online.
    pub process_snapshot-NoAlert :
        (s : Setup) (now : Moment) (snapshot : List ProxyMetric) (b : Bot) (j : Text)
        → b.seeded ≡ true
        → IsClear s.targets j b
        → lookup j (process_snapshot to_lower send s now snapshot b).0.last_seen ≡ some true
        → NoAlert j (process_snapshot to_lower send s now snapshot b).0.alerts s.targets
    unfolding process_snapshot
    process_snapshot-NoAlert s now snapshot b j h clear online =
        let r = locked to_lower s now snapshot b in
        let same = deliver_outages-last_seen to_lower send s now r.outages r.bot in
        let goes : (process_snapshot to_lower send s now snapshot b).0
            ≡ (deliver_outages to_lower send s now r.outages r.bot).0 =
          ground arith in
        let known : lookup j r.bot.last_seen ≡ some true = ground arith in
        rw goes (
          All-imp s.targets
            (λ t none_there. deliver_outages-NoAlert s now r.outages t r.bot j known none_there)
            (locked-NoAlert s now j snapshot b clear known))
