-- ===== src/Telegram/Alerts/Withdrawn.antt =====
-- The alerts of the proxies that a snapshot shows only as disabled.
use xray_checker_tg_bot.Base.{
  Text, ℤ, Bool, true, false, ◌||◌, Option, List, [], ◌∷◌, ◌≡◌, ◌≢◌, ◌⊎◌, arith, eqt, eqt_iff, All,
  All-imp, All-append, Bool-cases, inl, inr,
}
use xray_checker_tg_bot.Base.Dict.Laws.{lookup-insert}
use xray_checker_tg_bot.Checker.Types.{ProxyMetric}
use xray_checker_tg_bot.Telegram.Targets.{ChatTarget}
use xray_checker_tg_bot.Telegram.Tracker.{alert_key}
use xray_checker_tg_bot.Telegram.Tracker.Laws.{alert_key-injective}
use xray_checker_tg_bot.Telegram.Quiet.{is_quiet_time}
use xray_checker_tg_bot.Telegram.Alerts.{Moment, Setup, Bot, Message, Round, resolve_all}
use xray_checker_tg_bot.Telegram.Alerts.Observe.{observe, observe_all, start, drop_removed, locked}
use xray_checker_tg_bot.Telegram.Alerts.Keeps.{observe-alerts}
use xray_checker_tg_bot.Telegram.Alerts.Seen.{is_told}
use xray_checker_tg_bot.Telegram.Alerts.Edges.{observe-outages}
use xray_checker_tg_bot.Telegram.Alerts.Cleared.{
  NoAlert, NoAlert-resolve_all, observe-shrinks, deliver_to-alerts,
}
use xray_checker_tg_bot.Telegram.Alerts.Delivery.{
  outage_text, deliver_to, deliver_outage, deliver_outages, process_snapshot,
}

-- Does the snapshot hold the proxy `j`?
unfoldable pub is_there : Text → List ProxyMetric → Bool
is_there j [] = false
is_there j (pm ∷ snapshot) = eqt pm.stable_id j || is_there j snapshot

-- None of the proxies is `j`.
abbrev pub AreOthers : Text → List ProxyMetric → Type 0
AreOthers j = All (λ pm. eqt pm.stable_id j ≡ false)

module _ (to_lower : Text → Text) where
  observe_all-NoAlert :
      (s : Setup) (now : Moment) (q : Bool) (j : Text) (snapshot : List ProxyMetric) (r : Round)
      → is_told j snapshot ≡ false
      → NoAlert j r.bot.alerts s.targets ⊎ (is_there j snapshot ≡ true)
      → NoAlert j (observe_all to_lower s now q snapshot r).bot.alerts s.targets
  unfolding observe_all is_told is_there
  observe_all-NoAlert s now q j [] r h (inl clear) = clear
  observe_all-NoAlert s now q j [] r h (inr there) = ground arith
  observe_all-NoAlert s now q j (pm ∷ snapshot) r h clear =
      let r' = observe to_lower s now q pm r in
      let rest = observe_all-NoAlert s now q j snapshot r' (ground arith) in
      elim (Bool-cases (eqt pm.stable_id j)) [
        | inl own ↦
            let id : pm.stable_id ≡ j = ground (arith, eqt_iff pm.stable_id j) in
            let after : r'.bot.alerts ≡ (resolve_all s.targets j r.bot.alerts).0 =
              ground (arith, observe-alerts to_lower s now q pm r) in
            rest (inl (rw after (NoAlert-resolve_all s.targets j r.bot.alerts)))
        | inr other ↦ elim clear [
          | inl none_there ↦ rest (
              inl (
                All-imp s.targets
                  (λ t gone.
                    observe-shrinks to_lower s now q (alert_key t.chat_id t.thread_id j) pm r gone)
                  none_there))
          | inr there ↦ rest (inr (ground arith))
        ]
      ]

  pub observe_all-AreOthers :
      (s : Setup) (now : Moment) (q : Bool) (j : Text) (snapshot : List ProxyMetric) (r : Round)
      → is_told j snapshot ≡ false
      → AreOthers j r.outages
      → AreOthers j (observe_all to_lower s now q snapshot r).outages
  unfolding observe_all is_told
  observe_all-AreOthers s now q j [] r h others = others
  observe_all-AreOthers s now q j (pm ∷ snapshot) r h others =
      let r' = observe to_lower s now q pm r in
      observe_all-AreOthers s now q j snapshot r' (ground arith)
        (elim (observe-outages to_lower s now q pm r) [
          | inl same ↦ rw same others
          | inr ((was, enabled, offline), more) ↦ rw more (
              All-append (λ p. eqt p.stable_id j ≡ false) r.outages (pm ∷ []) others
                (ground arith, tt))
        ])

  module _ (send : ChatTarget → Message → Option ℤ) where
    -- Telling the outage of another proxy makes no alert of `j`.
    deliver_outage-other :
        (s : Setup) (now : Moment) (m : Message) (pm : ProxyMetric) (us ts : List ChatTarget)
        (b : Bot) (j : Text)
        → eqt pm.stable_id j ≡ false
        → NoAlert j b.alerts ts
        → NoAlert j (deliver_outage to_lower send s now m pm us b).0.alerts ts
    unfolding deliver_outage
    deliver_outage-other s now m pm [] ts b j other h = h
    deliver_outage-other s now m pm (u ∷ us) ts b j other h =
        let b' = (deliver_to to_lower send s now m pm u b).0 in
        deliver_outage-other s now m pm us ts b' j other
          (elim (deliver_to-alerts to_lower send s now m pm u b) [
            | inl same ↦ rw same h
            | inr (a, down, more) ↦
                let own = alert_key u.chat_id u.thread_id pm.stable_id in
                rw more (
                  All-imp ts
                    (λ t gone.
                      let key = alert_key t.chat_id t.thread_id j in
                      let apart : own ≢ key = λ e.
                        let (_, _, id) =
                          alert_key-injective u.chat_id t.chat_id u.thread_id t.thread_id
                            pm.stable_id j e in
                        ground (arith, eqt_iff pm.stable_id j) in
                      ground (arith, lookup-insert own key a b.alerts, eqt_iff own key, apart))
                    h)
          ])

    deliver_outages-others :
        (s : Setup) (now : Moment) (pms : List ProxyMetric) (ts : List ChatTarget) (b : Bot)
        (j : Text)
        → AreOthers j pms
        → NoAlert j b.alerts ts
        → NoAlert j (deliver_outages to_lower send s now pms b).0.alerts ts
    unfolding deliver_outages
    deliver_outages-others s now [] ts b j others h = h
    deliver_outages-others s now (pm ∷ pms) ts b j others h =
        let m = outage_text to_lower now b pm in
        let b' = (deliver_outage to_lower send s now m pm s.targets b).0 in
        deliver_outages-others s now pms ts b' j others.1
          (deliver_outage-other s now m pm s.targets ts b j others.0 h)

    -- A proxy that a snapshot shows, but only as disabled, has no alert after it, whatever had been
    -- tracked.
    pub process_snapshot-withdrawn :
        (s : Setup) (now : Moment) (snapshot : List ProxyMetric) (b : Bot) (j : Text)
        → b.seeded ≡ true
        → is_there j snapshot ≡ true
        → is_told j snapshot ≡ false
        → NoAlert j (process_snapshot to_lower send s now snapshot b).0.alerts s.targets
    unfolding process_snapshot locked drop_removed
    process_snapshot-withdrawn s now snapshot b j h there off =
        let q = is_quiet_time now.clock s.quiet in
        let r = locked to_lower s now snapshot b in
        let goes : (process_snapshot to_lower send s now snapshot b).0
            ≡ (deliver_outages to_lower send s now r.outages r.bot).0 =
          ground arith in
        rw goes (
          deliver_outages-others s now r.outages s.targets r.bot j
            (observe_all-AreOthers s now q j snapshot (start b) off tt)
            (observe_all-NoAlert s now q j snapshot (start b) off (inr there)))
