-- ===== src/Telegram/Alerts/Keeps.antt =====
-- What one entry of a snapshot, and the messages of an outage, do to the state of the bot.
use xray_checker_tg_bot.Base.{
  Text, ℤ, Bool, false, ◌&&◌, ◌||◌, not, Option, none, some, List, [], ◌∷◌, ◌≡◌, refl, arith, eqt,
  contains, if◌then◌else◌,
}
use xray_checker_tg_bot.Base.Dict.{lookup}
use xray_checker_tg_bot.Base.Dict.Laws.{lookup-insert, lookup-erase}
use xray_checker_tg_bot.Checker.Types.{ProxyMetric}
use xray_checker_tg_bot.Telegram.Targets.{ChatTarget}
use xray_checker_tg_bot.Telegram.Alerts.{Moment, Setup, Bot, Message, Round, resolve_all}
use xray_checker_tg_bot.Telegram.Alerts.Observe.{
  observe_disabled, observe_outage, observe_up, observe_down, observe_change, observe, noted,
}
use xray_checker_tg_bot.Telegram.Alerts.Delivery.{
  outage_text, deliver_to, deliver_outage, deliver_outages,
}

-- What an entry of the snapshot says of its proxy: nothing if it is disabled.
abbrev pub told : ProxyMetric → Option Bool
told pm = if pm.disabled then none else some pm.online

-- Is the alert of the proxy taken away, by its entry and the state before?
abbrev pub is_cleared_by : ProxyMetric → Option Bool → Bool
is_cleared_by pm prev = pm.disabled || (pm.online && elim prev [ none ↦ false | some p ↦ not p ])

-- Does the entry show a proxy that was online and is not any more?
abbrev pub is_edge : ProxyMetric → Option Bool → Bool
is_edge pm prev = not pm.disabled && not pm.online && elim prev [ none ↦ false | some p ↦ p ]

module _ (to_lower : Text → Text) where
  observe_change-keeps :
      (s : Setup) (now : Moment) (q : Bool) (prev : Option Bool) (pm : ProxyMetric) (r : Round)
      → ((observe_change to_lower s now q prev pm r).bot.last_seen ≡ r.bot.last_seen)
        × ((observe_change to_lower s now q prev pm r).seen ≡ r.seen)
  unfolding observe_change observe_outage observe_up observe_down
  observe_change-keeps s now q none pm r = (refl, refl)
  observe_change-keeps s now q (some prev) pm r = (ground arith, ground arith)

  observe_change-alerts :
      (s : Setup) (now : Moment) (q : Bool) (prev : Option Bool) (pm : ProxyMetric) (r : Round)
      → (observe_change to_lower s now q prev pm r).bot.alerts ≡ (
          if pm.online && elim prev [ none ↦ false | some p ↦ not p ]
          then (resolve_all s.targets pm.stable_id r.bot.alerts).0
          else r.bot.alerts)
  unfolding observe_change observe_outage observe_up observe_down
  observe_change-alerts s now q none pm r = ground arith
  observe_change-alerts s now q (some prev) pm r = ground arith

  pub observe-last_seen :
      (s : Setup) (now : Moment) (q : Bool) (j : Text) (pm : ProxyMetric) (r : Round)
      → lookup j (observe to_lower s now q pm r).bot.last_seen
        ≡ (if eqt pm.stable_id j then told pm else lookup j r.bot.last_seen)
  unfolding observe observe_disabled noted
  observe-last_seen s now q j pm r =
      let after = noted now pm r in
      ground (
        arith,
        (observe_change-keeps s now q (lookup pm.stable_id r.bot.last_seen) pm after).0,
        lookup-insert pm.stable_id j pm.online r.bot.last_seen,
        lookup-erase pm.stable_id j r.bot.last_seen,
      )

  pub observe-seen :
      (s : Setup) (now : Moment) (q : Bool) (j : Text) (pm : ProxyMetric) (r : Round)
      → contains j (observe to_lower s now q pm r).seen
        ≡ ((eqt pm.stable_id j && not pm.disabled) || contains j r.seen)
  unfolding observe observe_disabled noted contains
  observe-seen s now q j pm r = ground (
    arith,
    (observe_change-keeps s now q (lookup pm.stable_id r.bot.last_seen) pm (noted now pm r)).1,
  )

  pub observe-alerts :
      (s : Setup) (now : Moment) (q : Bool) (pm : ProxyMetric) (r : Round)
      → (observe to_lower s now q pm r).bot.alerts ≡ (
          if is_cleared_by pm (lookup pm.stable_id r.bot.last_seen)
          then (resolve_all s.targets pm.stable_id r.bot.alerts).0
          else r.bot.alerts)
  unfolding observe observe_disabled noted
  observe-alerts s now q pm r = ground (
    arith,
    observe_change-alerts s now q (lookup pm.stable_id r.bot.last_seen) pm (noted now pm r),
  )

  module _ (send : ChatTarget → Message → Option ℤ) where
    pub deliver_outage-last_seen :
        (s : Setup) (now : Moment) (m : Message) (pm : ProxyMetric) (ts : List ChatTarget) (b : Bot)
        → (deliver_outage to_lower send s now m pm ts b).0.last_seen ≡ b.last_seen
    unfolding deliver_outage deliver_to
    deliver_outage-last_seen s now m pm [] b = refl
    deliver_outage-last_seen s now m pm (t ∷ ts) b =
        ground (
          arith,
          deliver_outage-last_seen s now m pm ts (deliver_to to_lower send s now m pm t b).0,
        )

    pub deliver_outages-last_seen :
        (s : Setup) (now : Moment) (pms : List ProxyMetric) (b : Bot)
        → (deliver_outages to_lower send s now pms b).0.last_seen ≡ b.last_seen
    unfolding deliver_outages
    deliver_outages-last_seen s now [] b = refl
    deliver_outages-last_seen s now (pm ∷ pms) b =
        let b' =
          (deliver_outage to_lower send s now (outage_text to_lower now b pm) pm s.targets b).0 in
        ground (
          arith,
          deliver_outages-last_seen s now pms b',
          deliver_outage-last_seen s now (outage_text to_lower now b pm) pm s.targets b,
        )
