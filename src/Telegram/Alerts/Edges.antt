-- ===== src/Telegram/Alerts/Edges.antt =====
-- Which outages are told.
use xray_checker_tg_bot.Base.{
  Text, Bool, true, false, ◌&&◌, not, Option, none, some, List, [], ◌∷◌, ◌++◌, map, ◌≡◌, ◌⊎◌, refl,
  arith, eqt, eqt_iff, All, contains, Distinct, Bool-cases, inl, inr,
}
use xray_checker_tg_bot.Base.Dict.{lookup}
use xray_checker_tg_bot.Checker.Types.{ProxyMetric}
use xray_checker_tg_bot.Telegram.Quiet.{is_quiet_time}
use xray_checker_tg_bot.Telegram.Alerts.{Moment, Setup, Bot, Round}
use xray_checker_tg_bot.Telegram.Alerts.Observe.{
  observe, observe_all, observe_change, observe_down, observe_up, observe_outage, observe_disabled,
  noted, start, locked,
}
use xray_checker_tg_bot.Telegram.Alerts.Keeps.{observe-last_seen}

-- The proxy was online, and the entry shows that it is enabled and offline.
abbrev pub IsOutage : Bot → ProxyMetric → Type 0
IsOutage b pm =
    (lookup pm.stable_id b.last_seen ≡ some true) × (pm.disabled ≡ false) × (pm.online ≡ false)

module _ (to_lower : Text → Text) where
  observe_outage-outages :
      (now : Moment) (pm : ProxyMetric) (r : Round)
      → ((observe_outage now pm r).outages ≡ r.outages)
        ⊎ ((observe_outage now pm r).outages ≡ r.outages ++ (pm ∷ []))
  unfolding observe_outage
  observe_outage-outages now pm r = ground arith

  observe_down-outages :
      (now : Moment) (q skip : Bool) (pm : ProxyMetric) (r : Round)
      → ((observe_down to_lower now q skip pm r).outages ≡ r.outages)
        ⊎ ((observe_down to_lower now q skip pm r).outages ≡ r.outages ++ (pm ∷ []))
  unfolding observe_down observe_outage
  observe_down-outages now q skip pm r = ground arith

  observe_change-outages :
      (s : Setup) (now : Moment) (q : Bool) (prev : Option Bool) (pm : ProxyMetric) (r : Round)
      → ((observe_change to_lower s now q prev pm r).outages ≡ r.outages)
        ⊎ ((prev ≡ some true)
            × (pm.online ≡ false)
            × ((observe_change to_lower s now q prev pm r).outages ≡ r.outages ++ (pm ∷ [])))
  unfolding observe_change observe_up
  observe_change-outages s now q none pm r = inl refl
  observe_change-outages s now q (some false) pm r = inl (ground arith)
  observe_change-outages s now q (some true) pm r =
      let skip = not (eqt pm.node_name []) && not s.node_proxy_alerts_chat in
      elim (Bool-cases pm.online) [
        | inl online ↦ inl (ground arith)
        | inr offline ↦ elim (observe_down-outages now q skip pm r) [
          | inl same ↦ inl (ground arith)
          | inr more ↦ inr (refl, offline, ground arith)
        ]
      ]

  pub observe-outages :
      (s : Setup) (now : Moment) (q : Bool) (pm : ProxyMetric) (r : Round)
      → ((observe to_lower s now q pm r).outages ≡ r.outages)
        ⊎ (IsOutage r.bot pm × ((observe to_lower s now q pm r).outages ≡ r.outages ++ (pm ∷ [])))
  unfolding observe observe_disabled noted
  observe-outages s now q pm r =
      let after = noted now pm r in
      elim (Bool-cases pm.disabled) [
        | inl disabled ↦ inl (ground arith)
        | inr enabled ↦
            elim (observe_change-outages s now q (lookup pm.stable_id r.bot.last_seen) pm after) [
              | inl same ↦ inl (ground arith)
              | inr (was, offline, more) ↦ inr ((was, enabled, offline), ground arith)
            ]
      ]

  -- The entries that are still to come are as at the start.
  abbrev pub AreFresh : Bot → Round → List ProxyMetric → Type 0
  AreFresh b r = All (λ pm. lookup pm.stable_id r.bot.last_seen ≡ lookup pm.stable_id b.last_seen)

  All-snoc :
      (b : Bot) (pm : ProxyMetric) (pms : List ProxyMetric)
      → All (IsOutage b) pms
      → IsOutage b pm
      → All (IsOutage b) (pms ++ (pm ∷ []))
  All-snoc b pm [] h k = (k, tt)
  All-snoc b pm (x ∷ pms) h k = (h.0, All-snoc b pm pms h.1 k)

  AreFresh-observe :
      (s : Setup) (now : Moment) (q : Bool) (b : Bot) (pm : ProxyMetric) (r : Round)
      (rest : List ProxyMetric)
      → contains pm.stable_id (map (λ p. p.stable_id) rest) ≡ false
      → AreFresh b r rest
      → AreFresh b (observe to_lower s now q pm r) rest
  unfolding contains
  AreFresh-observe s now q b pm r [] h fresh = tt
  AreFresh-observe s now q b pm r (x ∷ rest) h fresh = (
    ground (
      arith,
      observe-last_seen to_lower s now q x.stable_id pm r,
      eqt_iff pm.stable_id x.stable_id,
      eqt_iff x.stable_id pm.stable_id,
      fresh.0,
    ),
    AreFresh-observe s now q b pm r rest (ground arith) fresh.1,
  )

  observe_all-outages :
      (s : Setup) (now : Moment) (q : Bool) (b : Bot) (snapshot : List ProxyMetric) (r : Round)
      → Distinct (map (λ p. p.stable_id) snapshot)
      → AreFresh b r snapshot
      → All (IsOutage b) r.outages
      → All (IsOutage b) (observe_all to_lower s now q snapshot r).outages
  unfolding observe_all
  observe_all-outages s now q b [] r distinct fresh h = h
  observe_all-outages s now q b (pm ∷ snapshot) r distinct fresh h =
      observe_all-outages s now q b snapshot (observe to_lower s now q pm r) distinct.1
        (AreFresh-observe s now q b pm r snapshot distinct.0 fresh.1)
        (elim (observe-outages s now q pm r) [
          | inl same ↦ rw same h
          | inr ((was, enabled, offline), more) ↦
              rw more (All-snoc b pm r.outages h (ground (arith, fresh.0, was), enabled, offline))
        ])

  AreFresh-start : (b : Bot) (snapshot : List ProxyMetric) → AreFresh b (start b) snapshot
  AreFresh-start b [] = tt
  AreFresh-start b (pm ∷ snapshot) = (refl, AreFresh-start b snapshot)

  -- In a snapshot that names no proxy twice, every outage that is told is of a proxy that the bot took
  -- for online, and that the snapshot shows enabled and offline: never of a new proxy, of one that
  -- was offline already, or of a disabled one.
  pub locked-outages :
      (s : Setup) (now : Moment) (snapshot : List ProxyMetric) (b : Bot)
      → Distinct (map (λ p. p.stable_id) snapshot)
      → All (IsOutage b) (locked to_lower s now snapshot b).outages
  unfolding locked
  locked-outages s now snapshot b distinct =
      observe_all-outages s now (is_quiet_time now.clock s.quiet) b snapshot (start b) distinct
        (AreFresh-start b snapshot) tt
