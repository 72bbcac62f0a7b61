-- ===== src/Telegram/Alerts/Silent.antt =====
-- When the bot stays silent.
use xray_checker_tg_bot.Base.{
  Text, ℤ, Bool, true, false, ◌&&◌, not, Option, none, some, List, [], ◌∷◌, ◌++◌, ◌≡◌, ◌⊎◌, refl,
  arith, eqt, if◌then◌else◌, Bool-cases, inl, inr,
}
use xray_checker_tg_bot.Base.Dict.{lookup}
use xray_checker_tg_bot.Checker.Types.{ProxyMetric}
use xray_checker_tg_bot.Telegram.Targets.{ChatTarget}
use xray_checker_tg_bot.Telegram.Tracker.{ActiveAlert}
use xray_checker_tg_bot.Telegram.Quiet.{is_quiet_time}
use xray_checker_tg_bot.Telegram.Alerts.{
  Moment, Setup, Bot, Message, Round, Call, send_message, delete_message, edit_message,
  delete_later, resolve_all, display_name,
}
use xray_checker_tg_bot.Telegram.Alerts.Observe.{
  observe, observe_all, observe_change, observe_down, observe_up, observe_disabled, noted, start,
  stats_up, locked, quiet_calls, quiet_recovery, downtime_of,
}
use xray_checker_tg_bot.Telegram.Alerts.Delivery.{
  deletion_calls, deliver_outages, all_recoveries, process_snapshot,
}

-- A call that shows a new message to a chat.
abbrev pub is_send : Call → Bool
is_send (send_message t m) = true
is_send (delete_message c m) = false
is_send (edit_message c m t) = false
is_send (delete_later c m) = false

unfoldable pub is_silent : List Call → Bool
is_silent [] = true
is_silent (c ∷ calls) = not (is_send c) && is_silent calls

is_silent-append : (xs ys : List Call) → is_silent (xs ++ ys) ≡ (is_silent xs && is_silent ys)
unfolding is_silent
is_silent-append [] ys = refl
is_silent-append (x ∷ xs) ys = ground (arith, is_silent-append xs ys)

deletion_calls-IsSilent : (s : Setup) (ds : List (ℤ × ℤ)) → is_silent (deletion_calls s ds) ≡ true
unfolding deletion_calls is_silent
deletion_calls-IsSilent s [] = refl
deletion_calls-IsSilent s ((c, m) ∷ ds) = ground (arith, deletion_calls-IsSilent s ds)

quiet_calls-IsSilent :
    (s : Setup) (pm : ProxyMetric) (d : ℤ) (t : ChatTarget) (a : ActiveAlert)
    → is_silent (quiet_calls s pm d t a) ≡ true
unfolding quiet_calls is_silent
quiet_calls-IsSilent s pm d t a = ground arith

quiet_recovery-IsSilent :
    (s : Setup) (now : Moment) (pm : ProxyMetric) (d : ℤ)
    (found : List (ChatTarget × Option ActiveAlert))
    → is_silent (quiet_recovery s now pm d found).0 ≡ true
unfolding quiet_recovery is_silent
quiet_recovery-IsSilent s now pm d [] = refl
quiet_recovery-IsSilent s now pm d ((t, none) ∷ found) = quiet_recovery-IsSilent s now pm d found
quiet_recovery-IsSilent s now pm d ((t, some a) ∷ found) =
    let d' = downtime_of now d (some a) in
    ground (
      arith,
      is_silent-append (quiet_calls s pm d' t a) (quiet_recovery s now pm d' found).0,
      quiet_calls-IsSilent s pm d' t a,
      quiet_recovery-IsSilent s now pm d' found,
    )

unless {ℓ} : {A : Type ℓ} (b : Bool) (x y : A) → b ≡ true → (if not b then x else y) ≡ y
unless true x y h = refl
unless false x y h = absurd (ground arith)

-- Nothing is to be sent after the lock is released, and nothing was before.
abbrev pub IsHeld : Round → Type 0
IsHeld r = (r.outages ≡ []) × (r.recoveries ≡ []) × (is_silent r.calls ≡ true)

module _ (to_lower : Text → Text) where
  observe_up-IsHeld :
      (s : Setup) (now : Moment) (skip : Bool) (pm : ProxyMetric) (r : Round)
      → IsHeld r
      → IsHeld (observe_up s now true skip pm r)
  unfolding observe_up
  observe_up-IsHeld s now true pm r h = h
  observe_up-IsHeld s now false pm r (o, c, h) =
      let d = (stats_up pm.stable_id (display_name pm) now.seconds r.bot.stats_store).1 in
      let found = (resolve_all s.targets pm.stable_id r.bot.alerts).1 in
      (
        o,
        c,
        ground (
          arith,
          is_silent-append r.calls (quiet_recovery s now pm d found).0,
          quiet_recovery-IsSilent s now pm d found,
        ),
      )

  observe_change-IsHeld :
      (s : Setup) (now : Moment) (prev : Option Bool) (pm : ProxyMetric) (r : Round)
      → IsHeld r
      → IsHeld (observe_change to_lower s now true prev pm r)
  unfolding observe_change observe_down
  observe_change-IsHeld s now none pm r h = h
  observe_change-IsHeld s now (some prev) pm r h =
      let skip = not (eqt pm.node_name []) && not s.node_proxy_alerts_chat in
      let (o, c, l) = observe_up-IsHeld s now skip pm r h in
      (ground arith, ground arith, ground arith)

  observe-IsHeld :
      (s : Setup) (now : Moment) (pm : ProxyMetric) (r : Round)
      → IsHeld r
      → IsHeld (observe to_lower s now true pm r)
  unfolding observe observe_disabled noted
  observe-IsHeld s now pm r h =
      let (o, c, l) =
        observe_change-IsHeld s now (lookup pm.stable_id r.bot.last_seen) pm (noted now pm r) h in
      (ground arith, ground arith, ground arith)

  observe_all-IsHeld :
      (s : Setup) (now : Moment) (snapshot : List ProxyMetric) (r : Round)
      → IsHeld r
      → IsHeld (observe_all to_lower s now true snapshot r)
  unfolding observe_all
  observe_all-IsHeld s now [] r h = h
  observe_all-IsHeld s now (pm ∷ snapshot) r h =
      observe_all-IsHeld s now snapshot (observe to_lower s now true pm r)
        (observe-IsHeld s now pm r h)

  locked-IsHeld :
      (s : Setup) (now : Moment) (snapshot : List ProxyMetric) (b : Bot)
      → is_quiet_time now.clock s.quiet ≡ true
      → IsHeld (locked to_lower s now snapshot b)
  unfolding locked is_silent
  locked-IsHeld s now snapshot b quiet =
      rw (quiet, locked) (observe_all-IsHeld s now snapshot (start b) (refl, refl, refl))

  module _ (send : ChatTarget → Message → Option ℤ) where
    process_snapshot-first :
        (s : Setup) (now : Moment) (snapshot : List ProxyMetric) (b : Bot)
        → b.seeded ≡ false
        → is_silent (process_snapshot to_lower send s now snapshot b).1 ≡ true
    unfolding process_snapshot is_silent
    process_snapshot-first s now snapshot b first = ground arith

    process_snapshot-goes :
        (s : Setup) (now : Moment) (snapshot : List ProxyMetric) (b : Bot)
        → b.seeded ≡ true
        → (let r = locked to_lower s now snapshot b in
            let (after, sent) = deliver_outages to_lower send s now r.outages r.bot in
            process_snapshot to_lower send s now snapshot b ≡ (
              after,
              r.calls
                  ++ (deletion_calls s r.deletions
                      ++ (sent ++ all_recoveries to_lower send s r.recoveries)),
            ))
    unfolding process_snapshot
    process_snapshot-goes s now snapshot b seeded = unless b.seeded _ _ seeded

    -- In quiet hours, and with the first snapshot, ProcessSnapshot sends no message at all, with sound or
    -- without: it only deletes or edits those that are there.
    pub process_snapshot-IsSilent :
        (s : Setup) (now : Moment) (snapshot : List ProxyMetric) (b : Bot)
        → (is_quiet_time now.clock s.quiet ≡ true) ⊎ (b.seeded ≡ false)
        → is_silent (process_snapshot to_lower send s now snapshot b).1 ≡ true
    unfolding is_silent deliver_outages all_recoveries
    process_snapshot-IsSilent s now snapshot b (inr first) =
        process_snapshot-first s now snapshot b first
    process_snapshot-IsSilent s now snapshot b (inl quiet) =
        let r = locked to_lower s now snapshot b in
        let (o, c, l) = locked-IsHeld s now snapshot b quiet in
        let sent : (deliver_outages to_lower send s now r.outages r.bot).1 ≡ [] = rw o refl in
        let recoveries : all_recoveries to_lower send s r.recoveries ≡ [] = rw c refl in
        let deletions = deletion_calls s r.deletions in
        let rest =
          (deliver_outages to_lower send s now r.outages r.bot).1
          ++ all_recoveries to_lower send s r.recoveries in
        let nothing : rest ≡ [] = rw (sent, recoveries) refl in
        let quiet_deletions = deletion_calls-IsSilent s r.deletions in
        let all : is_silent (r.calls ++ (deletions ++ rest)) ≡ true =
          rw
            (
              is_silent-append r.calls (deletions ++ rest),
              is_silent-append deletions rest,
              l,
              quiet_deletions,
              nothing,
            )
            refl in
        elim (Bool-cases b.seeded) [
          | inr first ↦ process_snapshot-first s now snapshot b first
          | inl seeded ↦ rw (process_snapshot-goes s now snapshot b seeded) all
        ]
