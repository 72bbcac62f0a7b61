-- ===== src/Telegram/Alerts/Seen.antt =====
-- What the bot remembers after a snapshot.
use xray_checker_tg_bot.Base.{
  Text, ℤ, Bool, true, false, ◌&&◌, ◌||◌, not, Option, none, List, [], ◌∷◌, ◌≡◌, refl, arith, eqt,
  eqt_iff, contains, if◌then◌else◌,
}
use xray_checker_tg_bot.Base.Dict.{Dict, lookup}
use xray_checker_tg_bot.Checker.Types.{ProxyMetric}
use xray_checker_tg_bot.Telegram.Targets.{ChatTarget}
use xray_checker_tg_bot.Telegram.Quiet.{is_quiet_time}
use xray_checker_tg_bot.Telegram.Alerts.{Moment, Setup, Bot, Message, Round}
use xray_checker_tg_bot.Telegram.Alerts.Observe.{
  observe, observe_all, keep_seen, start, drop_removed, locked,
}
use xray_checker_tg_bot.Telegram.Alerts.Keeps.{
  told, observe-last_seen, observe-seen, deliver_outages-last_seen,
}
use xray_checker_tg_bot.Telegram.Alerts.Delivery.{process_snapshot}

-- The last word of the snapshot on the proxy `j`, after `prev`.
unfoldable pub last_word : Text → Option Bool → List ProxyMetric → Option Bool
last_word j prev [] = prev
last_word j prev (pm ∷ snapshot) =
    last_word j (if eqt pm.stable_id j then told pm else prev) snapshot

unfoldable pub is_told : Text → List ProxyMetric → Bool
is_told j [] = false
is_told j (pm ∷ snapshot) = (eqt pm.stable_id j && not pm.disabled) || is_told j snapshot

pub last_word-is_told :
    (j : Text) (prev : Option Bool) (snapshot : List ProxyMetric)
    → (if is_told j snapshot then last_word j prev snapshot else none) ≡ last_word j none snapshot
unfolding last_word is_told
last_word-is_told j prev [] = refl
last_word-is_told j prev (pm ∷ snapshot) =
    ground (arith, last_word-is_told j none snapshot, last_word-is_told j prev snapshot)

pub lookup-keep_seen :
    (j : Text) (seen : List Text) (m : Dict Bool)
    → lookup j (keep_seen seen m) ≡ (if contains j seen then lookup j m else none)
unfolding lookup keep_seen
lookup-keep_seen j seen [] = ground arith
lookup-keep_seen j seen ((id, b) ∷ m) = ground (arith, lookup-keep_seen j seen m, eqt_iff id j)

module _ (to_lower : Text → Text) where
  observe_all-last_seen :
      (s : Setup) (now : Moment) (q : Bool) (j : Text) (snapshot : List ProxyMetric) (r : Round)
      → lookup j (observe_all to_lower s now q snapshot r).bot.last_seen
        ≡ last_word j (lookup j r.bot.last_seen) snapshot
  unfolding observe_all last_word
  observe_all-last_seen s now q j [] r = refl
  observe_all-last_seen s now q j (pm ∷ snapshot) r =
      rw
        (
          observe_all-last_seen s now q j snapshot (observe to_lower s now q pm r),
          observe-last_seen to_lower s now q j pm r,
        )
        refl

  observe_all-seen :
      (s : Setup) (now : Moment) (q : Bool) (j : Text) (snapshot : List ProxyMetric) (r : Round)
      → contains j (observe_all to_lower s now q snapshot r).seen
        ≡ (contains j r.seen || is_told j snapshot)
  unfolding observe_all is_told
  observe_all-seen s now q j [] r = ground arith
  observe_all-seen s now q j (pm ∷ snapshot) r = ground (
    arith,
    observe_all-seen s now q j snapshot (observe to_lower s now q pm r),
    observe-seen to_lower s now q j pm r,
  )

  locked-last_seen :
      (s : Setup) (now : Moment) (snapshot : List ProxyMetric) (b : Bot) (j : Text)
      → lookup j (locked to_lower s now snapshot b).bot.last_seen ≡ last_word j none snapshot
  unfolding locked drop_removed contains
  locked-last_seen s now snapshot b j =
      let r = observe_all to_lower s now (is_quiet_time now.clock s.quiet) snapshot (start b) in
      rw (lookup-keep_seen j r.seen r.bot.last_seen) ground (
        arith,
        observe_all-last_seen s now (is_quiet_time now.clock s.quiet) j snapshot (start b),
        observe_all-seen s now (is_quiet_time now.clock s.quiet) j snapshot (start b),
        last_word-is_told j (lookup j b.last_seen) snapshot,
      )

  module _ (send : ChatTarget → Message → Option ℤ) where
    -- After every snapshot but the first, the bot remembers of each proxy what the snapshot said of
    -- it last, and nothing of the proxies that are disabled or gone. Sending does not change that.
    pub process_snapshot-last_seen :
        (s : Setup) (now : Moment) (snapshot : List ProxyMetric) (b : Bot) (j : Text)
        → b.seeded ≡ true
        → lookup j (process_snapshot to_lower send s now snapshot b).0.last_seen
          ≡ last_word j none snapshot
    unfolding process_snapshot
    process_snapshot-last_seen s now snapshot b j h =
        let r = locked to_lower s now snapshot b in
        ground (
          arith,
          deliver_outages-last_seen to_lower send s now r.outages r.bot,
          locked-last_seen s now snapshot b j,
        )
