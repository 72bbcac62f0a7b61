-- ===== src/Main/Viewed.antt =====
-- A view of the bot between the sweep and the snapshot.
use mathlib.Core.List.{flatten}
use xray_checker_tg_bot.Base.{
  Text, ℤ, true, false, Option, some, List, [], ◌∷◌, map, ◌≡◌, ◌≢◌, ◌∙◌, ap, refl, arith, eqt,
  eqt_iff, sort_strings, Bool-cases, inl, inr,
}
use xray_checker_tg_bot.Base.Dict.{lookup, keys}
use xray_checker_tg_bot.Checker.Types.{ProxyMetric}
use xray_checker_tg_bot.Nodes.Registry.{down, NodeState, Registry}
use xray_checker_tg_bot.Nodes.Registry.Health.{merged_snapshot}
use xray_checker_tg_bot.Nodes.Registry.Merged.{live, merged_snapshot_twice}
use xray_checker_tg_bot.Telegram.Targets.{ChatTarget}
use xray_checker_tg_bot.Telegram.Tracker.{alert_key}
use xray_checker_tg_bot.Telegram.Alerts.{Moment, Setup, Bot, Message}
use xray_checker_tg_bot.Telegram.Alerts.Delivery.{process_snapshot}
use xray_checker_tg_bot.Telegram.Alerts.Withdrawn.{is_there}
use xray_checker_tg_bot.Telegram.Alerts.Absent.{process_snapshot-absent}
use xray_checker_tg_bot.Main.{view, emit_snapshot}
use xray_checker_tg_bot.Main.Forgotten.{is_there-append}

is_there-flatten_none :
    (j : Text) (f : Text → List ProxyMetric) (names : List Text)
    → ((n : Text) → is_there j (f n) ≡ false)
    → is_there j (flatten (map f names)) ≡ false
unfolding is_there flatten
is_there-flatten_none j f [] h = refl
is_there-flatten_none j f (n ∷ names) h =
    ground (
      arith,
      is_there-append j (f n) (flatten (map f names)),
      h n,
      is_there-flatten_none j f names h,
    )

-- A node that is down adds nothing any more.
live_down :
    (j name : Text) (r : Registry) {st : NodeState}
    → lookup name r.nodes ≡ some st
    → st.status ≡ down
    → ((n : Text) → n ≢ name → is_there j (live r.nodes n) ≡ false)
    → (n : Text) → is_there j (live r.nodes n) ≡ false
unfolding live is_there
live_down j name r {st} found gone others n = elim (Bool-cases (eqt n name)) [
  | inl own ↦
      let same = ap (λ k. lookup k r.nodes) ((eqt_iff n name).0 own) in
      let here : lookup n r.nodes ≡ some st = same ∙ found in ground (arith, here, gone)
  | inr other ↦ let apart : n ≢ name = λ p. ground (arith, eqt_iff n name, p) in others n apart
]

module _ (to_lower : Text → Text) (send : ChatTarget → Message → Option ℤ) (s : Setup) where
  -- If a view reads the merged snapshot after a node was marked down, the next snapshot leaves the alerts
  -- of the node's proxies as they were, since it does not show them: if the bot has seen a snapshot
  -- before, and neither the master nor a node that is up shows them.
  pub view-keeps_alerts :
      (now : Moment) (first second : List ProxyMetric) (name j : Text) (c t : ℤ) (r : Registry)
      (b : Bot) {st : NodeState}
      → lookup name r.nodes ≡ some st
      → st.status ≡ down
      → is_there j second ≡ false
      → ((n : Text) → n ≢ name → is_there j (live r.nodes n) ≡ false)
      → b.seeded ≡ true
      → (b' : Bot) × ((emit_snapshot to_lower send s now second
            (view first (record { registry = r; bot = some b })).0).0.bot
          ≡ some b')
        × (lookup (alert_key c t j) b'.alerts ≡ lookup (alert_key c t j) b.alerts)
  unfolding view emit_snapshot
  view-keeps_alerts now first second name j c t r b {st} found gone own others seeded =
      let names = sort_strings (keys r.nodes) in
      let snapshot = (merged_snapshot second (merged_snapshot first r).0).1 in
      let absent : is_there j snapshot ≡ false =
        ap (is_there j) (merged_snapshot_twice first second r)
        ∙ ground (
          arith,
          own,
          is_there-append j second (flatten (map (live r.nodes) names)),
          is_there-flatten_none j (live r.nodes) names
              (live_down j name r {st = st} found gone others),
        ) in
      (
        (process_snapshot to_lower send s now snapshot b).0,
        refl,
        process_snapshot-absent c t j to_lower send s now snapshot b seeded absent,
      )
