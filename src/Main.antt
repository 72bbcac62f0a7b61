-- ===== src/Main.antt =====
-- main.go: how the registry of the master feeds the bot. The messages on the health of the nodes
-- themselves (ProcessNodesHealth), which the sweep sends after the snapshot, are not modelled.
pub mod Forgotten
pub mod Viewed
use xray_checker_tg_bot.Base.{Text, ℕ, ℤ, Option, none, some, List, [], ◌∷◌}
use xray_checker_tg_bot.Checker.Types.{ProxyMetric}
use xray_checker_tg_bot.Nodes.Registry.{Registry}
use xray_checker_tg_bot.Nodes.Registry.Health.{sweep_stale, merged_snapshot}
use xray_checker_tg_bot.Telegram.Targets.{ChatTarget}
use xray_checker_tg_bot.Telegram.Alerts.{Moment, Setup, Bot, Message, Call}
use xray_checker_tg_bot.Telegram.Alerts.Delivery.{process_snapshot}

-- The registry and the bot, if one is running.
pub record Master : Type 0 where
  pub registry : Registry
  pub bot : Option Bot

-- MetricsSnapshot of mergedMetricsSource (node_manager.go), which the views of the bot call
unfoldable pub view : List ProxyMetric → Master → Master × List ProxyMetric
view local m =
    let (registry, snapshot) = merged_snapshot local m.registry in
    (record m { registry = registry }, snapshot)

module _ (to_lower : Text → Text) (send : ChatTarget → Message → Option ℤ) (s : Setup) where
  -- emitSnapshot
  unfoldable pub emit_snapshot : Moment → List ProxyMetric → Master → Master × List Call
  emit_snapshot now local m = elim m.bot [
    | none ↦ (m, [])
    | some b ↦
        let (registry, snapshot) = merged_snapshot local m.registry in
        let (after, calls) = process_snapshot to_lower send s now snapshot b in
        (record { registry = registry; bot = some after }, calls)
  ]

  -- the job of the sweep scheduler, but for ProcessNodesHealth: a snapshot if a node was marked down
  unfoldable pub sweep : Moment → List ProxyMetric → Master → Master × List Call
  sweep now local m =
      let (registry, names) = sweep_stale now.nanos m.registry in
      let m' = record m { registry = registry } in
      elim names [ [] ↦ (m', []) | name ∷ more ↦ emit_snapshot now local m' ]
