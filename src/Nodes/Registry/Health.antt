-- ===== src/Nodes/Registry/Health.antt =====
-- nodes/registry.go: the health of the nodes, and the snapshots that the alert pipeline reads.
use mathlib.Core.List.{flatten}
use xray_checker_tg_bot.Base.{
  Text, ℕ, ◌*◌, ◌/◌, ◌+◌, ℤ, pos, Bool, true, false, ◌&&◌, not, Option, none, some, List, [], ◌∷◌,
  ◌++◌, map, eqt, ltb, ltz, scale_add, wrap64, sub_time, sort_strings, length, if◌then◌else◌, suc,
  ◌==◌,
}
use xray_checker_tg_bot.Base.Dict.{Dict, lookup, insert, keys}
use xray_checker_tg_bot.Checker.Types.{ProxyMetric, ProxyDiagReport, CheckHostSummary}
use xray_checker_tg_bot.Nodes.Registry.{NodeStatus, pending, up, down, NodeState, Registry}

-- StaleMultiplier, StaleGrace and time.Second, in nanoseconds
abbrev pub stale_multiplier : ℕ
stale_multiplier = 2

abbrev pub second : ℕ
second = 1_000_000_000

abbrev pub stale_grace : ℕ
stale_grace = 60 * second

-- The interval of the node, cut at the master's cap, if there is one.
unfoldable pub capped_interval : ℕ → ℤ → ℤ
capped_interval cap interval =
    let cap_sec = pos (cap / second) in
    if ltb 0 cap && ltz cap_sec interval then cap_sec else interval

-- `time.Duration(StaleMultiplier*interval)*time.Second + StaleGrace`, in 64 bits: the wraps of the
-- three operations are one wrap at the end.
unfoldable pub deadline : ℤ → ℤ
deadline interval = wrap64 (scale_add (stale_multiplier * second) stale_grace interval)

abbrev pub is_up : NodeStatus → Bool
is_up up = true
is_up pending = false
is_up down = false

-- Does SweepStale mark the node?
unfoldable pub is_stale : ℕ → ℕ → NodeState → Bool
unfolding capped_interval deadline
is_stale now cap st =
    is_up st.status
    && ltz (deadline (capped_interval cap st.interval_sec)) (sub_time now st.last_report)

unfoldable pub sweep_node : ℕ → ℕ → NodeState → NodeState
unfolding is_stale
sweep_node now cap st =
    if is_stale now cap st then record st { status = down; grace_pending = true } else st

unfoldable pub map_nodes : (NodeState → NodeState) → Dict NodeState → Dict NodeState
map_nodes f [] = []
map_nodes f ((name, st) ∷ m) = (name, f st) ∷ map_nodes f m

unfoldable pub stale_names : ℕ → ℕ → Dict NodeState → List Text
unfolding is_stale
stale_names now cap [] = []
stale_names now cap ((name, st) ∷ m) =
    let rest = stale_names now cap m in if is_stale now cap st then name ∷ rest else rest

-- SweepStale
unfoldable pub sweep_stale : ℕ → Registry → Registry × List Text
unfolding sweep_node map_nodes stale_names
sweep_stale now r = (
  record r { nodes = map_nodes (sweep_node now r.stale_cap) r.nodes },
  sort_strings (stale_names now r.stale_cap r.nodes),
)

-- `pm.Disabled = true`
abbrev pub disable : ProxyMetric → ProxyMetric
disable pm = record pm { disabled = true }

-- What a node adds to the merged snapshot, and its state after it.
unfoldable pub emit : NodeState → List ProxyMetric
emit st = elim st.status [
  | up ↦ st.snapshot
  | down ↦ if st.grace_pending then map disable st.snapshot else []
  | pending ↦ []
]

unfoldable pub settle : NodeState → NodeState
settle st = elim st.status [
  | down ↦ if st.grace_pending then record st { grace_pending = false } else st
  | _ ↦ st
]

unfoldable pub emit_at : Dict NodeState → Text → List ProxyMetric
unfolding emit
emit_at nodes name = elim (lookup name nodes) [ none ↦ [] | some st ↦ emit st ]

-- MergedSnapshot: every node is visited once, in the order of its name, and only its own state
-- changes.
unfoldable pub merged_snapshot : List ProxyMetric → Registry → Registry × List ProxyMetric
unfolding emit_at settle map_nodes
merged_snapshot local r = (
  record r { nodes = map_nodes settle r.nodes },
  local ++ flatten (map (emit_at r.nodes) (sort_strings (keys r.nodes))),
)

abbrev pub snapshot_of : Option NodeState → List ProxyMetric
snapshot_of none = []
snapshot_of (some st) = st.snapshot

-- NodeSnapshot, NodeDiagReports and NodeAudits; nil is the empty list
unfoldable pub node_snapshot : Registry → Text → List ProxyMetric
node_snapshot r name = snapshot_of (lookup name r.nodes)

unfoldable pub node_diag_reports : Registry → Text → List ProxyDiagReport
node_diag_reports r name = elim (lookup name r.nodes) [ none ↦ [] | some st ↦ st.diag_reports ]

unfoldable pub node_audits : Registry → Text → Dict CheckHostSummary
node_audits r node = elim (lookup node r.audits) [ none ↦ [] | some results ↦ results ]

-- NodeHealth of the registry
pub record NodeHealth : Type 0 where
  pub name : Text
  pub up : Bool
  pub ever_reported : Bool
  pub version : Text
  pub host_ip : Text
  pub asn : Text
  pub online : ℕ
  pub total : ℕ
  pub last_report : ℕ
  pub check_interval_sec : ℤ

unfoldable pub count_online : List ProxyMetric → ℕ
count_online [] = 0
count_online (pm ∷ pms) = if pm.online then suc (count_online pms) else count_online pms

unfoldable pub health_of : Text → NodeState → NodeHealth
unfolding count_online
health_of name st = record {
  name = name;
  up = is_up st.status;
  ever_reported = not (st.last_report == 0);
  version = st.version;
  host_ip = st.host_ip;
  asn = st.asn;
  online = count_online st.snapshot;
  total = length st.snapshot;
  last_report = st.last_report;
  check_interval_sec = st.interval_sec;
}

-- HealthSnapshot
unfoldable pub health_at : Dict NodeState → Text → List NodeHealth
unfolding health_of
health_at nodes name = elim (lookup name nodes) [ none ↦ [] | some st ↦ health_of name st ∷ [] ]

unfoldable pub health_snapshot : Registry → List NodeHealth
unfolding health_at
health_snapshot r = flatten (map (health_at r.nodes) (sort_strings (keys r.nodes)))

abbrev pub count_in : Text → Dict ℕ → ℕ
count_in k m = elim (lookup k m) [ none ↦ 0 | some n ↦ n ]

-- the loop of SubCounts
unfoldable pub count_subs : List ProxyMetric → Dict ℕ → Dict ℕ
count_subs [] out = out
count_subs (pm ∷ pms) out =
    count_subs pms
      (if eqt pm.sub_name [] then out else insert pm.sub_name (count_in pm.sub_name out + 1) out)

-- SubCounts
unfoldable pub sub_counts : Registry → Text → Dict ℕ
unfolding count_subs
sub_counts r node = count_subs (snapshot_of (lookup node r.nodes)) []
