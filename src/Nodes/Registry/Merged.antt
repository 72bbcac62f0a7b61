-- ===== src/Nodes/Registry/Merged.antt =====
-- The merged snapshots after a node goes down.
use mathlib.Core.List.{flatten}
use xray_checker_tg_bot.Base.{
  Text, ℕ, none, some, List, [], ◌∷◌, ◌++◌, map, ◌≡◌, refl, arith, sort_strings, if◌then◌else◌,
}
use xray_checker_tg_bot.Base.Dict.{Dict, lookup, keys}
use xray_checker_tg_bot.Checker.Types.{ProxyMetric}
use xray_checker_tg_bot.Nodes.Registry.{NodeState, Registry}
use xray_checker_tg_bot.Nodes.Registry.Sweep.{lookup-map_nodes}
use xray_checker_tg_bot.Nodes.Registry.Health.{
  is_up, disable, emit, settle, emit_at, map_nodes, merged_snapshot, sweep_stale, sweep_node,
  is_stale,
}

-- What the nodes that are up have reported, in the order of their names.
unfoldable pub live : Dict NodeState → Text → List ProxyMetric
live nodes name = elim (lookup name nodes) [
  | none ↦ []
  | some st ↦ if is_up st.status then st.snapshot else []
]

pub keys-map_nodes :
    (f : NodeState → NodeState) (m : Dict NodeState) → keys (map_nodes f m) ≡ keys m
unfolding map_nodes
keys-map_nodes f [] = refl
keys-map_nodes f ((name, st) ∷ m) = ground (arith, keys-map_nodes f m)

emit_at-settle :
    (name : Text) (m : Dict NodeState) → emit_at (map_nodes settle m) name ≡ live m name
unfolding emit_at emit settle live lookup map_nodes
emit_at-settle name [] = refl
emit_at-settle name ((j, st) ∷ m) = ground (arith, emit_at-settle name m)

map-congr {ℓ} :
    {A B : Type ℓ} (f g : A → B) → ((a : A) → f a ≡ g a) → (l : List A) → map f l ≡ map g l
map-congr f g h [] = refl
map-congr f g h (a ∷ l) = ground (arith, h a, map-congr f g h l)

-- The snapshot that follows another one, with no report and no sweep between them, is the local
-- metrics and those of the nodes that are up: nothing is disabled a second time.
pub merged_snapshot_twice :
    (first second : List ProxyMetric) (r : Registry)
    → (merged_snapshot second (merged_snapshot first r).0).1
      ≡ second ++ flatten (map (live r.nodes) (sort_strings (keys r.nodes)))
unfolding merged_snapshot
merged_snapshot_twice first second r = rw (
  keys-map_nodes settle r.nodes,
  map-congr (emit_at (map_nodes settle r.nodes)) (live r.nodes)
      (λ name. emit_at-settle name r.nodes) (sort_strings (keys r.nodes)),
)

-- What a node adds to the first snapshot after a sweep: its metrics, all of them disabled if the
-- sweep marked it down, and what it added without the sweep if not.
pub emit_at-sweep_stale :
    (now : ℕ) (name : Text) (r : Registry) {st : NodeState}
    → lookup name r.nodes ≡ some st
    → emit_at (sweep_stale now r).0.nodes name
      ≡ (if is_stale now r.stale_cap st then map disable st.snapshot else emit_at r.nodes name)
unfolding emit_at emit sweep_stale sweep_node
emit_at-sweep_stale now name r {st} found =
    ground (arith, lookup-map_nodes (sweep_node now r.stale_cap) name r.nodes {st = st} found)
