-- ===== src/Nodes/Registry/Sweep.antt =====
-- When a silent node is marked down.
use xray_checker_tg_bot.Base.{
  Text, ℕ, ◌*◌, ◌/◌, ◌+◌, ◌<◌, ◌≤◌, ◌^◌, ◌-◌, pos, true, false, ◌&&◌, some, [], ◌∷◌, ◌≡◌, ◌↔◌, refl,
  arith, eqt_iff, ltb, ltz, scale_add, wrap64, sub_time, if◌then◌else◌, contains,
  contains-sort_strings, Distinct,
}
use xray_checker_tg_bot.Base.Dict.{Dict, lookup, keys}
use xray_checker_tg_bot.Nodes.Registry.{up, down, NodeState, Registry}
use xray_checker_tg_bot.Nodes.Registry.Health.{
  second, capped_interval, deadline, is_up, is_stale, sweep_node, map_nodes, stale_names,
  sweep_stale,
}

-- The seconds that a node may stay silent: twice its interval, at most the cap, and a minute.
unfoldable pub silence : ℕ → ℕ → ℕ
silence cap i = 2 * (if ltb 0 cap && ltb (cap / second) i then cap / second else i) + 60

capped_lem :
    (cap i : ℕ)
    → capped_interval cap (pos i)
      ≡ pos (if ltb 0 cap && ltb (cap / second) i then cap / second else i)
unfolding capped_interval ltz
capped_lem cap i = ground arith

deadline_lem :
    (n : ℕ) → (2 * n + 60) * second < 2 ^ 63 - 1 → deadline (pos n) ≡ pos ((2 * n + 60) * second)
unfolding deadline scale_add wrap64
deadline_lem n h = ground arith

sub_time_lem : (d t u : ℕ) → d < 2 ^ 63 - 1 → (ltz (pos d) (sub_time t u) ≡ true) ↔ (u + d < t)
unfolding ltz sub_time
sub_time_lem d t u h = ground arith

pub lookup-map_nodes :
    (f : NodeState → NodeState) (name : Text) (m : Dict NodeState) {st : NodeState}
    → lookup name m ≡ some st
    → lookup name (map_nodes f m) ≡ some (f st)
unfolding lookup map_nodes
lookup-map_nodes f name [] h = ground arith
lookup-map_nodes f name ((j, st') ∷ m) {st} h = ground (arith, lookup-map_nodes f name m {st = st})

-- A node that answered at `last_report` is stale at `now` exactly if it is up and more than the
-- silence has passed.
is_stale_lem :
    (now cap i : ℕ) (st : NodeState)
    → st.interval_sec ≡ pos i
    → silence cap i * second < 2 ^ 63 - 1
    → (is_stale now cap st ≡ true)
      ↔ ((is_up st.status ≡ true) × (st.last_report + silence cap i * second < now))
unfolding is_stale silence
is_stale_lem now cap i st e h =
    let n = if ltb 0 cap && ltb (cap / second) i then cap / second else i in
    ground (
      arith,
      e,
      capped_lem cap i,
      deadline_lem n h,
      sub_time_lem ((2 * n + 60) * second) now st.last_report h,
    )

contains-stale_names_absent :
    (now cap : ℕ) (name : Text) (m : Dict NodeState)
    → contains name (keys m) ≡ false
    → contains name (stale_names now cap m) ≡ false
unfolding contains stale_names
contains-stale_names_absent now cap name [] h = refl
contains-stale_names_absent now cap name ((j, st) ∷ m) h =
    ground (arith, contains-stale_names_absent now cap name m)

pub contains-stale_names :
    (now cap : ℕ) (name : Text) (m : Dict NodeState) {st : NodeState}
    → Distinct (keys m)
    → lookup name m ≡ some st
    → contains name (stale_names now cap m) ≡ is_stale now cap st
unfolding contains stale_names lookup
contains-stale_names now cap name [] d h = ground arith
contains-stale_names now cap name ((j, st') ∷ m) {st} d h = ground (
  arith,
  eqt_iff j name,
  contains-stale_names now cap name m {st = st} d.1,
  contains-stale_names_absent now cap name m,
  d.0,
)

-- A sweep marks a node down, returns its name and leaves its last snapshot to be disabled once,
-- exactly if the node is up and its last report is older than twice its interval, cut at the cap,
-- and a minute: the cap bounds the interval, not the silence. Otherwise its state stays as it was. The interval is one whose deadline fits into
-- 64 bits, and no node stands twice in the map.
pub sweep_stale_lem :
    (now i : ℕ) (name : Text) (r : Registry) {st : NodeState}
    → Distinct (keys r.nodes)
    → lookup name r.nodes ≡ some st
    → st.interval_sec ≡ pos i
    → silence r.stale_cap i * second < 2 ^ 63 - 1
    → ((contains name (sweep_stale now r).1 ≡ true)
        ↔ ((is_up st.status ≡ true) × (st.last_report + silence r.stale_cap i * second < now)))
      × (lookup name (sweep_stale now r).0.nodes
          ≡ some (
              if contains name (sweep_stale now r).1
              then record st { status = down; grace_pending = true }
              else st))
unfolding sweep_stale sweep_node
sweep_stale_lem now i name r {st} d found e h =
    let stale = contains-stale_names now r.stale_cap name r.nodes d found in
    let sorted = contains-sort_strings name (stale_names now r.stale_cap r.nodes) in
    (
      ground (arith, stale, sorted, is_stale_lem now r.stale_cap i st e h),
      ground
          (arith, stale, sorted, lookup-map_nodes (sweep_node now r.stale_cap) name r.nodes found),
    )

-- Without a cap, an interval whose deadline wraps around 64 bits makes the node stale at once: at
-- every sweep from its report on.
pub sweep_stale_overflow :
    (now i : ℕ) (st : NodeState)
    → st.status ≡ up
    → st.interval_sec ≡ pos i
    → 2 ^ 63 ≤ (2 * i + 60) * second
    → (2 * i + 60) * second < 2 ^ 64
    → st.last_report ≤ now
    → is_stale now 0 st ≡ true
unfolding is_stale capped_interval deadline scale_add wrap64 ltz sub_time
sweep_stale_overflow now i st u e low high later = ground arith
