-- ===== src/Main/Forgotten.antt =====
-- What becomes of the alerts when a node falls silent.
use mathlib.Core.List.{flatten}
use xray_checker_tg_bot.Base.{
  Text, ℕ, ℤ, true, false, ◌||◌, Option, none, some, List, [], ◌∷◌, ◌++◌, map, ◌≡◌, ◌≢◌, sym, ◌∙◌,
  ap, refl, arith, eqt, eqt_iff, contains, contains-sort_strings, sort_strings, Distinct,
  Bool-cases, Option-cases, inl, inr,
}
use xray_checker_tg_bot.Base.Dict.{Dict, lookup, keys}
use xray_checker_tg_bot.Checker.Types.{ProxyMetric}
use xray_checker_tg_bot.Nodes.Registry.{NodeState, Registry}
use xray_checker_tg_bot.Nodes.Registry.Health.{
  disable, emit_at, is_stale, map_nodes, sweep_node, stale_names, sweep_stale, merged_snapshot,
}
use xray_checker_tg_bot.Nodes.Registry.Sweep.{contains-stale_names}
use xray_checker_tg_bot.Nodes.Registry.Merged.{emit_at-sweep_stale, keys-map_nodes}
use xray_checker_tg_bot.Telegram.Targets.{ChatTarget}
use xray_checker_tg_bot.Telegram.Alerts.{Moment, Setup, Bot, Message}
use xray_checker_tg_bot.Telegram.Alerts.Delivery.{process_snapshot}
use xray_checker_tg_bot.Telegram.Alerts.Seen.{
  is_told, last_word-is_told, process_snapshot-last_seen,
}
use xray_checker_tg_bot.Telegram.Alerts.Cleared.{NoAlert}
use xray_checker_tg_bot.Telegram.Alerts.Withdrawn.{is_there, process_snapshot-withdrawn}
use xray_checker_tg_bot.Main.{emit_snapshot, sweep}

-- What a snapshot that is put together says of a proxy.
is_told-append :
    (j : Text) (xs ys : List ProxyMetric) → is_told j (xs ++ ys) ≡ (is_told j xs || is_told j ys)
unfolding is_told
is_told-append j [] ys = refl
is_told-append j (x ∷ xs) ys = ground (arith, is_told-append j xs ys)

pub is_there-append :
    (j : Text) (xs ys : List ProxyMetric) → is_there j (xs ++ ys) ≡ (is_there j xs || is_there j ys)
unfolding is_there
is_there-append j [] ys = refl
is_there-append j (x ∷ xs) ys = ground (arith, is_there-append j xs ys)

is_told-disable : (j : Text) (xs : List ProxyMetric) → is_told j (map disable xs) ≡ false
unfolding is_told
is_told-disable j [] = refl
is_told-disable j (x ∷ xs) = ground (arith, is_told-disable j xs)

is_there-disable : (j : Text) (xs : List ProxyMetric) → is_there j (map disable xs) ≡ is_there j xs
unfolding is_there
is_there-disable j [] = refl
is_there-disable j (x ∷ xs) = ground (arith, is_there-disable j xs)

module _ (j : Text) (f : Text → List ProxyMetric) where
  is_told-flatten :
      (names : List Text)
      → ((n : Text) → is_told j (f n) ≡ false)
      → is_told j (flatten (map f names)) ≡ false
  unfolding is_told flatten
  is_told-flatten [] none_tells = refl
  is_told-flatten (n ∷ names) none_tells = ground (
    arith,
    is_told-append j (f n) (flatten (map f names)),
    none_tells n,
    is_told-flatten names none_tells,
  )

  is_there-flatten :
      (name : Text) (names : List Text)
      → contains name names ≡ true
      → is_there j (f name) ≡ true
      → is_there j (flatten (map f names)) ≡ true
  unfolding contains flatten
  is_there-flatten name [] h there = ground arith
  is_there-flatten name (n ∷ names) h there = elim (Bool-cases (eqt n name)) [
    | inl own ↦
        let same = ap f ((eqt_iff n name).0 own) in
        ground (arith, is_there-append j (f n) (flatten (map f names)), ap (is_there j) same)
    | inr other ↦ ground (
      arith,
      is_there-append j (f n) (flatten (map f names)),
      is_there-flatten name names (ground arith) there,
    )
  ]

contains-keys :
    (name : Text) (m : Dict NodeState) {st : NodeState}
    → lookup name m ≡ some st
    → contains name (keys m) ≡ true
unfolding contains lookup
contains-keys name [] h = ground arith
contains-keys name ((n, st') ∷ m) {st} h = ground (arith, contains-keys name m {st = st})

emit_at_absent :
    (f : NodeState → NodeState) (n : Text) (m : Dict NodeState)
    → lookup n m ≡ none
    → emit_at (map_nodes f m) n ≡ []
unfolding emit_at lookup map_nodes
emit_at_absent f n [] h = refl
emit_at_absent f n ((k, st) ∷ m) h = ground (arith, emit_at_absent f n m)

module _ (now : ℕ) (name j : Text) (r : Registry) where
  -- After the sweep no node tells of a proxy of the silent node.
  is_told-sweep_stale :
      {st : NodeState}
      → lookup name r.nodes ≡ some st
      → is_stale now r.stale_cap st ≡ true
      → ((n : Text) → n ≢ name → is_told j (emit_at r.nodes n) ≡ false)
      → (n : Text) → is_told j (emit_at (sweep_stale now r).0.nodes n) ≡ false
  unfolding sweep_stale is_told
  is_told-sweep_stale {st} found stale others n = elim (Option-cases (lookup n r.nodes)) [
    | inl absent ↦
        let e = ap (is_told j) (emit_at_absent (sweep_node now r.stale_cap) n r.nodes absent) in
        ground (arith, e)
    | inr (st', here) ↦
        let e = ap (is_told j) (emit_at-sweep_stale now n r {st = st'} here) in
        elim (Bool-cases (is_stale now r.stale_cap st')) [
          | inl gone ↦ ground (arith, e, is_told-disable j st'.snapshot)
          | inr fresh ↦ elim (Bool-cases (eqt n name)) [
            | inl own ↦
                let same = ap (λ k. lookup k r.nodes) ((eqt_iff n name).0 own) in
                let one : some st' ≡ some st = sym here ∙ same ∙ found in ground (arith, one)
            | inr other ↦
                let apart : n ≢ name = λ p. ground (arith, eqt_iff n name, p) in
                ground (arith, e, others n apart)
          ]
        ]
  ]

  is_there-sweep_stale :
      {st : NodeState}
      → lookup name r.nodes ≡ some st
      → is_stale now r.stale_cap st ≡ true
      → is_there j st.snapshot ≡ true
      → is_there j (emit_at (sweep_stale now r).0.nodes name) ≡ true
  is_there-sweep_stale {st} found stale there =
      let e = emit_at-sweep_stale now name r {st = st} found in
      ground (arith, e, is_there-disable j st.snapshot, ap (is_there j) e)

-- The sweep names the node, and keeps it in the registry.
sweep_stale-names :
    (now : ℕ) (name : Text) (r : Registry) {st : NodeState}
    → Distinct (keys r.nodes)
    → lookup name r.nodes ≡ some st
    → is_stale now r.stale_cap st ≡ true
    → contains name (sweep_stale now r).1 ≡ true
unfolding sweep_stale
sweep_stale-names now name r {st} d found stale =
    contains-sort_strings name (stale_names now r.stale_cap r.nodes)
    ∙ contains-stale_names now r.stale_cap name r.nodes {st = st} d found
    ∙ stale

sweep_stale-keeps :
    (now : ℕ) (name : Text) (r : Registry) {st : NodeState}
    → lookup name r.nodes ≡ some st
    → contains name (sort_strings (keys (sweep_stale now r).0.nodes)) ≡ true
unfolding sweep_stale
sweep_stale-keeps now name r {st} found =
    contains-sort_strings name (keys (sweep_stale now r).0.nodes)
    ∙ ap (contains name) (keys-map_nodes (sweep_node now r.stale_cap) r.nodes)
    ∙ contains-keys name r.nodes {st = st} found

module _ (to_lower : Text → Text) (send : ChatTarget → Message → Option ℤ) (s : Setup) where
  -- A sweep that marks a node down hands the bot a snapshot.
  sweep-emits :
      (now : Moment) (local : List ProxyMetric) (name : Text) (r : Registry) (b : Bot)
      → contains name (sweep_stale now.nanos r).1 ≡ true
      → sweep to_lower send s now local (record { registry = r; bot = some b })
        ≡ emit_snapshot to_lower send s now local
            (record { registry = (sweep_stale now.nanos r).0; bot = some b })
  unfolding sweep contains
  sweep-emits now local name r b h = ground arith

  -- When a node has been silent for too long, and a bot is running that has seen a snapshot, the sweep
  -- leaves no alert of the node's proxies in any chat, and the bot forgets them: if neither the master
  -- nor another node tells of them too, and no node stands twice in the map.
  pub sweep-forgets :
      (now : Moment) (local : List ProxyMetric) (name j : Text) (r : Registry) (b : Bot)
      {st : NodeState}
      → Distinct (keys r.nodes)
      → lookup name r.nodes ≡ some st
      → is_stale now.nanos r.stale_cap st ≡ true
      → is_there j st.snapshot ≡ true
      → is_told j local ≡ false
      → ((n : Text) → n ≢ name → is_told j (emit_at r.nodes n) ≡ false)
      → b.seeded ≡ true
      → (b' : Bot) × ((sweep to_lower send s now local
            (record { registry = r; bot = some b })).0.bot
          ≡ some b')
        × NoAlert j b'.alerts s.targets
        × (lookup j b'.last_seen ≡ none)
  unfolding merged_snapshot emit_snapshot
  sweep-forgets now local name j r b {st} d found stale there own others seeded =
      let r' = (sweep_stale now.nanos r).0 in
      let names = sort_strings (keys r'.nodes) in
      let snapshot = (merged_snapshot local r').1 in
      let told_nowhere = is_told-sweep_stale now.nanos name j r {st = st} found stale others in
      let shown = is_there-sweep_stale now.nanos name j r {st = st} found stale there in
      let off : is_told j snapshot ≡ false = ground (
        arith,
        own,
        is_told-append j local (flatten (map (emit_at r'.nodes) names)),
        is_told-flatten j (emit_at r'.nodes) names told_nowhere,
      ) in
      let member = sweep_stale-keeps now.nanos name r {st = st} found in
      let on : is_there j snapshot ≡ true = ground (
        arith,
        is_there-append j local (flatten (map (emit_at r'.nodes) names)),
        is_there-flatten j (emit_at r'.nodes) name names member shown,
      ) in
      let marked = sweep_stale-names now.nanos name r {st = st} d found stale in
      (
        (process_snapshot to_lower send s now snapshot b).0,
        ap (λ m. m.0.bot) (sweep-emits now local name r b marked),
        process_snapshot-withdrawn to_lower send s now snapshot b j seeded on off,
        process_snapshot-last_seen to_lower send s now snapshot b j seeded
            ∙ ground (arith, last_word-is_told j none snapshot),
      )
