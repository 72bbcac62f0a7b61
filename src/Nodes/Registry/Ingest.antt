-- ===== src/Nodes/Registry/Ingest.antt =====
-- Reports over the life of a registry that starts without configured nodes.
use xray_checker_tg_bot.Base.{
  Text, ℕ, Bool, Option, none, some, List, [], ◌∷◌, drop_prefix, ◌≡◌, ◌≢◌, refl, arith, eqt,
  Bool-cases, Option-cases, inl, inr,
}
use xray_checker_tg_bot.Base.Dict.{Dict, lookup, insert}
use xray_checker_tg_bot.Checker.Types.{ProxyMetric}
use xray_checker_tg_bot.Nodes.Config.{NodeConfig}
use xray_checker_tg_bot.Nodes.Settings.{NodeConfigSync}
use xray_checker_tg_bot.Nodes.Store.{NodesStore}
use xray_checker_tg_bot.Nodes.Report.{ReportPayload}
use xray_checker_tg_bot.Nodes.Registry.{
  NodeState, Registry, Request, panic, bearer, set_on_update, set_config_source, set_stale_cap,
  set_nodes_store, new_registry, register_node, remove_node, ingest, reported, handle_report,
  authenticate, match_hash,
}
use xray_checker_tg_bot.Nodes.Registry.Health.{sweep_stale, sweep_node, merged_snapshot, settle}
use xray_checker_tg_bot.Nodes.Registry.Index.{
  Indexed, IsIndexed, AllIndexed, AllIndexed-nodes, Indexed-insert_same, Indexed-map_nodes,
  register_node-IsIndexed, remove_node-IsIndexed, set_nodes_store-IsIndexed,
}

ingest-IsIndexed :
    (now : ℕ) (name : Text) (p : ReportPayload) (r : Registry)
    → IsIndexed r
    → IsIndexed (ingest now name p r).0
unfolding ingest
ingest-IsIndexed now name p r h = elim (Option-cases (lookup name r.nodes)) [
  | inl missing ↦ rw (missing, ingest) h
  | inr (st, found) ↦
      let st' = reported now name r p st in
      rw (found, ingest)
        (AllIndexed-nodes r.nodes (insert name st' r.nodes) r.by_token
          (Indexed-insert_same r.nodes name st st' found refl) h)
]

sweep_stale-IsIndexed : (now : ℕ) (r : Registry) → IsIndexed r → IsIndexed (sweep_stale now r).0
unfolding sweep_stale sweep_node
sweep_stale-IsIndexed now r h =
    AllIndexed-nodes r.nodes _ r.by_token
      (Indexed-map_nodes (sweep_node now r.stale_cap) r.nodes (λ st. ground arith)) h

merged_snapshot-IsIndexed :
    (local : List ProxyMetric) (r : Registry) → IsIndexed r → IsIndexed (merged_snapshot local r).0
unfolding merged_snapshot settle
merged_snapshot-IsIndexed local r h =
    AllIndexed-nodes r.nodes _ r.by_token (Indexed-map_nodes settle r.nodes (λ st. ground arith)) h

-- The name that a matching token yields is one of the index.
match_hash-Indexed :
    (nodes : Dict NodeState) (received : Text) (m : Dict Text) (found : Option Text)
    → AllIndexed nodes m
    → ((name : Text) → found ≡ some name → (hash : Text) × Indexed nodes hash name)
    → (name : Text) → match_hash received m found ≡ some name
    → (hash : Text) × Indexed nodes hash name
unfolding match_hash
match_hash-Indexed nodes received [] found h k name e = k name e
match_hash-Indexed nodes received ((stored, j) ∷ m) found h k name e =
    elim (Bool-cases (eqt stored received)) [
      | inl own ↦
          match_hash-Indexed nodes received m (some j) h.1
            (λ n q. let p : j ≡ n = ground arith in (stored, rw (← p) h.0)) name (ground arith)
      | inr other ↦ match_hash-Indexed nodes received m found h.1 k name (ground arith)
    ]

module _ (hash_token : Text → Text) where
  authenticate-Indexed :
      (header : Text) (r : Registry) (name : Text)
      → IsIndexed r
      → authenticate hash_token header r ≡ some name
      → (hash : Text) × Indexed r.nodes hash name
  unfolding authenticate
  authenticate-Indexed header r name h e =
      match_hash-Indexed r.nodes (hash_token (drop_prefix header bearer)) r.by_token none h
        (λ n q. absurd (ground arith)) name (ground arith)

  -- With a consistent token index no request makes the handler dereference a missing node.
  pub handle_report-ne-panic :
      (now : ℕ) (req : Request) (r : Registry)
      → IsIndexed r
      → (handle_report hash_token now req r).1 ≢ panic
  unfolding handle_report ingest
  handle_report-ne-panic now req r h e =
      elim (Option-cases (authenticate hash_token req.authorization r)) [
        | inl nobody ↦ ground arith
        | inr (name, known) ↦
            let (hash, i) = authenticate-Indexed req.authorization r name h known in
            ground (arith, i.known)
      ]

  -- What happens to a registry that starts with no configured node: the operator registers and
  -- removes nodes, with or without success on the disk, requests of any kind arrive, the sweeper
  -- runs, the alert pipeline reads, and the setters are called, SetNodesStore with any store too.
  pub data Step : Registry → Registry → Type 0 where
    register :
        (saved : Bool) (cfg : NodeConfig) (r : Registry)
        → Step r (register_node hash_token saved cfg r).0
    remove : (saved : Bool) (name : Text) (r : Registry) → Step r (remove_node saved name r).0
    report :
        (now : ℕ) (req : Request) (r : Registry) → Step r (handle_report hash_token now req r).0
    sweep : (now : ℕ) (r : Registry) → Step r (sweep_stale now r).0
    merge : (local : List ProxyMetric) (r : Registry) → Step r (merged_snapshot local r).0
    callback : (r : Registry) → Step r (set_on_update r)
    configure : (f : Text → Option NodeConfigSync) (r : Registry) → Step r (set_config_source f r)
    cap_silence : (d : ℕ) (r : Registry) → Step r (set_stale_cap d r)
    attach : (store : Option NodesStore) (r : Registry) → Step r (set_nodes_store store r)

  pub data Reach (start : Registry) : Registry → Type 0 where
    here : Reach start start
    next : {r s : Registry} → Reach start r → Step r s → Reach start s

  handle_report-IsIndexed :
      (now : ℕ) (req : Request) (r : Registry)
      → IsIndexed r
      → IsIndexed (handle_report hash_token now req r).0
  unfolding handle_report
  handle_report-IsIndexed now req r h = elim (Bool-cases req.is_post) [
    | inr get ↦ rw get h
    | inl post ↦ rw post (elim (Option-cases (authenticate hash_token req.authorization r)) [
      | inl nobody ↦ rw (nobody, handle_report) h
      | inr (name, known) ↦ rw known (elim (Option-cases req.body) [
        | inl bad ↦ rw bad h
        | inr (p, decoded) ↦ rw decoded (ingest-IsIndexed now name p r h)
      ])
    ])
  ]

  Step-IsIndexed : {r s : Registry} → Step r s → IsIndexed r → IsIndexed s
  unfolding set_on_update set_config_source set_stale_cap
  Step-IsIndexed (register saved cfg r) h = register_node-IsIndexed hash_token saved cfg r h
  Step-IsIndexed (remove saved name r) h = remove_node-IsIndexed saved name r h
  Step-IsIndexed (report now req r) h = handle_report-IsIndexed now req r h
  Step-IsIndexed (sweep now r) h = sweep_stale-IsIndexed now r h
  Step-IsIndexed (merge local r) h = merged_snapshot-IsIndexed local r h
  Step-IsIndexed (callback r) h = h
  Step-IsIndexed (configure f r) h = h
  Step-IsIndexed (cap_silence d r) h = h
  Step-IsIndexed (attach store r) h = set_nodes_store-IsIndexed store r h

  Reach-IsIndexed : {start r : Registry} → IsIndexed start → Reach start r → IsIndexed r
  Reach-IsIndexed h here = h
  Reach-IsIndexed h (next reached step) = Step-IsIndexed step (Reach-IsIndexed h reached)

  new_registry-IsIndexed :
      (subs : Option (Text → List Text)) (asn : Option (Text → Text))
      → IsIndexed (new_registry hash_token [] subs asn)
  unfolding new_registry
  new_registry-IsIndexed subs asn = tt

  -- A registry that starts without configured nodes answers every request after any sequence of
  -- registrations, removals, reports, sweeps, snapshots and setters, with SetNodesStore among them: the
  -- handler does not dereference a node that is not there, if no other operation comes between its
  -- authentication and its update.
  pub Reach-ne-panic :
      (subs : Option (Text → List Text)) (asn : Option (Text → Text)) {r : Registry}
      → Reach (new_registry hash_token [] subs asn) r
      → (now : ℕ) (req : Request) → (handle_report hash_token now req r).1 ≢ panic
  Reach-ne-panic subs asn {r} reached now req =
      handle_report-ne-panic now req r (Reach-IsIndexed (new_registry-IsIndexed subs asn) reached)
