-- ===== src/Nodes/Registry.antt =====
-- nodes/registry.go: what the master knows of every reporting node. The functions that the
-- registry calls (subscriptions, ASN lookup, configuration source) are fields, as in the source;
-- times are nanoseconds since Go's zero time, and `now` is the clock's answer. The mutex makes
-- each operation one step; HandleReport takes it for the authentication and again for the update,
-- and the model lets no other operation come between. A nil dereference is the response `panic`;
-- the source then holds the mutex for good, so what an operation answers after it is not modelled.
pub mod Health
pub mod Sweep
pub mod Merged
pub mod Index
pub mod Ingest
pub mod Lifecycle
pub mod Defects
use mathlib.Core.List.{foldl}
use xray_checker_tg_bot.Base.{
  Text, codes, ℕ, ℤ, pos, Bool, true, false, ◌||◌, ◌&&◌, not, Option, none, some, is_some, List, [],
  ◌∷◌, ◌++◌, map, eqt, trim_space, has_prefix, drop_prefix, length, leb, sort_strings,
  if◌then◌else◌,
}
use xray_checker_tg_bot.Base.Dict.{Dict, lookup, insert, erase, keys}
use xray_checker_tg_bot.Checker.Types.{ProxyMetric, ProxyDiagReport, CheckHostSummary}
use xray_checker_tg_bot.Checker.Runtime.{is_positive}
use xray_checker_tg_bot.Nodes.Config.{NodeConfig}
use xray_checker_tg_bot.Nodes.Settings.{NodeConfigSync}
use xray_checker_tg_bot.Nodes.Store
use xray_checker_tg_bot.Nodes.Store.{NodesStore, StoreError}
use xray_checker_tg_bot.Nodes.Report.{
  ReportPayload, proxy_metrics_from_report, proxy_diag_reports_from_report,
}

-- nodeStatus
pub data NodeStatus : Type 0 where
  pending up down : NodeStatus

-- nodeState
pub record NodeState : Type 0 where
  pub cfg : NodeConfig
  pub status : NodeStatus
  pub last_report : ℕ
  pub interval_sec : ℤ
  pub version : Text
  pub host_ip : Text
  pub asn : Text
  pub snapshot : List ProxyMetric
  pub diag_reports : List ProxyDiagReport
  pub grace_pending : Bool

-- Registry; `has_on_update` says whether a callback is registered.
pub record Registry : Type 0 where
  pub nodes : Dict NodeState
  pub by_token : Dict Text
  pub subs : Option (Text → List Text)
  pub asn : Option (Text → Text)
  pub has_on_update : Bool
  pub cfg_source : Option (Text → Option NodeConfigSync)
  pub nodes_store : Option NodesStore
  pub stale_cap : ℕ
  pub audits : Dict (Dict CheckHostSummary)

-- `&nodeState{cfg: cfg, status: statusPending}`
unfoldable pub new_node : NodeConfig → NodeState
new_node cfg = record {
  cfg = cfg;
  status = pending;
  last_report = 0;
  interval_sec = pos 0;
  version = [];
  host_ip = [];
  asn = [];
  snapshot = [];
  diag_reports = [];
  grace_pending = false;
}

-- SetOnUpdate, SetConfigSource, SetStaleCap
unfoldable pub set_on_update : Registry → Registry
set_on_update r = record r { has_on_update = true }

unfoldable pub set_config_source : (Text → Option NodeConfigSync) → Registry → Registry
set_config_source f r = record r { cfg_source = some f }

unfoldable pub set_stale_cap : ℕ → Registry → Registry
set_stale_cap d r = record r { stale_cap = d }

-- NodeExists
unfoldable pub node_exists : Registry → Text → Bool
node_exists r name = is_some (lookup name r.nodes)

-- The loop body of SetNodesStore: a name that is known stays as it is.
unfoldable pub add_stored : Registry → NodeConfig → Registry
unfolding new_node
add_stored r cfg = if is_some (lookup cfg.name r.nodes) then r else record r {
  nodes = insert cfg.name (new_node cfg) r.nodes;
  by_token = insert cfg.token cfg.name r.by_token;
}

-- SetNodesStore; the map of the store is iterated in the order of its list.
unfoldable pub set_nodes_store : Option NodesStore → Registry → Registry
unfolding add_stored
set_nodes_store none r = record r { nodes_store = none }
set_nodes_store (some store) r =
    foldl add_stored (record r { nodes_store = some store }) (Store.all store)

pub data RegistryError : Type 0 where
  empty_name_or_token name_taken token_taken node_not_found : RegistryError
  store_failed : StoreError → RegistryError

-- What an operation answers: its error, and whether the callback was started.
pub record Outcome : Type 0 where
  pub error : Option RegistryError
  pub notified : Bool

abbrev pub fail : RegistryError → Outcome
fail e = record { error = some e; notified = false }

-- The end of RegisterNode and RemoveNode, after the store answered: on an error of the store the
-- maps keep their change.
unfoldable pub finish : Registry → Option StoreError → Registry × Outcome
finish r (some e) = (r, fail (store_failed e))
finish r none = (r, record { error = none; notified = r.has_on_update })

unfoldable pub in_store :
    (NodesStore → NodesStore × Option StoreError) → Registry → Registry × Outcome
unfolding finish
in_store change r = elim r.nodes_store [
  | none ↦ finish r none
  | some store ↦ let (store', e) = change store in finish (record r { nodes_store = some store' }) e
]

-- RemoveNode
unfoldable pub remove_node : Bool → Text → Registry → Registry × Outcome
unfolding in_store
remove_node saved raw_name r =
    let name = trim_space raw_name in
    elim (lookup name r.nodes) [
      | none ↦ (r, fail node_not_found)
      | some st ↦
          in_store (Store.delete saved name)
            (record r { by_token = erase st.cfg.token r.by_token; nodes = erase name r.nodes })
    ]

abbrev pub bearer : Text
bearer = codes "Bearer "

-- IngestResponse
pub record IngestResponse : Type 0 where
  pub managed_subs : List Text
  pub config_sync : Option NodeConfigSync

pub data Response : Type 0 where
  method_not_allowed unauthorized bad_request panic : Response
  accepted : IngestResponse → Response

-- A request of a node: is its method POST, its Authorization header, and the body as it was
-- decoded; `none` is a body that is too long or no report.
pub record Request : Type 0 where
  pub is_post : Bool
  pub authorization : Text
  pub body : Option ReportPayload

-- `if payload.CheckIntervalSec <= 0 { payload.CheckIntervalSec = 300 }`
unfoldable pub report_interval : ReportPayload → ℤ
report_interval p = if is_positive p.check_interval_sec then p.check_interval_sec else pos 300

unfoldable pub asn_of : Registry → ReportPayload → Text
asn_of r p = elim r.asn [ none ↦ [] | some f ↦ if eqt p.host_ip [] then [] else f p.host_ip ]

-- The state of a node after a report.
unfoldable pub reported : ℕ → Text → Registry → ReportPayload → NodeState → NodeState
unfolding report_interval asn_of
reported now name r p st = record st {
  status = up;
  last_report = now;
  interval_sec = report_interval p;
  version = p.version;
  host_ip = p.host_ip;
  asn = asn_of r p;
  snapshot = proxy_metrics_from_report name (asn_of r p) p;
  diag_reports = proxy_diag_reports_from_report p;
  grace_pending = false;
}

unfoldable pub store_audits :
    Text
    → Option (Dict CheckHostSummary)
    → Dict (Dict CheckHostSummary)
    → Dict (Dict CheckHostSummary)
store_audits name (some results) audits = insert name results audits
store_audits name none audits = erase name audits

-- the body of the response
unfoldable pub answer : Registry → Text → IngestResponse
answer r name = record {
  managed_subs = elim r.subs [ none ↦ [] | some f ↦ f name ];
  config_sync = elim r.cfg_source [ none ↦ none | some f ↦ f name ];
}

-- The handler after authentication and decoding: the registry, the response, and the name that
-- the callback is started with.
unfoldable pub ingest : ℕ → Text → ReportPayload → Registry → Registry × Response × Option Text
unfolding reported store_audits answer
ingest now name p r = elim (lookup name r.nodes) [
  | none ↦ (r, panic, none)
  | some st ↦ (
    record r {
      nodes = insert name (reported now name r p st) r.nodes;
      audits = store_audits name p.check_host_audits r.audits;
    },
    accepted (answer r name),
    if r.has_on_update then some name else none,
  )
]

-- The loop over the token index in authenticate: the name of the last hash that is the received
-- one.
unfoldable pub match_hash : Text → Dict Text → Option Text → Option Text
match_hash received [] found = found
match_hash received ((stored, name) ∷ m) found =
    match_hash received m (if eqt stored received then some name else found)

module _ (hash_token : Text → Text) where
  -- The loop body of NewRegistry: the state keeps the configured token, the index its hash.
  unfoldable pub add_configured : Registry → NodeConfig → Registry
  unfolding new_node
  add_configured r cfg = record r {
    nodes = insert cfg.name (new_node cfg) r.nodes;
    by_token = insert (hash_token cfg.token) cfg.name r.by_token;
  }

  -- NewRegistry
  unfoldable pub new_registry :
      List NodeConfig → Option (Text → List Text) → Option (Text → Text) → Registry
  unfolding add_configured
  new_registry cfgs subs asn =
      foldl add_configured
        (record {
          nodes = [];
          by_token = [];
          subs = subs;
          asn = asn;
          has_on_update = false;
          cfg_source = none;
          nodes_store = none;
          stale_cap = 0;
          audits = [];
        })
        cfgs

  -- RegisterNode
  unfoldable pub register_node : Bool → NodeConfig → Registry → Registry × Outcome
  unfolding new_node in_store
  register_node saved cfg r =
      let name = trim_space cfg.name in
      let token = trim_space cfg.token in
      let hash = hash_token token in
      if eqt name [] || eqt token []
      then (r, fail empty_name_or_token)
      else if is_some (lookup name r.nodes)
      then (r, fail name_taken)
      else if is_some (lookup hash r.by_token)
      then (r, fail token_taken)
      else in_store (Store.save hash_token saved name token) (record r {
        nodes = insert name (new_node (record { name = name; token = hash })) r.nodes;
        by_token = insert hash name r.by_token;
      })

  -- authenticate
  unfoldable pub authenticate : Text → Registry → Option Text
  unfolding match_hash
  authenticate header r =
      if leb (length header) (length bearer) || not (has_prefix header bearer)
      then none
      else match_hash (hash_token (drop_prefix header bearer)) r.by_token none

  -- HandleReport
  unfoldable pub handle_report : ℕ → Request → Registry → Registry × Response × Option Text
  handle_report now req r =
      if not req.is_post
      then (r, method_not_allowed, none)
      else elim (authenticate req.authorization r) [
        | none ↦ (r, unauthorized, none)
        | some name ↦ elim req.body [ none ↦ (r, bad_request, none) | some p ↦ ingest now name p r ]
      ]
