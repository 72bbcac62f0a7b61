-- ===== src/Tests/Master.antt =====
-- The theorems on the master's side (nodes/*.go, checker/checker.go) at two nodes, `fi` and `de`.
use xray_checker_tg_bot.Base.{
  wrap64, scale_add, Text, codes, ℕ, ◌+◌, ◌*◌, ◌<◌, pos, true, false, none, some, [], ◌∷◌, ◌++◌,
  ◌≡◌, ◌≢◌, ◌↔◌, refl, arith, eqt, contains, has_char, All, Distinct, trim_space, trim_left,
  is_space, has_prefix, split, ok, drop_prefix, if◌then◌else◌,
}
use xray_checker_tg_bot.Base.Dict.{lookup, insert, erase}
use xray_checker_tg_bot.Checker.Types.{no_health, ProxyDiagReport, ProxyMetric, no_metric}
use xray_checker_tg_bot.Checker.Runtime.{
  client_timeout, CheckSettings, set_runtime_check_settings, is_http_url, is_check_method,
}
use xray_checker_tg_bot.Checker.Runtime.Keeps.{IsValid, set_runtime_check_settings-IsValid}
use xray_checker_tg_bot.Nodes.Config.{NodeConfig, parse_nodes, parse_from, parse_entry, check_parts}
use xray_checker_tg_bot.Nodes.Config.Names.{IsComplete, parse_nodes_lem}
use xray_checker_tg_bot.Nodes.Config.Print.{IsPlain, print_entry, parse_nodes-print_entry}
use xray_checker_tg_bot.Nodes.Settings.{
  NodeSettings, NodeConfigSync, resolve_node_sync, sync_to_runtime_settings,
}
use xray_checker_tg_bot.Nodes.Settings.Merge.{
  merge, overrides_of, flags_of, resolve_node_sync-merge,
}
use xray_checker_tg_bot.Nodes.Store.{NodesStore}
use xray_checker_tg_bot.Nodes.Report.{
  ReportProxy, ReportPayload, proxy_metrics_from_report, diag_of, enrich, proxy_of_diag,
}
use xray_checker_tg_bot.Nodes.Report.Identity.{ids, proxy_metrics_from_report-disjoint}
use xray_checker_tg_bot.Nodes.Report.Diagnosis.{shown_status, diag_of-proxy_of_diag}
use xray_checker_tg_bot.Nodes.Registry.{
  set_nodes_store, new_node, NodeState, up, down, Registry, Request, panic, bearer, new_registry,
  register_node, remove_node, handle_report, asn_of, in_store, finish, authenticate, match_hash,
}
use xray_checker_tg_bot.Nodes.Registry.Health.{sweep_stale, second}
use xray_checker_tg_bot.Nodes.Registry.Sweep.{silence, sweep_stale_lem}
use xray_checker_tg_bot.Nodes.Registry.Ingest.{
  attach, here, next, register, remove, sweep, Reach-ne-panic,
}
use xray_checker_tg_bot.Nodes.Registry.Lifecycle.{is_accepted, handle_report-register_node}
use xray_checker_tg_bot.Nodes.Registry.Defects.{removed_node_panics}

-- A stand-in for SHA-256.
abbrev hash : Text → Text
hash t = b'#' ∷ t

abbrev fi : NodeConfig
fi = record { name = codes "fi"; token = codes "s1" }

abbrev de : NodeConfig
de = record { name = codes "de"; token = codes "s2" }

parse_nodes_lem_example :
    All IsComplete (fi ∷ de ∷ [])
    × Distinct (codes "fi" ∷ codes "de" ∷ [])
    × Distinct (codes "s1" ∷ codes "s2" ∷ [])
unfolding parse_nodes parse_from parse_entry check_parts trim_space trim_left is_space split eqt
    contains
parse_nodes_lem_example = parse_nodes_lem (codes "fi|s1" ∷ codes " de | s2" ∷ []) refl

fi-IsPlain : IsPlain fi
unfolding print_entry trim_space trim_left is_space has_char eqt
fi-IsPlain = record {
  complete = (refl, refl);
  name_trimmed = refl;
  token_trimmed = refl;
  entry_trimmed = refl;
  name_plain = refl;
  token_plain = refl;
}

parse_nodes-print_entry_example : parse_nodes (print_entry fi ∷ []) ≡ ok (fi ∷ [])
unfolding contains
parse_nodes-print_entry_example =
    parse_nodes-print_entry (fi ∷ []) (fi-IsPlain, tt) (refl, tt) (refl, tt)

abbrev rp : ReportProxy
rp = record {
  stable_id = codes "a1";
  name = codes "Alpha";
  sub_name = [];
  group_name = [];
  protocol = codes "vless";
  address = codes "h:443";
  online = true;
  disabled = false;
  latency_ms = 80;
  last_check = pos 0;
  last_error_category = pos 0;
  last_error_msg = [];
  node_health = none;
  targets = [];
  verdict = [];
  check_host = none;
}

abbrev payload : ReportPayload
payload = record {
  version = codes "1";
  check_interval_sec = pos 60;
  check_method = codes "ip";
  host_ip = [];
  proxies = rp ∷ [];
  check_host_audits = none;
}

abbrev request : Request
request = record { is_post = true; authorization = bearer ++ codes "s1"; body = some payload }

abbrev empty : Registry
empty = new_registry hash [] none none

abbrev registered : Registry
registered = (register_node hash true fi empty).0

abbrev swept : Registry
swept = (sweep_stale 9 (remove_node true (codes "fi") registered).0).0

abbrev disk_nodes : NodesStore
disk_nodes = record {
  path = codes "nodes.json";
  records = (codes "de", record { token_hash = codes "sha256:#s1"; settings = none }) ∷ [];
}

Reach-ne-panic_example :
    (handle_report hash 7 request (set_nodes_store (some disk_nodes) swept)).1 ≢ panic
Reach-ne-panic_example =
    Reach-ne-panic hash none none
      (next
        (next (next (next here (register true fi empty)) (remove true (codes "fi") registered))
          (sweep 9 (remove_node true (codes "fi") registered).0))
        (attach (some disk_nodes) swept))
      7 request

handle_report-register_node_example :
    (st : NodeState) × (lookup (codes "fi") (handle_report hash 7 request registered).0.nodes
      ≡ some st)
    × (is_accepted (handle_report hash 7 request registered).1 ≡ true)
    × (st.status ≡ up)
    × (st.last_report ≡ 7)
    × (st.snapshot ≡ proxy_metrics_from_report (codes "fi") [] payload)
unfolding trim_space trim_left is_space new_registry register_node in_store finish asn_of eqt lookup
handle_report-register_node_example = handle_report-register_node hash true fi empty 7 payload refl

removed_node_panics_example :
    (handle_report hash 7 request
      (remove_node true (codes "fi") (new_registry hash (fi ∷ []) none none)).0).1
    ≡ panic
unfolding trim_space trim_left is_space new_registry new_node lookup eqt insert erase authenticate
    match_hash has_prefix drop_prefix
removed_node_panics_example =
    removed_node_panics hash (codes "fi") fi.token (new_registry hash (fi ∷ []) none none) true 7
      payload {st = new_node fi} refl (λ e. ground arith) (λ e. ground arith) refl refl refl

-- A node whose last report came at the time 0, with an interval of a second.
abbrev fi_up : NodeState
fi_up = record {
  cfg = fi;
  status = up;
  last_report = 0;
  interval_sec = pos 1;
  version = [];
  host_ip = [];
  asn = [];
  snapshot = no_metric ∷ [];
  diag_reports = [];
  grace_pending = false;
}

abbrev with_fi : Registry
with_fi = record {
  nodes = (codes "fi", fi_up) ∷ [];
  by_token = [];
  subs = none;
  asn = none;
  has_on_update = false;
  cfg_source = none;
  nodes_store = none;
  stale_cap = 0;
  audits = [];
}

abbrev later : ℕ
later = 100 * 1000000000

sweep_stale_lem_example :
    ((contains (codes "fi") (sweep_stale later with_fi).1 ≡ true)
      ↔ ((true ≡ true) × (0 + silence 0 1 * second < later)))
    × (lookup (codes "fi") (sweep_stale later with_fi).0.nodes
        ≡ some (
            if contains (codes "fi") (sweep_stale later with_fi).1
            then record fi_up { status = down; grace_pending = true }
            else fi_up))
unfolding contains lookup eqt silence
sweep_stale_lem_example =
    sweep_stale_lem later 1 (codes "fi") with_fi {st = fi_up} (refl, tt) refl refl (ground arith)

abbrev no_settings : NodeSettings
no_settings = record {
  check_interval_sec = none;
  check_method = some (codes "status");
  ip_check_url = none;
  status_check_url = none;
  download_url = none;
  proxy_timeout_sec = some (pos 9);
  download_timeout_sec = none;
  download_min_size = none;
  check_concurrency = some (pos 4);
  subs_update_interval_sec = none;
  target_urls = none;
}

abbrev base : NodeConfigSync
base = record {
  sync_enabled = true;
  disabled_proxies = [];
  disabled_hosts = [];
  check_host_bg_enabled = false;
  check_host_interval_hours = pos 6;
  check_interval_sec = pos 300;
  target_urls = [];
  quiet_hours_enabled = false;
  alert_mode = codes "clean";
  node_alerts_enabled = true;
  node_proxy_alerts_chat = true;
  node_stale_timeout_sec = pos 0;
  check_method = codes "ip";
  ip_check_url = codes "https://a";
  status_check_url = codes "https://b";
  download_url = codes "https://c";
  proxy_timeout_sec = pos 30;
  download_timeout_sec = pos 60;
  download_min_size = pos 100;
  check_concurrency = pos 0;
  subs_update_interval_sec = pos 300;
}

abbrev settings_of_node : CheckSettings
settings_of_node = record {
  check_method = codes "ip";
  ip_check = codes "https://a";
  gen_method_url = codes "https://b";
  download_url = codes "https://c";
  ip_check_timeout = pos 30;
  http_client_timeout = pos 30000000000;
  download_timeout = pos 60;
  download_min_size = pos 100;
  check_concurrency = pos 0;
}

resolve_node_sync-merge_example :
    (overrides_of (resolve_node_sync base (some no_settings))
      ≡ merge (overrides_of base) no_settings)
    × (flags_of (resolve_node_sync base (some no_settings)) ≡ flags_of base)
    × (resolve_node_sync (resolve_node_sync base (some no_settings)) (some no_settings)
        ≡ resolve_node_sync base (some (merge no_settings no_settings)))
resolve_node_sync-merge_example = resolve_node_sync-merge base no_settings no_settings

set_runtime_check_settings-IsValid_example :
    IsValid (set_runtime_check_settings (sync_to_runtime_settings base) settings_of_node)
unfolding is_check_method is_http_url eqt has_prefix client_timeout wrap64 scale_add
set_runtime_check_settings-IsValid_example =
    set_runtime_check_settings-IsValid (sync_to_runtime_settings base) settings_of_node (record {
      check_method = refl;
      ip_check = refl;
      gen_method_url = refl;
      download_url = refl;
      ip_check_timeout = refl;
      http_client_timeout = refl;
      download_timeout = refl;
      download_min_size = refl;
      check_concurrency = refl;
    })

proxy_metrics_from_report-disjoint_example :
    All
      (λ (pm : ProxyMetric).
        contains pm.stable_id (ids (proxy_metrics_from_report (codes "de") [] payload)) ≡ false)
      (proxy_metrics_from_report (codes "fi") [] payload)
unfolding has_char
proxy_metrics_from_report-disjoint_example =
    proxy_metrics_from_report-disjoint (codes "fi") (codes "de") [] [] payload payload
      (λ e. ground arith) (refl, tt) (refl, tt)

abbrev diagnosis : ProxyDiagReport
diagnosis = record {
  proxy_name = codes "Alpha";
  protocol = codes "vless";
  server = codes "h";
  port = pos 443;
  stable_id = codes "a1";
  node_health = no_health;
  check_host = none;
  targets = [];
  status = codes "degraded";
  verdict = [];
  disabled = false;
}

diag_of-proxy_of_diag_example :
    diag_of (enrich none (proxy_of_diag (pos 0) diagnosis))
    ≡ record diagnosis { status = shown_status diagnosis }
unfolding has_char
diag_of-proxy_of_diag_example = diag_of-proxy_of_diag (pos 0) diagnosis none (record {
  server = record { not_empty = λ e. ground arith; no_open = refl; no_close = refl };
  port = 442;
  has_port = refl;
  fits = ground arith;
})
