-- ===== src/Nodes/Report.antt =====
-- nodes/report.go: the report that a node posts, and what the master makes of it. The optional
-- pointers of the wire format are `Option`s; JSON itself is the standard library's.
pub mod Identity
pub mod Diagnosis
use xray_checker_tg_bot.Base.{
  Text, codes, ℕ, ◌*◌, ◌/◌, ℤ, pos, negsuc, Bool, true, false, ◌&&◌, ◌||◌, not, Option, none, some,
  List, [], ◌∷◌, ◌++◌, map, eqt, if◌then◌else◌, ltb, ◌==◌, cut, has_char, print_int, atoi,
}
use mathlib.Core.List.{foldl}
use xray_checker_tg_bot.Base.Dict.{Dict, lookup, insert}
use xray_checker_tg_bot.Checker.Types.{
  TargetDiagResult, ProbeHealth, no_health, CheckHostSummary, ProxyDiagReport, ProxyMetric,
  no_metric,
}
use xray_checker_tg_bot.Checker.Runtime.{is_positive}

-- ReportProxy
pub record ReportProxy : Type 0 where
  pub stable_id : Text
  pub name : Text
  pub sub_name : Text
  pub group_name : Text
  pub protocol : Text
  pub address : Text
  pub online : Bool
  pub disabled : Bool
  pub latency_ms : ℕ
  pub last_check : ℤ
  pub last_error_category : ℤ
  pub last_error_msg : Text
  pub node_health : Option ProbeHealth
  pub targets : List TargetDiagResult
  pub verdict : Text
  pub check_host : Option CheckHostSummary

-- ReportPayload
pub record ReportPayload : Type 0 where
  pub version : Text
  pub check_interval_sec : ℤ
  pub check_method : Text
  pub host_ip : Text
  pub proxies : List ReportProxy
  pub check_host_audits : Option (Dict CheckHostSummary)

unfoldable pub report_proxy : ProxyMetric → ReportProxy
report_proxy m = record {
  stable_id = m.stable_id;
  name = m.name;
  sub_name = m.sub_name;
  group_name = m.group_name;
  protocol = m.protocol;
  address = m.address;
  online = m.online;
  disabled = m.disabled;
  latency_ms = m.latency_ms;
  last_check = m.last_check_sec;
  last_error_category = m.last_error_category;
  last_error_msg = m.last_error_msg;
  node_health = none;
  targets = [];
  verdict = [];
  check_host = none;
}

-- BuildReport
unfoldable pub build_report : List ProxyMetric → Text → ℤ → Text → Text → ReportPayload
unfolding report_proxy
build_report pm version interval_sec check_method host_ip = record {
  version = version;
  check_interval_sec = interval_sec;
  check_method = check_method;
  host_ip = host_ip;
  proxies = map report_proxy pm;
  check_host_audits = none;
}

-- the identity of a remote proxy on the master
unfoldable pub namespaced : Text → Text → Text
namespaced node_name stable_id = node_name ++ (b'/' ∷ stable_id)

unfoldable pub metric_of : Text → Text → ReportProxy → ProxyMetric
unfolding namespaced
metric_of node_name node_asn rp = record no_metric {
  protocol = rp.protocol;
  address = rp.address;
  name = rp.name;
  sub_name = rp.sub_name;
  stable_id = namespaced node_name rp.stable_id;
  group_name = rp.group_name;
  online = rp.online;
  disabled = rp.disabled;
  latency_ms = rp.latency_ms;
  last_error_category = rp.last_error_category;
  last_error_msg = rp.last_error_msg;
  last_check_sec = rp.last_check;
  node_name = node_name;
  node_asn = node_asn;
}

-- ProxyMetricsFromReport
unfoldable pub proxy_metrics_from_report : Text → Text → ReportPayload → List ProxyMetric
unfolding metric_of
proxy_metrics_from_report node_name node_asn p = map (metric_of node_name node_asn) p.proxies

-- net.JoinHostPort
unfoldable pub join_host_port : Text → Text → Text
join_host_port host port =
    if has_char b':' host then (b'[' ∷ host) ++ (b']' ∷ b':' ∷ port) else host ++ (b':' ∷ port)

-- what follows `[` in net.SplitHostPort, cut at the first `]`
unfoldable pub split_bracketed : Text × List Text → Text × Text
split_bracketed (host, ((colon ∷ port) ∷ [])) =
    if (colon == b':') && not (has_char b':' port) && not (has_char b'[' (host ++ port))
    then (host, port)
    else ([], [])
split_bracketed _ = ([], [])

-- the unbracketed case, cut at the colons
unfoldable pub split_plain : Text × List Text → Text × Text
split_plain (host, port ∷ []) =
    if has_char b'[' (host ++ port) || has_char b']' (host ++ port) then ([], []) else (host, port)
split_plain _ = ([], [])

-- net.SplitHostPort: two empty texts with every error
unfoldable pub split_host_port : Text → Text × Text
unfolding split_bracketed split_plain
split_host_port [] = ([], [])
split_host_port (c ∷ s) =
    if c == b'[' then split_bracketed (cut b']' s) else split_plain (cut b':' (c ∷ s))

-- the latency of the first target that answered, in milliseconds
unfoldable pub first_latency : List TargetDiagResult → ℕ
first_latency [] = 0
first_latency (t ∷ ts) = if t.success then t.latency / 1_000_000 else first_latency ts

-- `rep.Server`, with the port if there is one
unfoldable pub address_of : Text → ℤ → Text
unfolding join_host_port
address_of server port = if is_positive port then join_host_port server (print_int port) else server

-- the first part of the loop of BuildReportFromDiagWithMetrics
unfoldable pub proxy_of_diag : ℤ → ProxyDiagReport → ReportProxy
unfolding first_latency address_of
proxy_of_diag now rep = record {
  stable_id = rep.stable_id;
  name = rep.proxy_name;
  sub_name = [];
  group_name = [];
  protocol = rep.protocol;
  address = address_of rep.server rep.port;
  online = eqt rep.status (codes "online") || eqt rep.status (codes "degraded");
  disabled = rep.disabled;
  latency_ms = first_latency rep.targets;
  last_check = now;
  last_error_category = pos 0;
  last_error_msg = rep.verdict;
  node_health = some rep.node_health;
  targets = rep.targets;
  verdict = rep.verdict;
  check_host = rep.check_host;
}

-- `if m, ok := snapMap[rep.StableID]; ok`
unfoldable pub enrich : Option ProxyMetric → ReportProxy → ReportProxy
enrich none rp = rp
enrich (some m) rp = record rp {
  sub_name = m.sub_name;
  group_name = m.group_name;
  last_error_category = m.last_error_category;
  last_check = if is_positive m.last_check_sec then m.last_check_sec else rp.last_check;
}

-- snapMap: of two metrics with one identity the later one stays
unfoldable pub snap_map : List ProxyMetric → Dict ProxyMetric
snap_map = foldl (λ m pm. insert pm.stable_id pm m) []

-- BuildReportFromDiagWithMetrics at the time `now`, in Unix seconds
unfoldable pub build_report_from_diag :
    ℤ → List ProxyDiagReport → List ProxyMetric → Text → ℤ → Text → Text → ReportPayload
unfolding proxy_of_diag enrich snap_map
build_report_from_diag now reports snap version interval_sec check_method host_ip =
    let snaps = snap_map snap in
    record {
      version = version;
      check_interval_sec = interval_sec;
      check_method = check_method;
      host_ip = host_ip;
      proxies = map (λ rep. enrich (lookup rep.stable_id snaps) (proxy_of_diag now rep)) reports;
      check_host_audits = none;
    }

unfoldable pub status_of : ReportProxy → Text
status_of rp =
    if rp.disabled
    then codes "disabled"
    else if not rp.online
    then codes "offline"
    else codes "online"

abbrev pub health_of : Option ProbeHealth → ProbeHealth
health_of none = no_health
health_of (some h) = h

abbrev pub int_or_zero : Option ℤ → ℤ
int_or_zero none = pos 0
int_or_zero (some n) = n

-- the host, or the whole address where it has no port
unfoldable pub server_of : Text → Text
unfolding split_host_port
server_of address =
    let server = (split_host_port address).0 in
    if eqt server [] && not (eqt address []) then address else server

unfoldable pub port_of : Text → ℤ
unfolding split_host_port
port_of address = int_or_zero (atoi (split_host_port address).1)

-- the targets of the report, or one that stands for its latency
unfoldable pub targets_of : ReportProxy → List TargetDiagResult → List TargetDiagResult
targets_of rp (t ∷ ts) = t ∷ ts
targets_of rp [] =
    if ltb 0 rp.latency_ms
    then record {
      url = codes "node-check";
      success = rp.online;
      status_code = pos 0;
      latency = rp.latency_ms * 1_000_000;
      error = rp.last_error_msg;
    }
      ∷ []
    else []

unfoldable pub diag_of : ReportProxy → ProxyDiagReport
unfolding status_of server_of port_of targets_of
diag_of rp = record {
  proxy_name = rp.name;
  protocol = rp.protocol;
  server = server_of rp.address;
  port = port_of rp.address;
  stable_id = rp.stable_id;
  node_health = health_of rp.node_health;
  check_host = rp.check_host;
  targets = targets_of rp rp.targets;
  status = status_of rp;
  verdict = if eqt rp.verdict [] then rp.last_error_msg else rp.verdict;
  disabled = rp.disabled;
}

-- ProxyDiagReportsFromReport
unfoldable pub proxy_diag_reports_from_report : ReportPayload → List ProxyDiagReport
unfolding diag_of
proxy_diag_reports_from_report p = map diag_of p.proxies
