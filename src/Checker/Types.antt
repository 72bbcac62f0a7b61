-- ===== src/Checker/Types.antt =====
-- The data of a diagnosis (checker/target.go, checker/checkhost.go) and the metrics snapshot of a
-- proxy (metrics/metrics.go). Durations and latencies are whole numbers of their unit: the
-- checker fills `LatencyMs` with `float64(latency.Milliseconds())`.
use xray_checker_tg_bot.Base.{Text, ℕ, ℤ, pos, Bool, false, Option, List, []}
use xray_checker_tg_bot.Base.Dict.{Dict}

-- TargetDiagResult
pub record TargetDiagResult : Type 0 where
  pub url : Text
  pub success : Bool
  pub status_code : ℤ
  pub latency : ℕ
  pub error : Text

-- NodeHealth of checker/target.go
pub record ProbeHealth : Type 0 where
  pub resolved_ip : Text
  pub dns_err : Text
  pub dns_latency : ℕ
  pub tcp_ping : ℕ
  pub tcp_err : Text
  pub udp_ping : ℕ
  pub udp_err : Text
  pub tls_err : Text
  pub tls_latency : ℕ

-- the zero value of NodeHealth
abbrev pub no_health : ProbeHealth
no_health = record {
  resolved_ip = [];
  dns_err = [];
  dns_latency = 0;
  tcp_ping = 0;
  tcp_err = [];
  udp_ping = 0;
  udp_err = [];
  tls_err = [];
  tls_latency = 0;
}

-- CheckHostNodeResult
pub record CheckHostNodeResult : Type 0 where
  pub node : Text
  pub country : Text
  pub city : Text
  pub ip : Text
  pub success : Bool
  pub latency : ℕ
  pub error : Text

-- CheckHostSummary
pub record CheckHostSummary : Type 0 where
  pub host : Text
  pub request_id : Text
  pub permanent_link : Text
  pub results : List CheckHostNodeResult
  pub ru_available : Bool
  pub world_available : Bool
  pub verdict : Text

-- ProxyDiagReport
pub record ProxyDiagReport : Type 0 where
  pub proxy_name : Text
  pub protocol : Text
  pub server : Text
  pub port : ℤ
  pub stable_id : Text
  pub node_health : ProbeHealth
  pub check_host : Option CheckHostSummary
  pub targets : List TargetDiagResult
  pub status : Text
  pub verdict : Text
  pub disabled : Bool

-- ProxyMetric
pub record ProxyMetric : Type 0 where
  pub protocol : Text
  pub address : Text
  pub name : Text
  pub sub_name : Text
  pub stable_id : Text
  pub group_name : Text
  pub transport : Text
  pub security : Text
  pub custom_labels : Dict Text
  pub online : Bool
  pub can_connect : Bool
  pub can_transfer : Bool
  pub latency_ms : ℕ
  pub disabled : Bool
  pub last_error_category : ℤ
  pub last_error_msg : Text
  pub tls_handshake_ms : ℤ
  pub ttfb_ms : ℤ
  pub direct_probe_success : Bool
  pub direct_probe_rtt_ms : ℤ
  pub direct_probe_err : Text
  pub last_check_sec : ℤ
  pub node_name : Text
  pub node_asn : Text

-- the zero value of ProxyMetric
abbrev pub no_metric : ProxyMetric
no_metric = record {
  protocol = [];
  address = [];
  name = [];
  sub_name = [];
  stable_id = [];
  group_name = [];
  transport = [];
  security = [];
  custom_labels = [];
  online = false;
  can_connect = false;
  can_transfer = false;
  latency_ms = 0;
  disabled = false;
  last_error_category = pos 0;
  last_error_msg = [];
  tls_handshake_ms = pos 0;
  ttfb_ms = pos 0;
  direct_probe_success = false;
  direct_probe_rtt_ms = pos 0;
  direct_probe_err = [];
  last_check_sec = pos 0;
  node_name = [];
  node_asn = [];
}
