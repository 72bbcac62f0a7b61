-- ===== src/Nodes/Settings.antt =====
-- The per-node overrides of the check settings (nodes/nodes_store.go) and their merge into the
-- payload that the master sends to a node (ResolveNodeSync of nodes/report.go).
pub mod Merge
use xray_checker_tg_bot.Base.{Text, ℤ, Bool, List, [], ◌∷◌, Option, none, some}

-- NodeSettings: `none` inherits from the master.
pub record NodeSettings : Type 0 where
  pub check_interval_sec : Option ℤ
  pub check_method : Option Text
  pub ip_check_url : Option Text
  pub status_check_url : Option Text
  pub download_url : Option Text
  pub proxy_timeout_sec : Option ℤ
  pub download_timeout_sec : Option ℤ
  pub download_min_size : Option ℤ
  pub check_concurrency : Option ℤ
  pub subs_update_interval_sec : Option ℤ
  pub target_urls : Option (List Text)

-- `append([]string(nil), urls...)` under `urls != nil`: an empty slice becomes nil.
unfoldable pub copy_urls : Option (List Text) → Option (List Text)
copy_urls none = none
copy_urls (some []) = none
copy_urls (some (u ∷ us)) = some (u ∷ us)

-- clone
unfoldable pub clone_fields : NodeSettings → NodeSettings
clone_fields ns = record ns { target_urls = copy_urls ns.target_urls }

unfoldable pub clone : Option NodeSettings → Option NodeSettings
unfolding clone_fields
clone none = none
clone (some ns) = some (clone_fields ns)

-- NodeConfigSync
pub record NodeConfigSync : Type 0 where
  pub sync_enabled : Bool
  pub disabled_proxies : List Text
  pub disabled_hosts : List Text
  pub check_host_bg_enabled : Bool
  pub check_host_interval_hours : ℤ
  pub check_interval_sec : ℤ
  pub target_urls : List Text
  pub quiet_hours_enabled : Bool
  pub alert_mode : Text
  pub node_alerts_enabled : Bool
  pub node_proxy_alerts_chat : Bool
  pub node_stale_timeout_sec : ℤ
  pub check_method : Text
  pub ip_check_url : Text
  pub status_check_url : Text
  pub download_url : Text
  pub proxy_timeout_sec : ℤ
  pub download_timeout_sec : ℤ
  pub download_min_size : ℤ
  pub check_concurrency : ℤ
  pub subs_update_interval_sec : ℤ

-- `if ns.X != nil { base.X = *ns.X }`
abbrev pub override {ℓ} : {A : Type ℓ} → Option A → A → A
override none base = base
override (some value) base = value

-- The assignments of ResolveNodeSync.
unfoldable pub apply_settings : NodeSettings → NodeConfigSync → NodeConfigSync
apply_settings ns base = record base {
  check_interval_sec = override ns.check_interval_sec base.check_interval_sec;
  check_method = override ns.check_method base.check_method;
  ip_check_url = override ns.ip_check_url base.ip_check_url;
  status_check_url = override ns.status_check_url base.status_check_url;
  download_url = override ns.download_url base.download_url;
  proxy_timeout_sec = override ns.proxy_timeout_sec base.proxy_timeout_sec;
  download_timeout_sec = override ns.download_timeout_sec base.download_timeout_sec;
  download_min_size = override ns.download_min_size base.download_min_size;
  check_concurrency = override ns.check_concurrency base.check_concurrency;
  subs_update_interval_sec = override ns.subs_update_interval_sec base.subs_update_interval_sec;
  target_urls = override ns.target_urls base.target_urls;
}

-- ResolveNodeSync: no settings at all leave the base as it is.
unfoldable pub resolve_node_sync : NodeConfigSync → Option NodeSettings → NodeConfigSync
unfolding apply_settings
resolve_node_sync base none = base
resolve_node_sync base (some ns) = apply_settings ns base

-- RuntimeCheckSettings of checker/checker.go: `none` is a nil pointer, which leaves a setting.
pub record RuntimeCheckSettings : Type 0 where
  pub check_method : Option Text
  pub ip_check_url : Option Text
  pub status_check_url : Option Text
  pub download_url : Option Text
  pub proxy_timeout_sec : Option ℤ
  pub download_timeout_sec : Option ℤ
  pub download_min_size : Option ℤ
  pub check_concurrency : Option ℤ

-- SyncToRuntimeSettings
unfoldable pub sync_to_runtime_settings : NodeConfigSync → RuntimeCheckSettings
sync_to_runtime_settings cs = record {
  check_method = some cs.check_method;
  ip_check_url = some cs.ip_check_url;
  status_check_url = some cs.status_check_url;
  download_url = some cs.download_url;
  proxy_timeout_sec = some cs.proxy_timeout_sec;
  download_timeout_sec = some cs.download_timeout_sec;
  download_min_size = some cs.download_min_size;
  check_concurrency = some cs.check_concurrency;
}
