-- ===== src/Nodes/Settings/Merge.antt =====
-- What the overrides of a node do to the settings of its master, and what they leave.
use xray_checker_tg_bot.Base.{Text, ℤ, Bool, List, Option, none, some, ◌≡◌, refl, arith}
use xray_checker_tg_bot.Nodes.Settings.{NodeSettings, NodeConfigSync, resolve_node_sync}

abbrev later {ℓ} : {A : Type ℓ} → Option A → Option A → Option A
later first none = first
later first (some v) = some v

-- The settings that have the fields of `second` where it has any, and else those of `first`.
unfoldable pub merge : NodeSettings → NodeSettings → NodeSettings
merge first second = record {
  check_interval_sec = later first.check_interval_sec second.check_interval_sec;
  check_method = later first.check_method second.check_method;
  ip_check_url = later first.ip_check_url second.ip_check_url;
  status_check_url = later first.status_check_url second.status_check_url;
  download_url = later first.download_url second.download_url;
  proxy_timeout_sec = later first.proxy_timeout_sec second.proxy_timeout_sec;
  download_timeout_sec = later first.download_timeout_sec second.download_timeout_sec;
  download_min_size = later first.download_min_size second.download_min_size;
  check_concurrency = later first.check_concurrency second.check_concurrency;
  subs_update_interval_sec = later first.subs_update_interval_sec second.subs_update_interval_sec;
  target_urls = later first.target_urls second.target_urls;
}

-- The values of a payload as overrides of every field.
unfoldable pub overrides_of : NodeConfigSync → NodeSettings
overrides_of cs = record {
  check_interval_sec = some cs.check_interval_sec;
  check_method = some cs.check_method;
  ip_check_url = some cs.ip_check_url;
  status_check_url = some cs.status_check_url;
  download_url = some cs.download_url;
  proxy_timeout_sec = some cs.proxy_timeout_sec;
  download_timeout_sec = some cs.download_timeout_sec;
  download_min_size = some cs.download_min_size;
  check_concurrency = some cs.check_concurrency;
  subs_update_interval_sec = some cs.subs_update_interval_sec;
  target_urls = some cs.target_urls;
}

-- The fields that no override names: the flags of the bot and of its alerts.
pub record Flags : Type 0 where
  pub sync_enabled : Bool
  pub disabled_proxies : List Text
  pub disabled_hosts : List Text
  pub check_host_bg_enabled : Bool
  pub check_host_interval_hours : ℤ
  pub quiet_hours_enabled : Bool
  pub alert_mode : Text
  pub node_alerts_enabled : Bool
  pub node_proxy_alerts_chat : Bool
  pub node_stale_timeout_sec : ℤ

unfoldable pub flags_of : NodeConfigSync → Flags
flags_of cs = record {
  sync_enabled = cs.sync_enabled;
  disabled_proxies = cs.disabled_proxies;
  disabled_hosts = cs.disabled_hosts;
  check_host_bg_enabled = cs.check_host_bg_enabled;
  check_host_interval_hours = cs.check_host_interval_hours;
  quiet_hours_enabled = cs.quiet_hours_enabled;
  alert_mode = cs.alert_mode;
  node_alerts_enabled = cs.node_alerts_enabled;
  node_proxy_alerts_chat = cs.node_proxy_alerts_chat;
  node_stale_timeout_sec = cs.node_stale_timeout_sec;
}

-- The payload that the master resolves for a node has the override of every field that has one, the
-- value of the base in every other field, and the flags of the base. To resolve twice is to resolve
-- the merge, in which the later override wins.
pub resolve_node_sync-merge :
    (base : NodeConfigSync) (first second : NodeSettings)
    → (overrides_of (resolve_node_sync base (some first)) ≡ merge (overrides_of base) first)
      × (flags_of (resolve_node_sync base (some first)) ≡ flags_of base)
      × (resolve_node_sync (resolve_node_sync base (some first)) (some second)
          ≡ resolve_node_sync base (some (merge first second)))
unfolding resolve_node_sync merge overrides_of flags_of
resolve_node_sync-merge base first second = (ground arith, refl, ground arith)
