-- ===== src/Checker/Runtime.antt =====
-- SetRuntimeCheckSettings (checker/checker.go): the check settings that a node takes over from
-- its master. The warnings that it logs are not modelled.
pub mod Keeps
use xray_checker_tg_bot.Base.{
  Text, ℤ, pos, negsuc, zero, suc, ℕ, Bool, true, false, ◌||◌, Option, none, some, codes, eqt,
  has_prefix, trim_space, wrap64, scale_add, [], if◌then◌else◌,
}
use xray_checker_tg_bot.Nodes.Settings.{RuntimeCheckSettings}

-- The fields of ProxyChecker that the settings change: timeouts in seconds, and the timeout of the
-- HTTP client in nanoseconds.
pub record CheckSettings : Type 0 where
  pub check_method : Text
  pub ip_check : Text
  pub gen_method_url : Text
  pub download_url : Text
  pub ip_check_timeout : ℤ
  pub http_client_timeout : ℤ
  pub download_timeout : ℤ
  pub download_min_size : ℤ
  pub check_concurrency : ℤ

abbrev pub is_positive : ℤ → Bool
is_positive (pos zero) = false
is_positive (pos (suc n)) = true
is_positive (negsuc n) = false

abbrev pub is_nonnegative : ℤ → Bool
is_nonnegative (pos n) = true
is_nonnegative (negsuc n) = false

-- `strings.HasPrefix(u, "http://") || strings.HasPrefix(u, "https://")`
unfoldable pub is_http_url : Text → Bool
is_http_url u = has_prefix u (codes "http://") || has_prefix u (codes "https://")

unfoldable pub is_check_method : Text → Bool
is_check_method m = eqt m (codes "ip") || eqt m (codes "status") || eqt m (codes "download")

-- A nil field keeps the current value, and so does a value that the test refuses.
abbrev pub apply_if {ℓ} : {A : Type ℓ} → (A → Bool) → A → Option A → A
apply_if test current none = current
apply_if test current (some v) = if test v then v else current

-- the local function `applyURL`
unfoldable pub apply_url : Text → Option Text → Text
apply_url current none = current
apply_url current (some v) =
    let u = trim_space v in if eqt u [] then current else if is_http_url u then u else current

-- `time.Second * time.Duration(seconds)`, in 64 bits
unfoldable pub client_timeout : ℤ → ℤ
client_timeout seconds = wrap64 (scale_add 1000000000 0 seconds)

-- the HTTP client, which is rebuilt with the proxy timeout
unfoldable pub rebuilt_client : CheckSettings → Option ℤ → ℤ
unfolding client_timeout
rebuilt_client pc none = pc.http_client_timeout
rebuilt_client pc (some seconds) =
    if is_positive seconds then client_timeout seconds else pc.http_client_timeout

-- SetRuntimeCheckSettings
unfoldable pub set_runtime_check_settings : RuntimeCheckSettings → CheckSettings → CheckSettings
unfolding apply_url rebuilt_client
set_runtime_check_settings s pc = record {
  check_method = apply_if is_check_method pc.check_method s.check_method;
  ip_check = apply_url pc.ip_check s.ip_check_url;
  gen_method_url = apply_url pc.gen_method_url s.status_check_url;
  download_url = apply_url pc.download_url s.download_url;
  ip_check_timeout = apply_if is_positive pc.ip_check_timeout s.proxy_timeout_sec;
  http_client_timeout = rebuilt_client pc s.proxy_timeout_sec;
  download_timeout = apply_if is_positive pc.download_timeout s.download_timeout_sec;
  download_min_size = apply_if is_nonnegative pc.download_min_size s.download_min_size;
  check_concurrency = apply_if is_nonnegative pc.check_concurrency s.check_concurrency;
}
