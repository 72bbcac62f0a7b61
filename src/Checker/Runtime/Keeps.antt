-- ===== src/Checker/Runtime/Keeps.antt =====
-- When the check settings of a node are valid, and what a payload does to that.
use xray_checker_tg_bot.Base.{
  Text, ℤ, Bool, true, Option, none, some, ◌≡◌, refl, arith, Bool-cases, inl, inr,
}
use xray_checker_tg_bot.Nodes.Settings.{RuntimeCheckSettings}
use xray_checker_tg_bot.Checker.Runtime.{
  CheckSettings, is_positive, is_nonnegative, is_http_url, is_check_method, apply_if, apply_url,
  client_timeout, rebuilt_client, set_runtime_check_settings,
}

-- The settings with which a checker can run.
pub record IsValid (pc : CheckSettings) : Type 0 where
  pub check_method : is_check_method pc.check_method ≡ true
  pub ip_check : is_http_url pc.ip_check ≡ true
  pub gen_method_url : is_http_url pc.gen_method_url ≡ true
  pub download_url : is_http_url pc.download_url ≡ true
  pub ip_check_timeout : is_positive pc.ip_check_timeout ≡ true
  pub http_client_timeout : pc.http_client_timeout ≡ client_timeout pc.ip_check_timeout
  pub download_timeout : is_positive pc.download_timeout ≡ true
  pub download_min_size : is_nonnegative pc.download_min_size ≡ true
  pub check_concurrency : is_nonnegative pc.check_concurrency ≡ true

apply_if-holds {ℓ} :
    {A : Type ℓ} (test : A → Bool) (current : A) (v : Option A)
    → test current ≡ true
    → test (apply_if test current v) ≡ true
apply_if-holds test current none h = h
apply_if-holds test current (some v) h = ground arith

apply_url-holds :
    (current : Text) (v : Option Text)
    → is_http_url current ≡ true
    → is_http_url (apply_url current v) ≡ true
unfolding apply_url
apply_url-holds current none h = h
apply_url-holds current (some v) h = ground arith

-- The client follows the proxy timeout.
rebuilt_client-follows :
    (pc : CheckSettings) (v : Option ℤ)
    → pc.http_client_timeout ≡ client_timeout pc.ip_check_timeout
    → rebuilt_client pc v ≡ client_timeout (apply_if is_positive pc.ip_check_timeout v)
unfolding rebuilt_client
rebuilt_client-follows pc none h = h
rebuilt_client-follows pc (some seconds) h = elim (Bool-cases (is_positive seconds)) [
  | inl good ↦ rw good refl
  | inr bad ↦ rw bad h
]

-- Whatever payload arrives, a checker with valid settings has valid settings after it: the method
-- is known, the URLs are http or https, the timeouts in seconds are positive, the limits are not
-- negative, and the HTTP client has the proxy timeout, in nanoseconds as 64 bits hold them.
pub set_runtime_check_settings-IsValid :
    (s : RuntimeCheckSettings) (pc : CheckSettings)
    → IsValid pc
    → IsValid (set_runtime_check_settings s pc)
unfolding set_runtime_check_settings
set_runtime_check_settings-IsValid s pc v = record {
  check_method = apply_if-holds is_check_method pc.check_method s.check_method v.check_method;
  ip_check = apply_url-holds pc.ip_check s.ip_check_url v.ip_check;
  gen_method_url = apply_url-holds pc.gen_method_url s.status_check_url v.gen_method_url;
  download_url = apply_url-holds pc.download_url s.download_url v.download_url;
  ip_check_timeout =
      apply_if-holds is_positive pc.ip_check_timeout s.proxy_timeout_sec v.ip_check_timeout;
  http_client_timeout = rebuilt_client-follows pc s.proxy_timeout_sec v.http_client_timeout;
  download_timeout =
      apply_if-holds is_positive pc.download_timeout s.download_timeout_sec v.download_timeout;
  download_min_size =
      apply_if-holds is_nonnegative pc.download_min_size s.download_min_size v.download_min_size;
  check_concurrency =
      apply_if-holds is_nonnegative pc.check_concurrency s.check_concurrency v.check_concurrency;
}
