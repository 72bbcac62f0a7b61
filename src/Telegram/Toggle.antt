-- ===== src/Telegram/Toggle.antt =====
-- telegram/config.go: the hosts and proxies that the operator disabled. `to_lower` is the
-- strings.ToLower of Go's Unicode tables.
pub mod Flips
use xray_checker_tg_bot.Base.{
  Text, Bool, true, false, ◌||◌, not, List, [], ◌∷◌, ◌++◌, eqt, trim_space, contains, if◌then◌else◌,
}

-- IsProxyDisabled
unfoldable pub is_proxy_disabled : List Text → Text → Bool
is_proxy_disabled disabled stable_id = contains stable_id disabled

-- The loop of ToggleProxy: the entries that stay.
unfoldable pub without : Text → List Text → List Text
without id [] = []
without id (x ∷ xs) = let rest = without id xs in if eqt x id then rest else x ∷ rest

-- ToggleProxy: the new list, and whether the proxy is disabled now
unfoldable pub toggle_proxy : List Text → Text → List Text × Bool
unfolding without
toggle_proxy disabled raw =
    let id = trim_space raw in
    if contains id disabled
    then (without id disabled, false)
    else (without id disabled ++ (id ∷ []), true)

module _ (to_lower : Text → Text) where
  abbrev pub normal : Text → Text
  normal host = to_lower (trim_space host)

  -- the loop of IsHostDisabled, for a host in normal form
  unfoldable pub is_listed : List Text → Text → Bool
  is_listed [] host = false
  is_listed (h ∷ hs) host = if eqt (normal h) host then true else is_listed hs host

  -- IsHostDisabled
  unfoldable pub is_host_disabled : List Text → Text → Bool
  unfolding is_listed
  is_host_disabled disabled server = is_listed disabled (normal server)

  -- the loop of ToggleHost
  unfoldable pub without_host : Text → List Text → List Text
  without_host host [] = []
  without_host host (h ∷ hs) =
      let rest = without_host host hs in if eqt (normal h) host then rest else h ∷ rest

  -- ToggleHost: the new list, and whether the host is disabled now
  unfoldable pub toggle_host : List Text → Text → List Text × Bool
  unfolding without_host is_listed
  toggle_host disabled raw =
      let host = normal raw in
      if is_listed disabled host
      then (without_host host disabled, false)
      else (without_host host disabled ++ (host ∷ []), true)

  -- IsDisabled
  unfoldable pub is_disabled : List Text → List Text → Text → Text → Bool
  unfolding is_host_disabled is_proxy_disabled
  is_disabled hosts proxies server stable_id =
      is_host_disabled hosts server || is_proxy_disabled proxies stable_id
