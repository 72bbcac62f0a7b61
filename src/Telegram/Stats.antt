-- ===== src/Telegram/Stats.antt =====
-- telegram/stats.go: checks, incidents and transitions of the proxies. Times are Unix seconds; the
-- counters do not reach the bounds of 64 bits. Writing the file (saveLocked) never changes a
-- result, and its errors are dropped.
pub mod Rolling
pub mod Quota
pub mod Outage
use xray_checker_tg_bot.Base.{
  Text, codes, ℕ, zero, suc, ◌+◌, ◌-◌, ◌*◌, ◌%◌, Bool, true, false, ◌&&◌, ◌||◌, not, Option, none,
  some, is_some, List, [], ◌∷◌, ◌++◌, map, eqt, length, contains, ltb, leb, ◌==◌, if◌then◌else◌,
}
use xray_checker_tg_bot.Base.Dict.{Dict, lookup, insert}
use xray_checker_tg_bot.Telegram.Stats.Rolling.{
  TransitionEvent, Events, LatencySamples, new_samples, add_sample, record_event, flap_count_24h,
}

-- Incident; `up_at` is 0 while the proxy is down.
pub record Incident : Type 0 where
  pub proxy_name : Text
  pub stable_id : Text
  pub down_at : ℕ
  pub up_at : ℕ
  pub duration_sec : ℕ
  pub reason : Text

-- ProxyStats
pub record ProxyStats : Type 0 where
  pub proxy_name : Text
  pub total_checks : ℕ
  pub successful_checks : ℕ
  pub total_downtime_sec : ℕ
  pub drop_count : ℕ
  pub last_check_at : ℕ
  pub currently_down : Bool
  pub current_down_at : ℕ

-- StatsStore; the incidents stand most recent first.
pub record StatsStore : Type 0 where
  pub incidents : List Incident
  pub stats : Dict ProxyStats
  pub rolling : Events
  pub latency_map : Dict LatencySamples

-- `&ProxyStats{ProxyName: name}`
abbrev pub new_stats : Text → ProxyStats
new_stats name = record {
  proxy_name = name;
  total_checks = 0;
  successful_checks = 0;
  total_downtime_sec = 0;
  drop_count = 0;
  last_check_at = 0;
  currently_down = false;
  current_down_at = 0;
}

-- The entry of a proxy, a new one if it has none, with its name brought up to date.
unfoldable pub stats_for : Text → Text → StatsStore → ProxyStats
stats_for stable_id name ss = elim (lookup stable_id ss.stats) [
  | none ↦ new_stats name
  | some ps ↦ record ps { proxy_name = name }
]

-- GetLatencySamples: a new buffer of 100 samples if the proxy has none
unfoldable pub samples_for : Text → Dict LatencySamples → LatencySamples
samples_for stable_id m = elim (lookup stable_id m) [ none ↦ new_samples 100 | some ls ↦ ls ]

-- RecordCheck at the time `now`
unfoldable pub record_check : ℕ → Text → Text → Bool → ℕ → StatsStore → StatsStore
unfolding stats_for samples_for
record_check now stable_id name online latency_ms ss =
    let ps = stats_for stable_id name ss in
    record ss {
      stats =
          insert stable_id
            (record ps {
              total_checks = ps.total_checks + 1;
              successful_checks = if online then ps.successful_checks + 1 else ps.successful_checks;
              last_check_at = now;
            })
            ss.stats;
      latency_map =
          if ltb 0 latency_ms
          then insert stable_id (add_sample latency_ms (samples_for stable_id ss.latency_map))
              ss.latency_map
          else ss.latency_map;
    }

abbrev pub max_per_proxy : ℕ
max_per_proxy = 15

abbrev pub max_global : ℕ
max_global = 100

unfoldable pub count_of : Text → List Incident → ℕ
count_of stable_id [] = 0
count_of stable_id (i ∷ is) =
    if eqt i.stable_id stable_id then suc (count_of stable_id is) else count_of stable_id is

-- the list without the last incident of the proxy
unfoldable pub drop_last : Text → List Incident → List Incident
unfolding count_of
drop_last stable_id [] = []
drop_last stable_id (i ∷ is) =
    if eqt i.stable_id stable_id && (count_of stable_id is == 0)
    then is
    else i ∷ drop_last stable_id is

unfoldable pub first : ℕ → List Incident → List Incident
first zero is = []
first (suc n) [] = []
first (suc n) (i ∷ is) = i ∷ first n is

-- addIncident
unfoldable pub add_incident : Incident → List Incident → List Incident
unfolding drop_last first
add_incident inc incidents =
    let kept =
      if leb max_per_proxy (count_of inc.stable_id incidents)
      then drop_last inc.stable_id incidents
      else incidents in
    first max_global (inc ∷ kept)

abbrev pub opened : Text → Text → Text → ℕ → Incident
opened stable_id name reason ts = record {
  proxy_name = name;
  stable_id = stable_id;
  down_at = ts;
  up_at = 0;
  duration_sec = 0;
  reason = reason;
}

-- `if !ps.CurrentlyDown`: the proxy goes down.
unfoldable pub go_down : Text → Text → Text → ℕ → ProxyStats → StatsStore → StatsStore
unfolding add_incident
go_down stable_id name reason ts ps ss =
    if ps.currently_down then record ss { stats = insert stable_id ps ss.stats } else record ss {
      stats =
          insert stable_id
            (record ps {
              drop_count = ps.drop_count + 1;
              currently_down = true;
              current_down_at = ts;
            })
            ss.stats;
      incidents = add_incident (opened stable_id name reason ts) ss.incidents;
    }

-- RecordInitialDown
unfoldable pub record_initial_down : Text → Text → ℕ → StatsStore → StatsStore
unfolding stats_for go_down
record_initial_down stable_id name ts ss =
    let ps = stats_for stable_id name ss in
    let ss' =
      if ps.currently_down
      then ss
      else record ss { rolling = record_event stable_id false ts ss.rolling } in
    go_down stable_id name (codes "Offline at startup") ts ps ss'

-- the loop that closes the open incidents of a proxy; a negative duration becomes 0
unfoldable pub close_incident : Text → ℕ → Incident → Incident
close_incident stable_id ts i =
    if eqt i.stable_id stable_id && (i.up_at == 0)
    then record i { up_at = ts; duration_sec = ts - i.down_at }
    else i

-- `if ps.CurrentlyDown` of a recovery: the store, and the downtime in seconds
unfoldable pub go_up : Text → ℕ → ProxyStats → StatsStore → StatsStore × ℕ
unfolding close_incident
go_up stable_id ts ps ss =
    if ps.currently_down
    then (
      record ss {
        stats =
            insert stable_id
              (record ps {
                total_downtime_sec = ps.total_downtime_sec + (ts - ps.current_down_at);
                currently_down = false;
                current_down_at = 0;
              })
              ss.stats;
        incidents = map (close_incident stable_id ts) ss.incidents;
      },
      ts - ps.current_down_at,
    )
    else (record ss { stats = insert stable_id ps ss.stats }, 0)

-- RecordTransition: the store, and the downtime of a recovery in seconds
unfoldable pub record_transition : Text → Text → Bool → Text → ℕ → StatsStore → StatsStore × ℕ
record_transition stable_id name online reason ts ss =
    let ps = stats_for stable_id name ss in
    let ss' = record ss { rolling = record_event stable_id online ts ss.rolling } in
    if online then go_up stable_id ts ps ss' else (go_down stable_id name reason ts ps ss', 0)

-- SyncOnlineState
unfoldable pub sync_online_state : Text → ℕ → StatsStore → StatsStore
unfolding go_up
sync_online_state stable_id ts ss = elim (lookup stable_id ss.stats) [
  | none ↦ ss
  | some ps ↦ (go_up stable_id ts ps ss).0
]

-- GetDropCount
unfoldable pub get_drop_count : Text → StatsStore → ℕ
get_drop_count stable_id ss = elim (lookup stable_id ss.stats) [
  | none ↦ 0
  | some ps ↦ ps.drop_count
]

-- GetFlapCount24h
unfoldable pub get_flap_count_24h : Text → ℕ → StatsStore → ℕ
get_flap_count_24h stable_id now ss = flap_count_24h stable_id now ss.rolling

-- the entries whose key is active
unfoldable pub keep_active {ℓ} : {V : Type ℓ} → List Text → Dict V → Dict V
keep_active active [] = []
keep_active active ((k, v) ∷ m) =
    let rest = keep_active active m in if contains k active then (k, v) ∷ rest else rest

-- PruneInactive, which does nothing without an active identity
unfoldable pub prune_inactive : List Text → StatsStore → StatsStore
unfolding keep_active
prune_inactive [] ss = ss
prune_inactive (id ∷ ids) ss = record ss {
  stats = keep_active (id ∷ ids) ss.stats;
  latency_map = keep_active (id ∷ ids) ss.latency_map;
}
