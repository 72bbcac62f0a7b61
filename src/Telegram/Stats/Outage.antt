-- ===== src/Telegram/Stats/Outage.antt =====
-- An outage in the statistics of a proxy: from the transition down to the transition up.
use xray_checker_tg_bot.Base.{
  Text, ℕ, ◌+◌, ◌-◌, true, false, some, List, [], ◌∷◌, map, ◌≡◌, ◌≢◌, refl, arith, eqt_iff, All,
}
use xray_checker_tg_bot.Base.Dict.{lookup, insert}
use xray_checker_tg_bot.Base.Dict.Laws.{lookup-insert_self}
use xray_checker_tg_bot.Telegram.Stats.Rolling.{record_event}
use xray_checker_tg_bot.Telegram.Stats.{
  Incident, ProxyStats, StatsStore, stats_for, add_incident, opened, go_down, go_up, close_incident,
  record_transition,
}

-- No open incident of the proxy.
abbrev pub IsClosed : Text → List Incident → Type 0
IsClosed id = All (λ i. i.stable_id ≡ id → i.up_at ≢ 0)

IsClosed-map :
    (id : Text) (ts : ℕ) (is : List Incident) → ts ≢ 0 → IsClosed id (map (close_incident id ts) is)
unfolding close_incident
IsClosed-map id ts [] h = tt
IsClosed-map id ts (i ∷ is) h =
    (λ own. ground (arith, eqt_iff i.stable_id id), IsClosed-map id ts is h)

stats_for-insert :
    (id name : Text) (ps : ProxyStats) (ss : StatsStore)
    → lookup id ss.stats ≡ some ps
    → stats_for id name ss ≡ record ps { proxy_name = name }
unfolding stats_for
stats_for-insert id name ps ss h = rw (h, stats_for) refl

go_down-fresh :
    (id name reason : Text) (ts : ℕ) (ps : ProxyStats) (ss : StatsStore)
    → ps.currently_down ≡ false
    → go_down id name reason ts ps ss ≡ record ss {
      stats =
          insert id
            (record ps {
              drop_count = ps.drop_count + 1;
              currently_down = true;
              current_down_at = ts;
            })
            ss.stats;
      incidents = add_incident (opened id name reason ts) ss.incidents;
    }
unfolding go_down
go_down-fresh id name reason ts ps ss h = rw (h, go_down) refl

go_up-down :
    (id : Text) (ts : ℕ) (ps : ProxyStats) (ss : StatsStore)
    → ps.currently_down ≡ true
    → go_up id ts ps ss ≡ (
      record ss {
        stats =
            insert id
              (record ps {
                total_downtime_sec = ps.total_downtime_sec + (ts - ps.current_down_at);
                currently_down = false;
                current_down_at = 0;
              })
              ss.stats;
        incidents = map (close_incident id ts) ss.incidents;
      },
      ts - ps.current_down_at,
    )
unfolding go_up
go_up-down id ts ps ss h = rw (h, go_up) refl

-- A proxy that is not down goes down at `t0`, and the next transition, at `t1`, is up. The downtime
-- that RecordTransition then returns is the time between; the total grows by it and the drops by
-- one; the proxy is not down and has no open incident.
pub record_transition-outage :
    (id name name' reason : Text) (t0 t1 : ℕ) (ss : StatsStore)
    → (stats_for id name ss).currently_down ≡ false
    → t1 ≢ 0
    → (let before = stats_for id name ss in
        let down = (record_transition id name false reason t0 ss).0 in
        let up = record_transition id name' true [] t1 down in
        let after = stats_for id name' up.0 in
        (up.1 ≡ t1 - t0)
        × (after.total_downtime_sec ≡ before.total_downtime_sec + (t1 - t0))
        × (after.drop_count ≡ before.drop_count + 1)
        × (after.currently_down ≡ false)
        × IsClosed id up.0.incidents)
unfolding record_transition
record_transition-outage id name name' reason t0 t1 ss h ht =
    let before = stats_for id name ss in
    let out : ProxyStats = record before {
      drop_count = before.drop_count + 1;
      currently_down = true;
      current_down_at = t0;
    } in
    let mid = (record_transition id name false reason t0 ss).0 in
    let in_mid : stats_for id name' mid ≡ record out { proxy_name = name' } =
      stats_for-insert id name' out mid (
        rw
          (go_down-fresh id name reason t0 before
            (record ss { rolling = record_event id false t0 ss.rolling }) h)
          (lookup-insert_self id out ss.stats)) in
    let ps = stats_for id name' mid in
    let rest = record mid { rolling = record_event id true t1 mid.rolling } in
    let up_ps : ProxyStats = record ps {
      total_downtime_sec = ps.total_downtime_sec + (t1 - ps.current_down_at);
      currently_down = false;
      current_down_at = 0;
    } in
    let recovered = go_up-down id t1 ps rest (rw in_mid refl) in
    let in_up : stats_for id name' (go_up id t1 ps rest).0 ≡ record up_ps { proxy_name = name' } =
      stats_for-insert id name' up_ps (go_up id t1 ps rest).0
        (rw recovered (lookup-insert_self id up_ps mid.stats)) in
    (
      rw (recovered, in_mid) refl,
      rw (in_up, in_mid) refl,
      rw (in_up, in_mid) refl,
      rw in_up refl,
      rw recovered (IsClosed-map id t1 mid.incidents ht),
    )
