-- ===== src/Checker/Verdict/Aligned.antt =====
-- Rewriting the errors of the targets (alignTargetErrorsWithNodeHealth) before the diagnosis.
use xray_checker_tg_bot.Base.{
  Text, codes, ℤ, true, false, ◌&&◌, Option, none, some, List, [], ◌∷◌, map, length, All, eqt,
  eqt_iff, ltb, is_some, if◌then◌else◌, ◌≡◌, refl, sym, ◌∙◌, ap, arith, Bool-cases, Option-cases,
  ◌⊎◌, inl, inr,
}
use xray_checker_tg_bot.Checker.Types.{TargetDiagResult, ProbeHealth, CheckHostSummary}
use xray_checker_tg_bot.Checker.Taxonomy.{is_udp_proto}
use xray_checker_tg_bot.Checker.Verdict.{
  ProxyConfig, failed, count, successes, probe_verdict, determine_verdict, tunnel_error,
  align_target_errors, run_diagnostics,
}
use xray_checker_tg_bot.Checker.Verdict.Counted.{Fails, determine_verdict_lem}

abbrev with_error : Text → TargetDiagResult → TargetDiagResult
with_error e t = if t.success then t else record t { error = e }

success-with_error : (e : Text) (t : TargetDiagResult) → (with_error e t).success ≡ t.success
success-with_error e t = ground arith

successes-map :
    (e : Text) (ts : List TargetDiagResult) → successes (map (with_error e) ts) ≡ successes ts
unfolding successes count
successes-map e [] = refl
successes-map e (t ∷ ts) = ground (arith, successes-map e ts, success-with_error e t)

length-map : (e : Text) (ts : List TargetDiagResult) → length (map (with_error e) ts) ≡ length ts
length-map e [] = refl
length-map e (t ∷ ts) = ground (arith, length-map e ts)

module _ (to_lower : Text → Text) where
  -- An error of the tunnel has its cause in the probes.
  probe_verdict-some :
      (proto : Text) (health : ProbeHealth)
      → (is_udp_proto to_lower proto && failed health.tcp_err) ≡ false
      → is_some (tunnel_error to_lower proto health) ≡ true
      → is_some (probe_verdict to_lower proto health) ≡ true
  unfolding tunnel_error probe_verdict
  probe_verdict-some proto health h caused = ground arith

  -- With a cause in the probes, the verdict does not look at the errors of the targets.
  determine_verdict-probe :
      (proto : Text) (health : ProbeHealth) (ts us : List TargetDiagResult) {v : Text}
      → probe_verdict to_lower proto health ≡ some v
      → successes us ≡ successes ts
      → length us ≡ length ts
      → determine_verdict to_lower proto health us ≡ determine_verdict to_lower proto health ts
  unfolding determine_verdict
  determine_verdict-probe proto health ts us known n l = rw (determine_verdict, n, l, known) refl

  -- Rewriting the errors of the targets never changes the diagnosis, neither the status nor the verdict:
  -- if the probe of a UDP protocol has no TCP error, as ProbeNodeHealth sets none.
  pub determine_verdict-align :
      (proto : Text) (health : ProbeHealth) (ts : List TargetDiagResult)
      → (is_udp_proto to_lower proto && failed health.tcp_err) ≡ false
      → determine_verdict to_lower proto health (align_target_errors to_lower health proto ts)
        ≡ determine_verdict to_lower proto health ts
  unfolding align_target_errors
  determine_verdict-align proto health ts h = elim (Bool-cases (ltb 0 (successes ts))) [
    | inl up ↦ rw up refl
    | inr down ↦ elim (Option-cases (tunnel_error to_lower proto health)) [
      | inl fine ↦ rw (down, fine) refl
      | inr (e, caused) ↦ elim (Option-cases (probe_verdict to_lower proto health)) [
        | inl silent ↦
            ground (arith, probe_verdict-some proto health h (ap is_some caused), ap is_some silent)
        | inr (v, known) ↦
            rw (down, caused)
              (determine_verdict-probe proto health ts (map (with_error e) ts) known
                (successes-map e ts) (length-map e ts))
      ]
    ]
  ]

module _ (to_lower : Text → Text) (check_host : Text → Text → ℤ → Option CheckHostSummary) where
  -- The report of a proxy that is checked: the status is the one of the unchanged results, and
  -- Check-Host is consulted only if no target answered.
  pub run_diagnostics_lem :
      (p : ProxyConfig) (health : ProbeHealth) (ts : List TargetDiagResult)
      → (is_udp_proto to_lower p.protocol && failed health.tcp_err) ≡ false
      → ((run_diagnostics to_lower check_host false p health ts).status
          ≡ (determine_verdict to_lower p.protocol health ts).0)
        × (((run_diagnostics to_lower check_host false p health ts).check_host ≡ none)
            ⊎ All Fails ts)
  unfolding run_diagnostics
  run_diagnostics_lem p health ts h =
      let same = ap (λ v. v.0) (determine_verdict-align to_lower p.protocol health ts h) in
      let (online, degraded, offline) = determine_verdict_lem to_lower p.protocol health ts in
      let status =
        (determine_verdict to_lower p.protocol health
          (align_target_errors to_lower health p.protocol ts)).0 in
      (
        same,
        elim (Bool-cases (eqt status (codes "offline"))) [
          | inl down ↦ inr (offline.0 (sym same ∙ (eqt_iff status (codes "offline")).0 down))
          | inr up ↦ inl (rw up refl)
        ],
      )
