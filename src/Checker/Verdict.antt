-- ===== src/Checker/Verdict.antt =====
-- checker/target.go: the diagnosis of one proxy from its probes. `to_lower` is strings.ToLower.
pub mod Counted
pub mod Aligned
use xray_checker_tg_bot.Base.{
  Text, codes, ℕ, ℤ, suc, Bool, true, false, ◌||◌, ◌&&◌, not, Option, none, some, List, [], ◌∷◌,
  ◌++◌, map, length, eqt, has_infix, ltb, ◌==◌, print_nat, if◌then◌else◌,
}
use xray_checker_tg_bot.Checker.Types.{
  TargetDiagResult, ProbeHealth, CheckHostSummary, ProxyDiagReport, no_health,
}
use xray_checker_tg_bot.Checker.Taxonomy.{is_udp_proto}

-- the number of results that pass a test
unfoldable pub count : (TargetDiagResult → Bool) → List TargetDiagResult → ℕ
count f [] = 0
count f (t ∷ ts) = let rest = count f ts in if f t then suc rest else rest

unfoldable pub successes : List TargetDiagResult → ℕ
successes = count (λ t. t.success)

-- `err != ""`
abbrev pub failed : Text → Bool
failed e = not (eqt e [])

module _ (to_lower : Text → Text) where
  -- the `else if` chain over the error of a target that failed
  unfoldable pub is_forbidden : TargetDiagResult → Bool
  is_forbidden t = not t.success && has_infix (to_lower t.error) (codes "403")

  unfoldable pub is_eof : TargetDiagResult → Bool
  is_eof t =
      let low = to_lower t.error in
      not t.success
      && not (is_forbidden t)
      && (has_infix low (codes "eof") || has_infix low (codes "reset"))

  unfoldable pub is_timeout : TargetDiagResult → Bool
  is_timeout t =
      not t.success
      && not (is_forbidden t)
      && not (is_eof t)
      && has_infix (to_lower t.error) (codes "timeout")

  -- step 3 of DetermineVerdict: what the probes of the node say, if they failed
  unfoldable pub probe_verdict : Text → ProbeHealth → Option Text
  probe_verdict proto health =
      let udp = is_udp_proto to_lower proto in
      if failed health.dns_err
      then some (codes "Сбой DNS домена ноды (" ++ health.dns_err ++ codes ")")
      else if udp && failed health.udp_err
      then some (
          if has_infix (to_lower health.udp_err) (codes "refused")
            || has_infix (to_lower health.udp_err) (codes "unreachable")
          then codes "UDP-порт недоступен (ICMP Port Unreachable / сервис остановлен)"
          else codes "Сбой UDP подключения (" ++ health.udp_err ++ codes ")")
      else if not udp && failed health.tcp_err
      then some (
          if has_infix health.tcp_err (codes "Timeout")
          then codes "Нода не отвечает на TCP (таймаут: хост недоступен с узла проверки)"
          else if has_infix (to_lower health.tcp_err) (codes "refused")
          then codes "TCP-соединение сброшено (порт закрыт / сервис на ноде остановлен)"
          else codes "Сбой TCP подключения (" ++ health.tcp_err ++ codes ")")
      else if not udp && failed health.tls_err
      then some (codes "Сбой TLS рукопожатия (" ++ health.tls_err ++ codes ")")
      else none

  -- the end of DetermineVerdict: what the errors of the targets say
  unfoldable pub target_verdict : List TargetDiagResult → Text
  target_verdict targets =
      if ltb 0 (count is_forbidden targets)
      then codes "Ограничение доступа со стороны целевых сервисов (HTTP 403 / Cloudflare Challenge)"
      else if ltb 0 (count is_eof targets)
      then codes "Сервер сбросил сессию (ошибка авторизации/UUID или закрыто сервером)"
      else if ltb 0 (count is_timeout targets)
      then codes "Таймаут проксирования через туннель"
      else codes "Проксирование через туннель завершилось ошибкой"

  -- DetermineVerdict
  unfoldable pub determine_verdict : Text → ProbeHealth → List TargetDiagResult → Text × Text
  determine_verdict proto health targets =
      let n = successes targets in
      let total = length targets in
      if ltb 0 total && (n == total)
      then (codes "online", codes "Полностью исправен")
      else if ltb 0 n
      then (
        codes "degraded",
        codes "Частичная доступность ("
            ++ print_nat n
            ++ codes "/"
            ++ print_nat total
            ++ codes " сайтов доступны)",
      )
      else (
        codes "offline",
        elim (probe_verdict proto health) [ some v ↦ v | none ↦ target_verdict targets ],
      )

  -- the error that a target gets if the node itself could not be reached
  unfoldable pub tunnel_error : Text → ProbeHealth → Option Text
  tunnel_error proto health =
      if failed health.dns_err
      then some (codes "Туннель не поднят (сбой DNS ноды: " ++ health.dns_err ++ codes ")")
      else if failed health.tcp_err
      then some (codes "Туннель не поднят (сбой TCP ноды: " ++ health.tcp_err ++ codes ")")
      else if is_udp_proto to_lower proto && failed health.udp_err
      then some (codes "Туннель не поднят (сбой UDP ноды: " ++ health.udp_err ++ codes ")")
      else none

  -- alignTargetErrorsWithNodeHealth
  unfoldable pub align_target_errors :
      ProbeHealth → Text → List TargetDiagResult → List TargetDiagResult
  align_target_errors health proto targets =
      if ltb 0 (successes targets) then targets else elim (tunnel_error proto health) [
        | none ↦ targets
        | some e ↦ map (λ t. if t.success then t else record t { error = e }) targets
      ]

-- EnrichVerdictWithCheckHost, with the DNS error of the node
unfoldable pub enrich_verdict : Text → Option CheckHostSummary → Text → Text
enrich_verdict verdict none dns_err = verdict
enrich_verdict verdict (some ch) dns_err =
    let no_dns = not (eqt dns_err []) in
    if not ch.ru_available && ch.world_available
    then verdict
      ++ codes " | Check-Host: хост недоступен из узлов РФ, но отвечает из зарубежных сетей"
    else if not ch.ru_available
    then if no_dns
      then verdict ++ codes " | Check-Host: домен не резолвится также и на внешних узлах (РФ и Мир)"
      else verdict ++ codes " | Check-Host: хост недоступен как из РФ, так и из других стран"
    else if ch.world_available
    then if no_dns
      then verdict
        ++ codes
            " | Check-Host: внешние узлы смогли отрезолвить домен (возможен локальный сбой DNS на узле проверки)"
      else verdict
        ++ codes
            " | Check-Host: хост отвечает из РФ и других стран (вероятна фильтрация/DPI на узле проверки)"
    else verdict ++ codes " | Check-Host: хост доступен из РФ, но недоступен из части внешних сетей"

-- models.ProxyConfig, the fields that a report repeats
pub record ProxyConfig : Type 0 where
  pub name : Text
  pub protocol : Text
  pub server : Text
  pub port : ℤ
  pub stable_id : Text

-- the report of a proxy that is disabled
abbrev pub disabled_report : ProxyConfig → ProxyDiagReport
disabled_report p = record {
  proxy_name = p.name;
  protocol = p.protocol;
  server = p.server;
  port = p.port;
  stable_id = p.stable_id;
  node_health = no_health;
  check_host = none;
  targets = [];
  status = codes "disabled";
  verdict = codes "Проверка отключена в настройках бота";
  disabled = true;
}

module _ (to_lower : Text → Text) (check_host : Text → Text → ℤ → Option CheckHostSummary) where
  -- RunDiagnostics for one proxy, disabled or not, given its probes (the address of its SOCKS5 port always
  -- parses); `check_host` is the outcome of CheckPing or CheckTCP
  -- for a protocol, a server and a port.
  unfoldable pub run_diagnostics :
      Bool → ProxyConfig → ProbeHealth → List TargetDiagResult → ProxyDiagReport
  run_diagnostics true p health results = disabled_report p
  run_diagnostics false p health results =
      let aligned = align_target_errors to_lower health p.protocol results in
      let (status, verdict) = determine_verdict to_lower p.protocol health aligned in
      let asked = eqt status (codes "offline") && not (eqt p.server []) in
      let summary = if asked then check_host p.protocol p.server p.port else none in
      record {
        proxy_name = p.name;
        protocol = p.protocol;
        server = p.server;
        port = p.port;
        stable_id = p.stable_id;
        node_health = health;
        check_host = summary;
        targets = aligned;
        status = status;
        verdict = enrich_verdict verdict summary health.dns_err;
        disabled = false;
      }
