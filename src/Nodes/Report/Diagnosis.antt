-- ===== src/Nodes/Report/Diagnosis.antt =====
-- What becomes of a diagnosis on its way from a node to the master.
use xray_checker_tg_bot.Base.{
  Text, codes, ℕ, ℤ, pos, suc, ◌<◌, ◌^◌, ◌≡◌, ◌≢◌, refl, arith, false, ◌||◌, Option, none, some,
  List, [], ◌∷◌, ◌++◌, has_char, has_char-append, has_char-print_nat, print_nat, print_int,
  atoi-print_nat, cut, cut_plain, cut-append, eqt, eqt_iff, if◌then◌else◌, Bool-cases, inl, inr,
}
use xray_checker_tg_bot.Checker.Types.{ProxyDiagReport, TargetDiagResult, ProxyMetric}
use xray_checker_tg_bot.Nodes.Report.{
  ReportProxy, join_host_port, split_host_port, address_of, server_of, port_of, proxy_of_diag,
  enrich, diag_of, targets_of, status_of, first_latency,
}

-- A host without brackets, and a port that is a number.
pub record IsHost (host : Text) : Type 0 where
  pub not_empty : host ≢ []
  pub no_open : has_char b'[' host ≡ false
  pub no_close : has_char b']' host ≡ false

split_plain_address :
    (host port : Text)
    → IsHost host
    → has_char b':' host ≡ false
    → has_char b':' port ≡ false
    → has_char b'[' port ≡ false
    → has_char b']' port ≡ false
    → split_host_port (host ++ (b':' ∷ port)) ≡ (host, port)
unfolding split_host_port has_char
split_plain_address [] port h a b c d = absurd (h.not_empty refl)
split_plain_address (x ∷ host) port h a b c d = ground (
  arith,
  h.no_open,
  h.no_close,
  cut-append b':' (x ∷ host) port a,
  cut_plain b':' port b,
  has_char-append b'[' (x ∷ host) port,
  has_char-append b']' (x ∷ host) port,
)

split_bracketed_address :
    (host port : Text)
    → IsHost host
    → has_char b':' port ≡ false
    → has_char b'[' port ≡ false
    → has_char b']' port ≡ false
    → split_host_port ((b'[' ∷ host) ++ (b']' ∷ b':' ∷ port)) ≡ (host, port)
unfolding split_host_port has_char cut
split_bracketed_address host port h b c d = ground (
  arith,
  h.no_open,
  h.no_close,
  cut-append b']' host (b':' ∷ port) h.no_close,
  cut_plain b']' port d,
  has_char-append b'[' host port,
)

split_host_port-join_host_port :
    (host : Text) (n : ℕ)
    → IsHost host
    → split_host_port (join_host_port host (print_nat n)) ≡ (host, print_nat n)
unfolding join_host_port
split_host_port-join_host_port host n h =
    let colon = has_char-print_nat b':' n refl in
    let open_bracket = has_char-print_nat b'[' n refl in
    let close_bracket = has_char-print_nat b']' n refl in
    elim (Bool-cases (has_char b':' host)) [
      | inl v6 ↦
          rw v6 (split_bracketed_address host (print_nat n) h colon open_bracket close_bracket)
      | inr plain ↦
          rw plain (split_plain_address host (print_nat n) h plain colon open_bracket close_bracket)
    ]

-- A server and its port, which is positive and fits into 64 bits, are read back from the address
-- of the report, IPv6 addresses included.
address_lem :
    (server : Text) (n : ℕ)
    → IsHost server
    → suc n < 2 ^ 63
    → (server_of (address_of server (pos (suc n))) ≡ server)
      × (port_of (address_of server (pos (suc n))) ≡ pos (suc n))
unfolding server_of port_of address_of print_int
address_lem server n h fits =
    let split = split_host_port-join_host_port server (suc n) h in
    (
      ground (arith, split, h.not_empty, eqt_iff server []),
      ground (arith, split, atoi-print_nat (suc n) fits),
    )

-- The status that the master shows: it does not tell `degraded` from `online`.
abbrev pub shown_status : ProxyDiagReport → Text
shown_status rep =
    if rep.disabled
    then codes "disabled"
    else if eqt rep.status (codes "online") || eqt rep.status (codes "degraded")
    then codes "online"
    else codes "offline"

-- A diagnosis that the node can send: a server name without brackets, and a port that fits.
pub record IsSendable (rep : ProxyDiagReport) : Type 0 where
  pub server : IsHost rep.server
  pub port : ℕ
  pub has_port : rep.port ≡ pos (suc port)
  pub fits : suc port < 2 ^ 63

targets_of_sent :
    (rp : ReportProxy) (ts : List TargetDiagResult)
    → rp.latency_ms ≡ first_latency ts
    → targets_of rp ts ≡ ts
unfolding targets_of first_latency
targets_of_sent rp [] h = ground arith
targets_of_sent rp (t ∷ ts) h = refl

latency_sent :
    (now : ℤ) (rep : ProxyDiagReport) (m : Option ProxyMetric)
    → (enrich m (proxy_of_diag now rep)).latency_ms ≡ first_latency rep.targets
unfolding enrich proxy_of_diag
latency_sent now rep none = refl
latency_sent now rep (some m) = refl

-- A diagnosis with a server name and a port goes through the report unchanged, whatever the
-- metrics of the proxy are, except for its status, which becomes `disabled`, `online` or
-- `offline`.
pub diag_of-proxy_of_diag :
    (now : ℤ) (rep : ProxyDiagReport) (m : Option ProxyMetric)
    → IsSendable rep
    → diag_of (enrich m (proxy_of_diag now rep)) ≡ record rep { status = shown_status rep }
unfolding diag_of enrich proxy_of_diag status_of
diag_of-proxy_of_diag now rep m h = ground (
  arith,
  address_lem rep.server h.port h.server h.fits,
  h.has_port,
  targets_of_sent (enrich m (proxy_of_diag now rep)) rep.targets (latency_sent now rep m),
)
