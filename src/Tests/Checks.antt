-- ===== src/Tests/Checks.antt =====
-- The theorems on checker/target.go and on web/static/country-flag-emoji-polyfill.js.
use xray_checker_tg_bot.Base.{
  Text, codes, ℕ, pos, true, false, none, some, List, [], ◌∷◌, ◌≡◌, ◌≢◌, ◌↔◌, inl, inr, refl, eqt,
  ltb, ◌&&◌, ◌||◌, ◌/◌, ◌==◌, ◌<◌, ap, arith, Bool-cases, contains, All, Any, trim_space, trim_left,
  is_space, if◌then◌else◌,
}
use xray_checker_tg_bot.Checker.Types.{TargetDiagResult, ProbeHealth, no_health}
use xray_checker_tg_bot.Checker.Taxonomy.{is_udp_proto}
use xray_checker_tg_bot.Checker.Verdict.{determine_verdict, align_target_errors}
use xray_checker_tg_bot.Checker.Verdict.Counted.{Succeeds, Fails, determine_verdict_lem}
use xray_checker_tg_bot.Checker.Verdict.Aligned.{determine_verdict-align}
use xray_checker_tg_bot.Checker.Targets.{
  Library, Call, add, remove, set, is_local, is_blocked_host, has_suffix, default_targets,
  new_target_manager, run,
}
use xray_checker_tg_bot.Checker.Targets.Public.{IsDocumented, IsOutside, host-IsOutside}
use xray_checker_tg_bot.Checker.Targets.Allowed.{IsAllowed, run-IsAllowed}
use xray_checker_tg_bot.Docs.Playground.{Form, params_of, init}
use xray_checker_tg_bot.Docs.Playground.RoundTrip.{asked, init-params_of}
use xray_checker_tg_bot.Docs.Flags.{Context, is_coloured}
use xray_checker_tg_bot.Docs.Flags.Pixels.{is_blank, is_coloured_lem}

abbrev to_lower : Text → Text
to_lower s = s

abbrev refused : TargetDiagResult
refused = record {
  url = codes "https://a";
  success = false;
  status_code = pos 0;
  latency = 0;
  error = codes "EOF";
}

abbrev answered : TargetDiagResult
answered = record refused { success = true; error = [] }

abbrev unreachable : ProbeHealth
unreachable = record no_health { tcp_err = codes "Timeout" }

determine_verdict_lem_example :
    let status =
      (determine_verdict to_lower (codes "vless") no_health (refused ∷ answered ∷ [])).0 in
    ((status ≡ codes "online")
      ↔ (((refused ∷ answered ∷ []) ≢ []) × All Succeeds (refused ∷ answered ∷ [])))
    × ((status ≡ codes "degraded")
        ↔ (Any Succeeds (refused ∷ answered ∷ []) × Any Fails (refused ∷ answered ∷ [])))
    × ((status ≡ codes "offline") ↔ All Fails (refused ∷ answered ∷ []))
determine_verdict_lem_example =
    determine_verdict_lem to_lower (codes "vless") no_health (refused ∷ answered ∷ [])

determine_verdict-align_example :
    determine_verdict to_lower
      (codes "vless")
      unreachable
      (align_target_errors to_lower unreachable (codes "vless") (refused ∷ []))
    ≡ determine_verdict to_lower (codes "vless") unreachable (refused ∷ [])
unfolding is_udp_proto eqt trim_space trim_left is_space
determine_verdict-align_example =
    determine_verdict-align to_lower (codes "vless") unreachable (refused ∷ []) refl

-- Addresses are numbers below 256, the last byte of a public network, and 0 is the machine.
-- Addresses are four octets, and one text is an address.
abbrev Octets : Type 0
Octets = ℕ × ℕ × ℕ × ℕ

abbrev library : Library Octets
library = record {
  parse_url = λ t. some (record { scheme = codes "https"; host = codes "h"; hostname = t });
  equal_fold = eqt;
  to_lower = to_lower;
  parse_ip = λ t. if eqt t (codes "10.0.0.1") then some (10, 0, 0, 1) else none;
  to4 = λ o. if ltb o.0 256 && ltb o.1 256 then some o else none;
  is_loopback = λ o. o.0 == 127;
  is_private =
      λ o. (o.0 == 10) || ((o.0 == 172) && (o.1 / 16 == 1)) || ((o.0 == 192) && (o.1 == 168));
  is_link_local_unicast = λ o. (o.0 == 169) && (o.1 == 254);
  is_link_local_multicast = λ o. false;
  is_unspecified = λ o. false;
  is_multicast = λ o. o.0 / 16 == 14;
}

own_octets : (ip o : Octets) → library.to4 ip ≡ some o → (ip ≡ o) × (o.0 < 256) × (o.1 < 256)
own_octets ip o h = elim (Bool-cases (ltb ip.0 256 && ltb ip.1 256)) [
  | inl small ↦
      let same : ip ≡ o = ground arith in
      (same, rw (← same) (ground arith), rw (← same) (ground arith))
  | inr large ↦ absurd (ground arith)
]

library-IsDocumented : IsDocumented library
library-IsDocumented = record {
  octets = λ ip {o} h. let (same, a, b) = own_octets ip o h in (a, b);
  loopback = λ ip {o} h. ap library.is_loopback (own_octets ip o h).0;
  private = λ ip {o} h. ap library.is_private (own_octets ip o h).0;
  multicast = λ ip {o} h. ap library.is_multicast (own_octets ip o h).0;
}

all_parse : (t : Text) → IsOutside library t → IsAllowed library t
all_parse t outside =
    (record { scheme = codes "https"; host = codes "h"; hostname = t }, refl, inr refl, outside)

defaults_IsAllowed : All (IsAllowed library) default_targets
unfolding is_local is_blocked_host has_suffix eqt
defaults_IsAllowed = (
  all_parse (codes "https://cp.cloudflare.com/generate_204") (
      host-IsOutside library library-IsDocumented (codes "https://cp.cloudflare.com/generate_204")
        refl refl),
  (
    all_parse (codes "https://www.gstatic.com/generate_204") (
        host-IsOutside library library-IsDocumented (codes "https://www.gstatic.com/generate_204")
          refl refl),
    tt,
  ),
)

abbrev calls : List Call
calls =
    add (codes "a.example")
    ∷ add (codes "10.0.0.1")
    ∷ remove (codes "b")
    ∷ set (codes "localhost" ∷ [])
    ∷ []

run-IsAllowed_example : All (IsAllowed library) (run library calls (new_target_manager library []))
run-IsAllowed_example = run-IsAllowed library library-IsDocumented [] calls defaults_IsAllowed

abbrev pixel : List ℕ
pixel = 1 ∷ 2 ∷ 3 ∷ 255 ∷ []

abbrev draw : Context → Text → Text → List ℕ
draw c text colour = pixel

is_coloured_lem_example :
    (is_coloured draw (codes "x") ≡ true) ↔ ((pixel ≡ pixel) × (is_blank pixel ≡ false))
is_coloured_lem_example = is_coloured_lem draw (codes "x")

abbrev form : Form
form = record {
  base_url = codes "https://status.example";
  stable_id = codes "a1";
  theme = codes "light";
  variant = codes "dot";
  size = codes "md";
  rounded = codes "full";
  width = codes "80";
  height = [];
  show_name = true;
  show_latency = false;
}

init-params_of_example :
    init (λ id. true) (λ v. false) true (params_of form (codes "a1") [] false)
    ≡ asked (λ v. false) true form
unfolding eqt contains
init-params_of_example =
    init-params_of form (codes "a1") (λ id. true) (λ v. false) true refl refl refl refl refl refl
