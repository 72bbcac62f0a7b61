-- ===== src/Checker/Targets.antt =====
-- checker/target.go: TargetManager, the list of URLs that proxies are tested against. Packages net/url,
-- net and strings are a parameter, `Library`.
pub mod Allowed
pub mod Public
use xray_checker_tg_bot.Base.{
  Text, codes, ℕ, ◌/◌, Bool, true, false, ◌||◌, ◌&&◌, not, Option, none, some, List, [], ◌∷◌, ◌++◌,
  Result, ok, err, eqt, has_prefix, trim_space, ◌==◌, if◌then◌else◌,
}

-- the parts of a url.URL that are looked at
pub record Url : Type 0 where
  pub scheme : Text
  pub host : Text
  pub hostname : Text

-- what is called of net/url, strings and net, whose addresses are of type Ip
pub record Library (Ip : Type 0) : Type 0 where
  pub parse_url : Text → Option Url
  pub equal_fold : Text → Text → Bool
  pub to_lower : Text → Text
  pub parse_ip : Text → Option Ip
  pub to4 : Ip → Option (ℕ × ℕ × ℕ × ℕ)
  pub is_loopback : Ip → Bool
  pub is_private : Ip → Bool
  pub is_link_local_unicast : Ip → Bool
  pub is_link_local_multicast : Ip → Bool
  pub is_unspecified : Ip → Bool
  pub is_multicast : Ip → Bool

pub data TargetUrlError : Type 0 where
  empty_url invalid_url missing_host local_host blocked_ip : TargetUrlError
  already_exists not_found : TargetUrlError

-- strings.HasSuffix s suffix
unfoldable pub has_suffix : Text → Text → Bool
has_suffix [] p = eqt [] p
has_suffix (c ∷ s) p = eqt (c ∷ s) p || has_suffix s p

-- isBlockedTargetIP; `ip4[1]&0xc0 == 64` is a byte from 64 to 127
unfoldable pub is_blocked_target_ip : {Ip : Type 0} → Library Ip → Ip → Bool
is_blocked_target_ip lib ip = elim (lib.to4 ip) [
  | some bytes ↦
      lib.is_loopback ip
      || lib.is_private ip
      || lib.is_link_local_unicast ip
      || lib.is_unspecified ip
      || lib.is_multicast ip
      || (bytes.0 == 0)
      || ((bytes.0 == 169) && (bytes.1 == 254))
      || ((bytes.0 == 100) && (bytes.1 / 64 == 1))
  | none ↦
      lib.is_loopback ip
      || lib.is_private ip
      || lib.is_link_local_unicast ip
      || lib.is_link_local_multicast ip
      || lib.is_unspecified ip
]

abbrev pub default_targets : List Text
default_targets =
    codes "https://cp.cloudflare.com/generate_204"
    ∷ codes "https://www.gstatic.com/generate_204"
    ∷ []

-- the calls on a manager
pub data Call : Type 0 where
  add remove : Text → Call
  set : List Text → Call

module _ {Ip : Type 0} (lib : Library Ip) where
  -- the names of the machine itself and of its local network
  unfoldable pub is_local : Text → Bool
  is_local hostname =
      lib.equal_fold hostname (codes "localhost")
      || has_suffix (lib.to_lower hostname) (codes ".localhost")
      || has_suffix (lib.to_lower hostname) (codes ".local")

  -- a host name that is an IP address of the machine or of a private network
  unfoldable pub is_blocked_host : Text → Bool
  is_blocked_host hostname = elim (lib.parse_ip hostname) [
    | none ↦ false
    | some ip ↦ is_blocked_target_ip lib ip
  ]

  -- validateTargetURL
  unfoldable pub validate_target_url : Text → Result TargetUrlError Url
  validate_target_url raw =
      let t = trim_space raw in
      if eqt t [] then err empty_url else elim (lib.parse_url t) [
        | none ↦ err invalid_url
        | some u ↦
            if (not (eqt u.scheme (codes "http")) && not (eqt u.scheme (codes "https")))
              || eqt u.host []
            then err invalid_url
            else if eqt u.hostname []
            then err missing_host
            else if is_local u.hostname
            then err local_host
            else if is_blocked_host u.hostname
            then err blocked_ip
            else ok u
      ]

  -- Is a target in the list, but for case?
  unfoldable pub is_known : Text → List Text → Bool
  is_known t [] = false
  is_known t (x ∷ xs) = lib.equal_fold x t || is_known t xs

  -- AddTarget
  unfoldable pub add_target : Text → List Text → List Text × Option TargetUrlError
  add_target raw targets =
      let t = trim_space raw in
      elim (validate_target_url t) [
        | err e ↦ (targets, some e)
        | ok u ↦
            if is_known t targets
            then (targets, some already_exists)
            else (targets ++ (t ∷ []), none)
      ]

  -- the list without the first target that is the given one, but for case
  unfoldable pub without_first : Text → List Text → List Text
  without_first t [] = []
  without_first t (x ∷ xs) = if lib.equal_fold x t then xs else x ∷ without_first t xs

  -- RemoveTarget
  unfoldable pub remove_target : Text → List Text → List Text × Option TargetUrlError
  remove_target raw targets =
      let t = trim_space raw in
      if is_known t targets then (without_first t targets, none) else (targets, some not_found)

  -- the valid ones of the given targets, trimmed
  unfoldable pub valid_targets : List Text → List Text
  valid_targets [] = []
  valid_targets (raw ∷ raws) =
      let t = trim_space raw in
      let rest = valid_targets raws in
      elim (validate_target_url t) [ err e ↦ rest | ok u ↦ t ∷ rest ]

  -- SetTargets
  unfoldable pub set_targets : List Text → List Text → List Text
  set_targets raws targets = elim (valid_targets raws) [ [] ↦ targets | t ∷ ts ↦ t ∷ ts ]

  unfoldable pub add_targets : List Text → List Text → List Text
  add_targets [] targets = targets
  add_targets (raw ∷ raws) targets = add_targets raws (add_target raw targets).0

  -- NewTargetManager
  unfoldable pub new_target_manager : List Text → List Text
  new_target_manager initial = elim (add_targets initial []) [
    | [] ↦ default_targets
    | t ∷ ts ↦ t ∷ ts
  ]

  unfoldable pub call : Call → List Text → List Text
  call (add raw) targets = (add_target raw targets).0
  call (remove raw) targets = (remove_target raw targets).0
  call (set raws) targets = set_targets raws targets

  -- a sequence of calls
  unfoldable pub run : List Call → List Text → List Text
  run [] targets = targets
  run (c ∷ cs) targets = run cs (call c targets)
