-- ===== src/Checker/Targets/Allowed.antt =====
-- The targets after any calls on a manager.
use xray_checker_tg_bot.Base.{
  Text, codes, some, List, [], ◌∷◌, ok, All, All-append, eqt_iff, trim_space, trim_space-trim_space,
  ◌≡◌, ◌⊎◌, ◌∙◌, ap, arith, Bool-cases, Result-cases, Option-cases, inl, inr,
}
use xray_checker_tg_bot.Checker.Targets.Public.{IsDocumented, IsOutside, host-IsOutside}
use xray_checker_tg_bot.Checker.Targets.{
  Url, Library, validate_target_url, is_known, add_target, without_first, remove_target,
  valid_targets, set_targets, default_targets, add_targets, new_target_manager, Call, add, remove,
  set, call, run,
}

module _ {Ip : Type 0} (lib : Library Ip) where
  -- An http or https URL whose host is outside the machine and its networks.
  abbrev pub IsAllowed : Text → Type 0
  IsAllowed t =
      (u : Url) × (lib.parse_url t ≡ some u)
      × ((u.scheme ≡ codes "http") ⊎ (u.scheme ≡ codes "https"))
      × IsOutside lib u.hostname

module _ {Ip : Type 0} (lib : Library Ip) (doc : IsDocumented lib) where
  validate-IsAllowed :
      (t : Text) (u : Url) → trim_space t ≡ t → validate_target_url lib t ≡ ok u → IsAllowed lib t
  unfolding validate_target_url
  validate-IsAllowed t u trimmed h =
      let same = ap lib.parse_url trimmed in
      elim (Option-cases (lib.parse_url t)) [
        | inl bad ↦ ground (arith, same ∙ bad)
        | inr (v, parsed) ↦
            let at : lib.parse_url (trim_space t) ≡ some v = same ∙ parsed in
            let http = eqt_iff v.scheme (codes "http") in
            let https = eqt_iff v.scheme (codes "https") in
            (
              v,
              parsed,
              ground (arith, at, http, https),
              host-IsOutside lib doc v.hostname (ground (arith, at)) (ground (arith, at)),
            )
      ]

  add_target-IsAllowed :
      (raw : Text) (targets : List Text)
      → All (IsAllowed lib) targets
      → All (IsAllowed lib) (add_target lib raw targets).0
  unfolding add_target
  add_target-IsAllowed raw targets h =
      elim (Result-cases (validate_target_url lib (trim_space raw))) [
        | inr (e, bad) ↦ rw (add_target, bad) h
        | inl (u, good) ↦ elim (Bool-cases (is_known lib (trim_space raw) targets)) [
          | inl known ↦ rw (add_target, good, known) h
          | inr new ↦
              rw (add_target, good, new)
                (All-append (IsAllowed lib) targets (trim_space raw ∷ []) h
                  (validate-IsAllowed (trim_space raw) u (trim_space-trim_space raw) good, tt))
        ]
      ]

  without_first-IsAllowed :
      (t : Text) (targets : List Text)
      → All (IsAllowed lib) targets
      → All (IsAllowed lib) (without_first lib t targets)
  unfolding without_first
  without_first-IsAllowed t [] h = h
  without_first-IsAllowed t (x ∷ xs) h = elim (Bool-cases (lib.equal_fold x t)) [
    | inl own ↦ rw own h.1
    | inr other ↦ rw other (h.0, without_first-IsAllowed t xs h.1)
  ]

  remove_target-IsAllowed :
      (raw : Text) (targets : List Text)
      → All (IsAllowed lib) targets
      → All (IsAllowed lib) (remove_target lib raw targets).0
  unfolding remove_target
  remove_target-IsAllowed raw targets h =
      elim (Bool-cases (is_known lib (trim_space raw) targets)) [
        | inl known ↦ rw known (without_first-IsAllowed (trim_space raw) targets h)
        | inr unknown ↦ rw unknown h
      ]

  valid_targets-IsAllowed : (raws : List Text) → All (IsAllowed lib) (valid_targets lib raws)
  unfolding valid_targets
  valid_targets-IsAllowed [] = tt
  valid_targets-IsAllowed (raw ∷ raws) =
      elim (Result-cases (validate_target_url lib (trim_space raw))) [
        | inr (e, bad) ↦ rw (valid_targets, bad) (valid_targets-IsAllowed raws)
        | inl (u, good) ↦
            rw (valid_targets, good)
              (
                validate-IsAllowed (trim_space raw) u (trim_space-trim_space raw) good,
                valid_targets-IsAllowed raws,
              )
      ]

  -- A list, or the other one if it is empty.
  or_else-IsAllowed :
      (new old : List Text)
      → All (IsAllowed lib) new
      → All (IsAllowed lib) old
      → All (IsAllowed lib) (elim new [ [] ↦ old | t ∷ ts ↦ t ∷ ts ])
  or_else-IsAllowed [] old h k = k
  or_else-IsAllowed (t ∷ ts) old h k = h

  add_targets-IsAllowed :
      (raws targets : List Text)
      → All (IsAllowed lib) targets
      → All (IsAllowed lib) (add_targets lib raws targets)
  unfolding add_targets
  add_targets-IsAllowed [] targets h = h
  add_targets-IsAllowed (raw ∷ raws) targets h =
      add_targets-IsAllowed raws (add_target lib raw targets).0 (add_target-IsAllowed raw targets h)

  call-IsAllowed :
      (c : Call) (targets : List Text)
      → All (IsAllowed lib) targets
      → All (IsAllowed lib) (call lib c targets)
  unfolding call set_targets
  call-IsAllowed (add raw) targets h = add_target-IsAllowed raw targets h
  call-IsAllowed (remove raw) targets h = remove_target-IsAllowed raw targets h
  call-IsAllowed (set raws) targets h =
      or_else-IsAllowed (valid_targets lib raws) targets (valid_targets-IsAllowed raws) h

  calls-IsAllowed :
      (calls : List Call) (targets : List Text)
      → All (IsAllowed lib) targets
      → All (IsAllowed lib) (run lib calls targets)
  unfolding run
  calls-IsAllowed [] targets h = h
  calls-IsAllowed (c ∷ calls) targets h =
      calls-IsAllowed calls (call lib c targets) (call-IsAllowed c targets h)

  -- After any calls on a new manager every target is an http or https URL whose host is not called
  -- localhost, is in neither .localhost nor .local, and, if it is an address, is a public one: an IPv4
  -- address outside the blocks 0/8, 10/8, 100.64/10, 127/8, 169.254/16, 172.16/12, 192.168/16 and 224/4, or
  -- an IPv6 address that package net calls neither loopback, nor private, nor link-local, nor
  -- unspecified. The conditions are that the two default targets are such URLs, and what package net
  -- documents of its tests on IPv4 addresses.
  pub run-IsAllowed :
      (initial : List Text) (calls : List Call)
      → All (IsAllowed lib) default_targets
      → All (IsAllowed lib) (run lib calls (new_target_manager lib initial))
  unfolding new_target_manager
  run-IsAllowed initial calls defaults = calls-IsAllowed calls (new_target_manager lib initial) (
      or_else-IsAllowed (add_targets lib initial []) default_targets
        (add_targets-IsAllowed initial [] tt) defaults)
