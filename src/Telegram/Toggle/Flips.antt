-- ===== src/Telegram/Toggle/Flips.antt =====
-- What a toggle changes.
use xray_checker_tg_bot.Base.{
  Text, false, ◌||◌, not, List, [], ◌∷◌, ◌++◌, ◌≡◌, arith, eqt, eqt_iff, trim_space, contains,
  contains-append, if◌then◌else◌,
}
use xray_checker_tg_bot.Telegram.Toggle.{
  is_proxy_disabled, without, toggle_proxy, normal, is_listed, is_host_disabled, without_host,
  toggle_host,
}

contains-without :
    (id j : Text) (l : List Text)
    → contains j (without id l) ≡ (if eqt id j then false else contains j l)
unfolding contains without
contains-without id j [] = ground arith
contains-without id j (x ∷ xs) =
    ground (arith, contains-without id j xs, eqt_iff x id, eqt_iff x j, eqt_iff id j)

-- ToggleProxy turns the state of the proxy whose identity it is given, without surrounding white
-- space, and returns it; the state of every other proxy stays.
pub toggle_proxy_lem :
    (disabled : List Text) (raw j : Text)
    → ((toggle_proxy disabled raw).1 ≡ not (is_proxy_disabled disabled (trim_space raw)))
      × (is_proxy_disabled (toggle_proxy disabled raw).0 j ≡ (
          if eqt (trim_space raw) j
          then not (is_proxy_disabled disabled j)
          else is_proxy_disabled disabled j))
unfolding toggle_proxy is_proxy_disabled contains
toggle_proxy_lem disabled raw j =
    let id = trim_space raw in
    (
      ground arith,
      ground (
        arith,
        contains-without id j disabled,
        contains-append j (without id disabled) (id ∷ []),
        eqt_iff id j,
      ),
    )

module _ (to_lower : Text → Text) where
  listed-without :
      (host j : Text) (l : List Text)
      → is_listed to_lower (without_host to_lower host l) j
        ≡ (if eqt host j then false else is_listed to_lower l j)
  unfolding is_listed without_host
  listed-without host j [] = ground arith
  listed-without host j (x ∷ xs) = ground (
    arith,
    listed-without host j xs,
    eqt_iff (normal to_lower x) host,
    eqt_iff (normal to_lower x) j,
    eqt_iff host j,
  )

  listed-snoc :
      (host j : Text) (l : List Text)
      → is_listed to_lower (l ++ (host ∷ [])) j
        ≡ (is_listed to_lower l j || eqt (normal to_lower host) j)
  unfolding is_listed
  listed-snoc host j [] = ground arith
  listed-snoc host j (x ∷ xs) = ground (arith, listed-snoc host j xs)

  -- ToggleHost turns the state of the host that it is given, however that is spelled in case and
  -- surrounding white space, and returns it; the state of every other host stays. The normal
  -- form of the name is its own normal form.
  pub toggle_host_lem :
      (disabled : List Text) (raw j : Text)
      → normal to_lower (normal to_lower raw) ≡ normal to_lower raw
      → ((toggle_host to_lower disabled raw).1 ≡ not (is_host_disabled to_lower disabled raw))
        × (is_host_disabled to_lower (toggle_host to_lower disabled raw).0 j ≡ (
            if eqt (normal to_lower raw) (normal to_lower j)
            then not (is_host_disabled to_lower disabled j)
            else is_host_disabled to_lower disabled j))
  unfolding toggle_host is_host_disabled
  toggle_host_lem disabled raw j idem =
      let host = normal to_lower raw in
      (
        ground arith,
        ground (
          arith,
          idem,
          listed-without host (normal to_lower j) disabled,
          listed-snoc host (normal to_lower j) (without_host to_lower host disabled),
          eqt_iff host (normal to_lower j),
        ),
      )
