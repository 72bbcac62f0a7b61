-- ===== src/Telegram/Stats/Quota.antt =====
-- Which incidents are kept.
use xray_checker_tg_bot.Base.{
  Text, ℕ, zero, suc, ◌-◌, ◌≤◌, List, [], ◌∷◌, length, ◌≡◌, refl, arith, eqt, eqt_iff, leb,
  if◌then◌else◌,
}
use xray_checker_tg_bot.Telegram.Stats.{
  Incident, max_per_proxy, max_global, count_of, drop_last, first, add_incident,
}

count_of-drop_last :
    (id j : Text) (is : List Incident)
    → count_of j (drop_last id is) ≡ (if eqt id j then count_of j is - 1 else count_of j is)
unfolding count_of drop_last
count_of-drop_last id j [] = ground arith
count_of-drop_last id j (i ∷ is) =
    ground (
      arith,
      count_of-drop_last id j is,
      eqt_iff i.stable_id id,
      eqt_iff i.stable_id j,
      eqt_iff id j,
    )

count_of-first : (j : Text) (n : ℕ) (is : List Incident) → count_of j (first n is) ≤ count_of j is
unfolding count_of first
count_of-first j zero is = ground arith
count_of-first j (suc n) [] = ground arith
count_of-first j (suc n) (i ∷ is) = ground (arith, count_of-first j n is)

length-first : (n : ℕ) (is : List Incident) → length (first n is) ≤ n
unfolding first
length-first zero is = ground arith
length-first (suc n) [] = ground arith
length-first (suc n) (i ∷ is) = ground (arith, length-first n is)

-- No proxy has more than 15 incidents.
abbrev pub IsWithinQuota : List Incident → Type 0
IsWithinQuota is = (j : Text) → count_of j is ≤ max_per_proxy

count_of-kept :
    (inc : Incident) (j : Text) (is : List Incident)
    → IsWithinQuota is
    → count_of j (
        inc
        ∷ (if leb max_per_proxy (count_of inc.stable_id is)
            then drop_last inc.stable_id is
            else is))
      ≤ max_per_proxy
unfolding count_of
count_of-kept inc j is h =
    ground
      (arith, h j, h inc.stable_id, count_of-drop_last inc.stable_id j is, eqt_iff inc.stable_id j)

-- A new incident stands first; the list stays at 100 incidents or fewer; and if no proxy had more
-- than 15, none has.
pub add_incident-IsWithinQuota :
    (inc : Incident) (is : List Incident)
    → IsWithinQuota is
    → (first 1 (add_incident inc is) ≡ inc ∷ [])
      × (length (add_incident inc is) ≤ max_global)
      × IsWithinQuota (add_incident inc is)
unfolding add_incident first
add_incident-IsWithinQuota inc is h =
    let kept =
      if leb max_per_proxy (count_of inc.stable_id is) then drop_last inc.stable_id is else is in
    (
      refl,
      length-first max_global (inc ∷ kept),
      λ j. omega (arith, count_of-first j max_global (inc ∷ kept), count_of-kept inc j is h),
    )
