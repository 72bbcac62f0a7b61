-- ===== src/Telegram/Tracker/Downtime.antt =====
-- The downtime and the alerts that it is counted from.
use xray_checker_tg_bot.Base.{
  Text, ℕ, ◌-◌, ◌≤◌, true, ◌&&◌, ◌||◌, [], ◌∷◌, ◌≡◌, ◌≢◌, ◌⊎◌, inl, inr, refl, arith, eqt, All,
  All-imp, Any, Any-imp, ltb, ◌==◌, Bool-cases,
}
use xray_checker_tg_bot.Telegram.Tracker.{ActiveAlert, Alerts, pick, earliest_from, get_downtime}

abbrev pub Of : Text → Text × ActiveAlert → Type 0
Of stable_id e = eqt e.1.stable_id stable_id ≡ true

-- The alerts of the proxy have a time.
abbrev pub IsTimed : Text → Alerts → Type 0
IsTimed stable_id = All (λ e. Of stable_id e → e.1.down_at ≢ 0)

earliest_from_start :
    (s : Text) (start : ℕ) (alerts : Alerts)
    → IsTimed s alerts
    → start ≢ 0
    → (earliest_from s start alerts ≤ start) × (earliest_from s start alerts ≢ 0)
unfolding earliest_from
earliest_from_start s start [] timed h = (omega arith, h)
earliest_from_start s start (e ∷ alerts) timed h = ground (
  arith,
  timed.0,
  earliest_from_start s start alerts timed.1,
  earliest_from_start s e.1.down_at alerts timed.1,
)

earliest_from_bound :
    (s : Text) (start : ℕ) (alerts : Alerts)
    → IsTimed s alerts
    → All
        (λ e.
          Of s e
          → (earliest_from s start alerts ≤ e.1.down_at) × (earliest_from s start alerts ≢ 0))
        alerts
unfolding earliest_from
earliest_from_bound s start [] timed = tt
earliest_from_bound s start (e ∷ alerts) timed = (
  λ own.
      let picked : (pick s start e.1 ≤ e.1.down_at) × (pick s start e.1 ≢ 0) =
        (ground (arith, timed.0 own), ground (arith, timed.0 own)) in
      let (below, there) = earliest_from_start s (pick s start e.1) alerts timed.1 picked.1 in
      (omega arith, there),
  earliest_from_bound s (pick s start e.1) alerts timed.1,
)

earliest_from_attained :
    (s : Text) (start : ℕ) (alerts : Alerts)
    → (earliest_from s start alerts ≡ start)
      ⊎ Any (λ e. Of s e × (e.1.down_at ≡ earliest_from s start alerts)) alerts
unfolding earliest_from
earliest_from_attained s start [] = inl refl
earliest_from_attained s start (e ∷ alerts) =
    elim (earliest_from_attained s (pick s start e.1) alerts) [
      | inr later ↦ inr (inr later)
      | inl here ↦
          elim (Bool-cases (eqt e.1.stable_id s && (start == 0 || ltb e.1.down_at start))) [
            | inl taken ↦ inr (inl (ground arith, ground arith))
            | inr kept ↦ inl (ground arith)
          ]
    ]

-- If every alert of the proxy has a time, the downtime is at least the time since each of them;
-- and it is the time since one of them, or the proxy has none and the downtime is 0.
pub get_downtime_lem :
    (s : Text) (now : ℕ) (alerts : Alerts)
    → IsTimed s alerts
    → All (λ e. Of s e → now - e.1.down_at ≤ get_downtime s now alerts) alerts
      × ((All (λ e. ¬ Of s e) alerts × (get_downtime s now alerts ≡ 0))
          ⊎ Any (λ e. Of s e × (get_downtime s now alerts ≡ now - e.1.down_at)) alerts)
unfolding get_downtime
get_downtime_lem s now alerts timed =
    let bound = earliest_from_bound s 0 alerts timed in
    (
      All-imp alerts (λ e h own. ground (arith, h own)) bound,
      elim (Bool-cases (earliest_from s 0 alerts == 0)) [
        | inl never ↦ inl (All-imp alerts (λ e h own. ground (arith, h own)) bound, ground arith)
        | inr timed ↦ elim (earliest_from_attained s 0 alerts) [
          | inl start ↦ absurd (ground arith)
          | inr found ↦ inr (Any-imp alerts (λ e h. (h.0, ground (arith, h.1))) found)
        ]
      ],
    )
