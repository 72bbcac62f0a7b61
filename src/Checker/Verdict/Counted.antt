-- ===== src/Checker/Verdict/Counted.antt =====
-- The counts of DetermineVerdict, and the status that follows from them.
use xray_checker_tg_bot.Base.{
  Text, codes, ℕ, suc, ◌≤◌, true, false, ◌&&◌, List, [], ◌∷◌, length, All, Any, ltb, ◌==◌,
  if◌then◌else◌, ◌≡◌, ◌≢◌, ◌↔◌, arith,
}
use xray_checker_tg_bot.Checker.Types.{TargetDiagResult, ProbeHealth}
use xray_checker_tg_bot.Checker.Verdict.{count, successes, determine_verdict}

abbrev pub Succeeds : TargetDiagResult → Type 0
Succeeds t = t.success ≡ true

abbrev pub Fails : TargetDiagResult → Type 0
Fails t = t.success ≡ false

-- The counts by what they count.
successes_le : (ts : List TargetDiagResult) → successes ts ≤ length ts
unfolding successes count
successes_le [] = omega arith
successes_le (t ∷ ts) = ground (arith, successes_le ts)

successes-All : (ts : List TargetDiagResult) → (successes ts ≡ length ts) ↔ All Succeeds ts
unfolding successes count
successes-All [] = ground arith
successes-All (t ∷ ts) = ground (arith, successes-All ts, successes_le ts)

pub successes-Fails : (ts : List TargetDiagResult) → (successes ts ≡ 0) ↔ All Fails ts
unfolding successes count
successes-Fails [] = ground arith
successes-Fails (t ∷ ts) = ground (arith, successes-Fails ts)

successes-Any : (ts : List TargetDiagResult) → (1 ≤ successes ts) ↔ Any Succeeds ts
unfolding successes count
successes-Any [] = ground arith
successes-Any (t ∷ ts) = ground (arith, successes-Any ts)

successes_lt : (ts : List TargetDiagResult) → (suc (successes ts) ≤ length ts) ↔ Any Fails ts
unfolding successes count
successes_lt [] = ground arith
successes_lt (t ∷ ts) = ground (arith, successes_lt ts, successes_le ts)

-- The status by the counts.
status_of : ℕ → ℕ → Text
status_of n total =
    if ltb 0 total && (n == total)
    then codes "online"
    else if ltb 0 n
    then codes "degraded"
    else codes "offline"

determine_verdict-status :
    (to_lower : Text → Text) (proto : Text) (health : ProbeHealth) (ts : List TargetDiagResult)
    → (determine_verdict to_lower proto health ts).0 ≡ status_of (successes ts) (length ts)
unfolding determine_verdict status_of
determine_verdict-status to_lower proto health ts = ground arith

status_of_lem :
    (n total : ℕ)
    → n ≤ total
    → ((status_of n total ≡ codes "online") ↔ ((1 ≤ total) × (n ≡ total)))
      × ((status_of n total ≡ codes "degraded") ↔ ((1 ≤ n) × (suc n ≤ total)))
      × ((status_of n total ≡ codes "offline") ↔ (n ≡ 0))
unfolding status_of
status_of_lem n total h = (ground arith, ground arith, ground arith)

length_some : (ts : List TargetDiagResult) → (1 ≤ length ts) ↔ (ts ≢ [])
length_some [] = ground arith
length_some (t ∷ ts) = ground arith

-- The status of a proxy is online exactly if there is a target and all of them answered, degraded exactly
-- if some did and some did not, and offline exactly if none did.
pub determine_verdict_lem :
    (to_lower : Text → Text) (proto : Text) (health : ProbeHealth) (ts : List TargetDiagResult)
    → let status = (determine_verdict to_lower proto health ts).0 in
      ((status ≡ codes "online") ↔ ((ts ≢ []) × All Succeeds ts))
      × ((status ≡ codes "degraded") ↔ (Any Succeeds ts × Any Fails ts))
      × ((status ≡ codes "offline") ↔ All Fails ts)
determine_verdict_lem to_lower proto health ts =
    let same = determine_verdict-status to_lower proto health ts in
    let (online, degraded, offline) = status_of_lem (successes ts) (length ts) (successes_le ts) in
    rw same (
      ground (arith, online, length_some ts, successes-All ts),
      ground (arith, degraded, successes-Any ts, successes_lt ts),
      ground (arith, offline, successes-Fails ts),
    )
