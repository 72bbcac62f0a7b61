-- ===== src/Telegram/Stats/Rolling.antt =====
-- telegram/stats.go: the transitions of the last days (RollingStats) and the ring buffer of the
-- latencies (LatencySamples). Latencies are whole milliseconds.
pub mod Alternates
use xray_checker_tg_bot.Base.{
  Text, ℕ, zero, suc, ◌+◌, ◌-◌, ◌%◌, Bool, true, false, ◌&&◌, ◌||◌, not, Option, none, some, List,
  [], ◌∷◌, ◌++◌, length, ltb, leb, ◌==◌, if◌then◌else◌,
}
use xray_checker_tg_bot.Base.Dict.{Dict, lookup, insert}

-- TransitionEvent
pub record TransitionEvent : Type 0 where
  pub timestamp : ℕ
  pub online : Bool

-- the events of RollingStats, the oldest first
abbrev pub Events : Type 0
Events = Dict (List TransitionEvent)

-- `NewRollingStats(1000)`
abbrev pub max_size : ℕ
max_size = 1000

abbrev pub events_of : Option (List TransitionEvent) → List TransitionEvent
events_of none = []
events_of (some evs) = evs

abbrev pub same : Bool → Bool → Bool
same true b = b
same false b = not b

-- `len(evs) > 0 && evs[len(evs)-1].Online == online`
unfoldable pub last_is : Bool → List TransitionEvent → Bool
last_is online [] = false
last_is online (e ∷ []) = same e.online online
last_is online (e ∷ e' ∷ evs) = last_is online (e' ∷ evs)

-- evs[k:]
unfoldable pub drop {ℓ} : {A : Type ℓ} → ℕ → List A → List A
drop zero xs = xs
drop (suc n) [] = []
drop (suc n) (x ∷ xs) = drop n xs

unfoldable pub append_event : Bool → ℕ → List TransitionEvent → List TransitionEvent
unfolding drop
append_event online ts evs =
    let longer = evs ++ (record { timestamp = ts; online = online } ∷ []) in
    if ltb max_size (length longer) then drop (length longer - max_size) longer else longer

-- Record
unfoldable pub record_event : Text → Bool → ℕ → Events → Events
record_event stable_id online ts events =
    let evs = events_of (lookup stable_id events) in
    if last_is online evs then events else insert stable_id (append_event online ts evs) events

-- the loop of FlapCount24h
unfoldable pub count_flaps : ℕ → List TransitionEvent → ℕ
count_flaps now [] = 0
count_flaps now (e ∷ evs) =
    if leb (now - 86400) e.timestamp && leb e.timestamp now && not e.online
    then suc (count_flaps now evs)
    else count_flaps now evs

-- FlapCount24h
unfoldable pub flap_count_24h : Text → ℕ → Events → ℕ
unfolding count_flaps
flap_count_24h stable_id now events = count_flaps now (events_of (lookup stable_id events))

-- LatencySamples; the samples are as many as `max_samples`.
pub record LatencySamples : Type 0 where
  pub samples : List ℕ
  pub idx : ℕ
  pub count : ℕ
  pub max_samples : ℕ

unfoldable pub zeros : ℕ → List ℕ
zeros zero = []
zeros (suc n) = 0 ∷ zeros n

-- NewLatencySamples
unfoldable pub new_samples : ℕ → LatencySamples
unfolding zeros
new_samples max =
    let size = if max == 0 then 100 else max in
    record { samples = zeros size; idx = 0; count = 0; max_samples = size }

unfoldable pub set : List ℕ → ℕ → ℕ → List ℕ
set [] i v = []
set (x ∷ xs) zero v = v ∷ xs
set (x ∷ xs) (suc i) v = x ∷ set xs i v

-- Add
unfoldable pub add_sample : ℕ → LatencySamples → LatencySamples
unfolding set
add_sample latency_ms l = if latency_ms == 0 then l else record l {
  samples = set l.samples l.idx latency_ms;
  idx = (l.idx + 1) % l.max_samples;
  count = if ltb l.count l.max_samples then l.count + 1 else l.count;
}
