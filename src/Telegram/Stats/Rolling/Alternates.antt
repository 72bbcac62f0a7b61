-- ===== src/Telegram/Stats/Rolling/Alternates.antt =====
-- The history of a proxy's transitions.
use xray_checker_tg_bot.Base.{
  Text, ℕ, zero, suc, ◌-◌, ◌≤◌, Bool, false, List, [], ◌∷◌, ◌++◌, length, length-append, ◌+◌, true,
  ◌≡◌, ◌≢◌, ◌⊎◌, refl, sym, ◌∙◌, ap, subst, arith, eqt, eqt_iff, ltb, Bool-cases, inl, inr,
}
use xray_checker_tg_bot.Base.Dict.{lookup, insert}
use xray_checker_tg_bot.Base.Dict.Laws.{lookup-insert, lookup-insert_self}
use xray_checker_tg_bot.Telegram.Stats.Rolling.{
  TransitionEvent, Events, max_size, events_of, same, last_is, drop, append_event, record_event,
}

-- Two neighbours never have the same state.
abbrev pub Alternates : List TransitionEvent → Type 0
Alternates [] = Unit
Alternates (e ∷ []) = Unit
Alternates (e ∷ e' ∷ evs) = (same e.online e'.online ≡ false) × Alternates (e' ∷ evs)

Alternates-snoc :
    (online : Bool) (ts : ℕ) (evs : List TransitionEvent)
    → last_is online evs ≡ false
    → Alternates evs
    → Alternates (evs ++ (record { timestamp = ts; online = online } ∷ []))
unfolding last_is
Alternates-snoc online ts [] h a = tt
Alternates-snoc online ts (e ∷ []) h a = (h, tt)
Alternates-snoc online ts (e ∷ e' ∷ evs) h a = (a.0, Alternates-snoc online ts (e' ∷ evs) h a.1)

Alternates-drop : (n : ℕ) (evs : List TransitionEvent) → Alternates evs → Alternates (drop n evs)
unfolding drop
Alternates-drop zero evs a = a
Alternates-drop (suc n) [] a = tt
Alternates-drop (suc n) (e ∷ []) a = Alternates-drop n [] tt
Alternates-drop (suc n) (e ∷ e' ∷ evs) a = Alternates-drop n (e' ∷ evs) a.1

length-drop {ℓ} : {A : Type ℓ} (n : ℕ) (xs : List A) → length (drop n xs) ≡ length xs - n
unfolding drop
length-drop zero xs = omega arith
length-drop (suc n) [] = omega arith
length-drop (suc n) (x ∷ xs) = omega (arith, length-drop n xs)

-- The history of every proxy alternates, and has at most 1000 events.
abbrev pub IsRolling : Events → Type 0
IsRolling events =
    (j : Text)
    → Alternates (events_of (lookup j events)) × (length (events_of (lookup j events)) ≤ max_size)

append_event-IsRolling :
    (online : Bool) (ts : ℕ) (evs : List TransitionEvent)
    → last_is online evs ≡ false
    → Alternates evs
    → Alternates (append_event online ts evs) × (length (append_event online ts evs) ≤ max_size)
unfolding append_event
append_event-IsRolling online ts evs h a =
    let longer = evs ++ (record { timestamp = ts; online = online } ∷ []) in
    let alternates = Alternates-snoc online ts evs h a in
    elim (Bool-cases (ltb max_size (length longer))) [
      | inl over ↦
          rw (over, append_event)
            (
              Alternates-drop (length longer - max_size) longer alternates,
              omega (arith, length-drop (length longer - max_size) longer),
            )
      | inr fits ↦ rw (fits, append_event) (alternates, ground arith)
    ]

-- What is dropped stands in front.
drop-append {ℓ} :
    {A : Type ℓ} (n : ℕ) (xs ys : List A)
    → n ≤ length xs
    → (gone : List A) × (kept : List A) × (xs ≡ gone ++ kept) × (drop n (xs ++ ys) ≡ kept ++ ys)
unfolding drop
drop-append zero xs ys h = ([], xs, refl, refl)
drop-append (suc n) [] ys h = absurd (omega (arith, h))
drop-append (suc n) (x ∷ xs) ys h =
    let (gone, kept, e, d) = drop-append n xs ys (omega (arith, h)) in
    (x ∷ gone, kept, ap (λ l. x ∷ l) e, d)

-- The history after an event: it is the same if its last state is that of the event, and else the event is
-- its end, and events at its beginning are gone only if the ring is full.
abbrev pub IsRecorded : Bool → ℕ → List TransitionEvent → List TransitionEvent → Type 0
IsRecorded online ts evs new =
    ((last_is online evs ≡ true) × (new ≡ evs))
    ⊎ ((last_is online evs ≡ false)
        × ((gone : List TransitionEvent) × (kept : List TransitionEvent) × (evs ≡ gone ++ kept)
            × (new ≡ kept ++ (record { timestamp = ts; online = online } ∷ []))
            × ((gone ≡ []) ⊎ (length new ≡ max_size))))

append_event-IsRecorded :
    (online : Bool) (ts : ℕ) (evs : List TransitionEvent)
    → last_is online evs ≡ false
    → IsRecorded online ts evs (append_event online ts evs)
unfolding append_event
append_event-IsRecorded online ts evs h =
    let event : List TransitionEvent = record { timestamp = ts; online = online } ∷ [] in
    let longer = evs ++ event in
    let size : length longer ≡ length evs + 1 = length-append evs event in
    elim (Bool-cases (ltb max_size (length longer))) [
      | inl over ↦
          let n = length longer - max_size in
          let (gone, kept, e, d) = drop-append n evs event (ground (arith, size)) in
          rw over (inr (h, (gone, kept, e, d, inr (ground (arith, length-drop n longer)))))
      | inr fits ↦ rw fits (inr (h, ([], evs, refl, refl, inl refl)))
    ]

record_event-own :
    (stable_id : Text) (online : Bool) (ts : ℕ) (events : Events)
    → IsRecorded online ts
        (events_of (lookup stable_id events))
        (events_of (lookup stable_id (record_event stable_id online ts events)))
unfolding record_event
record_event-own stable_id online ts events =
    let evs = events_of (lookup stable_id events) in
    let after = append_event online ts evs in
    elim (Bool-cases (last_is online evs)) [
      | inl repeated ↦
          let same : record_event stable_id online ts events ≡ events = ground arith in
          inl (repeated, ap (λ m. events_of (lookup stable_id m)) same)
      | inr changed ↦
          let new : record_event stable_id online ts events ≡ insert stable_id after events =
            ground arith in
          let own : events_of (lookup stable_id (record_event stable_id online ts events)) ≡ after =
            ap (λ m. events_of (lookup stable_id m)) new
            ∙ ap events_of (lookup-insert_self stable_id after events) in
          subst (IsRecorded online ts evs) (sym own) (append_event-IsRecorded online ts evs changed)
    ]

record_event-other :
    (stable_id : Text) (online : Bool) (ts : ℕ) (events : Events) (j : Text)
    → stable_id ≢ j
    → lookup j (record_event stable_id online ts events) ≡ lookup j events
unfolding record_event
record_event-other stable_id online ts events j ne =
    let after = append_event online ts (events_of (lookup stable_id events)) in
    ground (arith, lookup-insert stable_id j after events, eqt_iff stable_id j)

record_event-rolls :
    (stable_id : Text) (online : Bool) (ts : ℕ) (events : Events)
    → IsRolling events
    → IsRolling (record_event stable_id online ts events)
unfolding record_event
record_event-rolls stable_id online ts events h j =
    let evs = events_of (lookup stable_id events) in
    let after = append_event online ts evs in
    elim (Bool-cases (last_is online evs)) [
      | inl repeated ↦ rw (repeated, record_event) (h j)
      | inr changed ↦
          let found = lookup-insert stable_id j after events in
          rw (changed, record_event)
            (elim (Bool-cases (eqt stable_id j)) [
              | inl own ↦
                  rw (found, own) (append_event-IsRolling online ts evs changed (h stable_id).0)
              | inr other ↦ rw (found, other) (h j)
            ])
    ]

-- To record a state keeps every history alternating and bounded. A state that repeats the last one
-- leaves the history as it is; another one becomes its last event, and the oldest events make room only
-- if there are then 1000. The histories of the other proxies stay as they are.
pub record_event-IsRolling :
    (stable_id : Text) (online : Bool) (ts : ℕ) (events : Events)
    → IsRolling events
    → IsRolling (record_event stable_id online ts events)
      × IsRecorded online ts
          (events_of (lookup stable_id events))
          (events_of (lookup stable_id (record_event stable_id online ts events)))
      × ((j : Text)
          → stable_id ≢ j
          → lookup j (record_event stable_id online ts events) ≡ lookup j events)
record_event-IsRolling stable_id online ts events h = (
  record_event-rolls stable_id online ts events h,
  record_event-own stable_id online ts events,
  record_event-other stable_id online ts events,
)
