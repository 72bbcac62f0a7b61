-- ===== src/Telegram/Tracker/Refine.antt =====
-- AlertTracker against a table from chats, topics and proxies to alerts.
use xray_checker_tg_bot.Base.{
  Text, ℤ, Bool, ◌&&◌, Option, none, some, is_some, List, [], ◌∷◌, if◌then◌else◌, ◌≡◌, fun_ext,
  refl, sym, ◌∙◌, ap, arith, eqt, eqt_iff, eqt_refl, eqz, eqz_iff, Bool-cases, inl, inr,
}
use xray_checker_tg_bot.Base.Dict.{lookup}
use xray_checker_tg_bot.Base.Dict.Laws.{lookup-insert, lookup-erase}
use xray_checker_tg_bot.Telegram.Tracker.Laws.{alert_key-injective}
use xray_checker_tg_bot.Telegram.Tracker.{ActiveAlert, Alerts, alert_key, has_alert, track, resolve}

-- the specification: the alert of a chat, a topic and a proxy
abbrev pub Table : Type 0
Table = ℤ → ℤ → Text → Option ActiveAlert

-- Is it the same chat, topic and proxy?
abbrev pub is_same : ℤ → ℤ → Text → ℤ → ℤ → Text → Bool
is_same c t s d u r = eqz c d && eqz t u && eqt s r

abbrev pub set : ℤ → ℤ → Text → Option ActiveAlert → Table → Table
set c t s value table d u r = if is_same c t s d u r then value else table d u r

-- a call on the tracker, and its answer
pub data Call : Type 0 where
  tracks : ActiveAlert → Call
  resolves : ℤ → ℤ → Text → Call
  asks : ℤ → ℤ → Text → Call

pub data Answer : Type 0 where
  tracked : Answer
  resolved : Option ActiveAlert → Answer
  answered : Bool → Answer

-- the calls one after another, on the tracker
unfoldable pub run : List Call → Alerts → List Answer × Alerts
run [] alerts = ([], alerts)
run (tracks a ∷ calls) alerts = let rest = run calls (track a alerts) in (tracked ∷ rest.0, rest.1)
run (resolves c t s ∷ calls) alerts =
    let here = resolve c t s alerts in
    let rest = run calls here.0 in (resolved here.1 ∷ rest.0, rest.1)
run (asks c t s ∷ calls) alerts =
    let rest = run calls alerts in (answered (has_alert c t s alerts) ∷ rest.0, rest.1)

-- the same calls on a table
unfoldable pub run_table : List Call → Table → List Answer × Table
run_table [] table = ([], table)
run_table (tracks a ∷ calls) table =
    let rest = run_table calls (set a.chat_id a.thread_id a.stable_id (some a) table) in
    (tracked ∷ rest.0, rest.1)
run_table (resolves c t s ∷ calls) table =
    let rest = run_table calls (set c t s none table) in (resolved (table c t s) ∷ rest.0, rest.1)
run_table (asks c t s ∷ calls) table =
    let rest = run_table calls table in (answered (is_some (table c t s)) ∷ rest.0, rest.1)

-- the table that a tracker holds
unfoldable pub table_of : Alerts → Table
table_of alerts c t s = lookup (alert_key c t s) alerts

same_key :
    (c t d u : ℤ) (s r : Text) → eqt (alert_key c t s) (alert_key d u r) ≡ is_same c t s d u r
same_key c t d u s r = elim (Bool-cases (is_same c t s d u r)) [
  | inl same ↦
      let ec = (eqz_iff c d).0 (ground arith) in
      let et = (eqz_iff t u).0 (ground arith) in
      let es = (eqt_iff s r).0 (ground arith) in
      rw (ec, et, es)
        (ground (arith, eqt_refl (alert_key d u r), eqz_iff d d, eqz_iff u u, eqt_refl r))
  | inr other ↦ ground (
    arith,
    eqt_iff (alert_key c t s) (alert_key d u r),
    alert_key-injective c d t u s r,
    eqz_iff c d,
    eqz_iff t u,
    eqt_iff s r,
  )
]

-- What Track and Resolve do to the table.
table-track :
    (a : ActiveAlert) (alerts : Alerts)
    → table_of (track a alerts) ≡ set a.chat_id a.thread_id a.stable_id (some a) (table_of alerts)
unfolding table_of track
table-track a alerts =
    let key = alert_key a.chat_id a.thread_id a.stable_id in
    fun_ext (λ d. fun_ext (λ u. fun_ext (λ r.
      lookup-insert key (alert_key d u r) a alerts
      ∙ ap (λ b. if b then some a else lookup (alert_key d u r) alerts)
          (same_key a.chat_id a.thread_id d u a.stable_id r))))

resolve-lookup :
    (c t : ℤ) (s : Text) (alerts : Alerts) (j : Text)
    → lookup j (resolve c t s alerts).0
      ≡ (if eqt (alert_key c t s) j then none else lookup j alerts)
unfolding resolve
resolve-lookup c t s alerts j =
    ground (arith, lookup-erase (alert_key c t s) j alerts, eqt_iff (alert_key c t s) j)

table-resolve :
    (c t : ℤ) (s : Text) (alerts : Alerts)
    → table_of (resolve c t s alerts).0 ≡ set c t s none (table_of alerts)
unfolding table_of
table-resolve c t s alerts = fun_ext (λ d. fun_ext (λ u. fun_ext (λ r.
    resolve-lookup c t s alerts (alert_key d u r)
    ∙ ap (λ b. if b then none else lookup (alert_key d u r) alerts) (same_key c t d u s r))))

resolve-answer :
    (c t : ℤ) (s : Text) (alerts : Alerts) → (resolve c t s alerts).1 ≡ table_of alerts c t s
unfolding table_of resolve
resolve-answer c t s alerts = ground arith

-- Whatever calls of Track, Resolve and HasAlert follow one another, the tracker gives the answers of a
-- table with one place for each chat, topic and proxy, and holds what that table holds.
pub run_refines :
    (calls : List Call) (alerts : Alerts)
    → ((run calls alerts).0 ≡ (run_table calls (table_of alerts)).0)
      × (table_of (run calls alerts).1 ≡ (run_table calls (table_of alerts)).1)
unfolding run run_table has_alert table_of
run_refines [] alerts = (refl, refl)
run_refines (tracks a ∷ calls) alerts =
    let (answers, table) = run_refines calls (track a alerts) in
    rw (sym (table-track a alerts)) (ap (λ l. tracked ∷ l) answers, table)
run_refines (resolves c t s ∷ calls) alerts =
    let (answers, table) = run_refines calls (resolve c t s alerts).0 in
    rw (sym (table-resolve c t s alerts), resolve-answer c t s alerts)
      (ap (λ l. resolved (table_of alerts c t s) ∷ l) answers, table)
run_refines (asks c t s ∷ calls) alerts =
    let (answers, table) = run_refines calls alerts in
    (ap (λ l. answered (has_alert c t s alerts) ∷ l) answers, table)
