-- ===== src/Telegram/Alerts/Digest.antt =====
-- The events that wait for a digest (EventBuffer of telegram/scheduler.go).
use mathlib.Core.List.{append_assoc, append-nil}
use xray_checker_tg_bot.Base.{List, [], ◌∷◌, ◌++◌, ◌≡◌, refl, sym, ◌∙◌, ap}
use xray_checker_tg_bot.Telegram.Alerts.{Bot, BufferedEvent}
use xray_checker_tg_bot.Telegram.Alerts.Observe.{add_event, drain}

abbrev add_events : List BufferedEvent → Bot → Bot
add_events [] b = b
add_events (e ∷ es) b = add_events es (add_event e b)

add_events-buffer :
    (es old : List BufferedEvent) (b : Bot)
    → b.event_buffer ≡ old
    → (add_events es b).event_buffer ≡ old ++ es
add_events-buffer [] old b h = h ∙ sym (append-nil old)
add_events-buffer (e ∷ es) old b h =
    add_events-buffer es (old ++ (e ∷ [])) (add_event e b) (ap (λ l. l ++ (e ∷ [])) h)
    ∙ append_assoc old (e ∷ []) es

-- A digest gives the events since the last one, each of them once and in their order.
pub drain-add_events :
    (es : List BufferedEvent) (b : Bot) → (drain (add_events es (drain b).1)).0 ≡ es
unfolding drain
drain-add_events es b = add_events-buffer es [] (record b { event_buffer = [] }) refl
