-- ===== src/Live/Unmounted.antt =====
-- After the hook's cleanup nothing that was under way writes to its state.
use poll.Prelude.{ℕ, ◌≡◌, refl, ◌∙◌, false, Option, List, [], ◌∷◌, arith, All, String}
use poll.Models.{LivePollResult}
use poll.Live.{Status, Hook, Event, effect, dispose, step, run_events}

-- what the hook returns to the page
abbrev pub Shown : Type 0
Shown = Option LivePollResult × ℕ × Status × Option String

abbrev pub shown : Hook → Shown
shown h = (h.live_data, h.viewers, h.connection_status, h.error)

-- every event but a new run of the effect
abbrev pub IsLate : Event → Type 0
IsLate (effect _ _) = ⊥
IsLate _ = Unit

record IsQuiet (h h' : Hook) : Type 0 where
  same : shown h' ≡ shown h
  unmounted : h'.is_mounted ≡ false
  no_socket : h'.next_socket ≡ h.next_socket
  no_timeout : h'.next_timeout ≡ h.next_timeout

step-IsQuiet : (e : Event) (h : Hook) → IsLate e → h.is_mounted ≡ false → IsQuiet h (step e h)
unfolding run_events
step-IsQuiet (effect _ _) h late off = elim late [ ]
step-IsQuiet _ h late off = ground arith

run_events-IsQuiet :
    (es : List Event) (h : Hook)
    → All IsLate es
    → h.is_mounted ≡ false
    → IsQuiet h (run_events es h)
unfolding run_events
run_events-IsQuiet [] h late off = record {
  same = refl;
  unmounted = off;
  no_socket = refl;
  no_timeout = refl;
}
run_events-IsQuiet (e ∷ es) h (l, late) off =
    let now = step-IsQuiet e h l off in
    let rest = run_events-IsQuiet es (step e h) late now.unmounted in
    record {
      same = rest.same ∙ now.same;
      unmounted = rest.unmounted;
      no_socket = rest.no_socket ∙ now.no_socket;
      no_timeout = rest.no_timeout ∙ now.no_timeout;
    }

-- After the cleanup, whatever answers, socket events and timeouts still come, and until the effect
-- runs again, the hook shows what it showed, opens no socket and schedules no reconnection.
pub dispose_silences :
    (es : List Event) (h : Hook)
    → All IsLate es
    → (shown (run_events es (step dispose h)) ≡ shown h)
      × ((run_events es (step dispose h)).next_socket ≡ h.next_socket)
      × ((run_events es (step dispose h)).next_timeout ≡ h.next_timeout)
dispose_silences es h late =
    unfold run_events in
    (let q = run_events-IsQuiet es (step dispose h) late refl in
      (q.same, q.no_socket, q.no_timeout))
