-- ===== src/Live/Tests.antt =====
-- Runs of the hook (frontend/src/hooks/usePollLiveResults.js), and the theorems at an input.
use poll.Prelude.{true, List, ◌≤◌, ◌≡◌, refl, false, none, some, [], ◌∷◌}
use poll.Models.{LivePollResult}
use poll.Api.Base.{Env}
use poll.Live.{
  Hook, Event, vote_update, poll_closed, effect, dispose, resolve, reject, open_event, close_event,
  interval_event, start, step, run_events,
}
use poll.Live.Connections.{active, limit, one_connection}
use poll.Live.Unmounted.{shown, dispose_silences}
use poll.Live.Messages.{receive, receive-newest}
use poll.Live.Stale.{switch}

abbrev sample : LivePollResult
sample = record { poll_id = "p"; title = "t"; is_active = true; total_votes = 3; options = [] }

-- the hook with an open connection for poll `p`
abbrev live : Hook
unfolding run_events
live = run_events (effect false "p" ∷ open_event 0 ∷ []) start

one_connection_example :
    active 0 (run_events (switch "a" "b") start) ≤ limit 0 (run_events (switch "a" "b") start)
one_connection_example = one_connection (switch "a" "b") 0

abbrev late : List Event
late = resolve sample ∷ close_event 0 ∷ reject "x" ∷ interval_event ∷ []

dispose_silences_example :
    (shown (run_events late (step dispose live)) ≡ shown live)
    × ((run_events late (step dispose live)).next_socket ≡ live.next_socket)
    × ((run_events late (step dispose live)).next_timeout ≡ live.next_timeout)
dispose_silences_example = dispose_silences late live (tt, (tt, (tt, (tt, tt))))

receive-newest_example :
    (receive 0 (poll_closed ∷ vote_update sample ∷ []) live).live_data
    ≡ some (record sample { is_active = false })
unfolding run_events
receive-newest_example =
    receive-newest 0 (record { id = 0; run = 0 }) (poll_closed ∷ vote_update sample ∷ []) live refl
      refl

abbrev secure : Env
secure = record { vite_api_url = some " https://live.example/api/ "; vite_ws_url = none }
