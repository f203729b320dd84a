-- ===== src/Live/Messages.antt =====
-- What the page shows after a sequence of messages (`ws.onmessage` of
-- frontend/src/hooks/usePollLiveResults.js).
use poll.Prelude.{ℕ, ◌≡◌, refl, ◌∙◌, Bool, true, false, Option, none, some, List, [], ◌∷◌}
use poll.Models.{LivePollResult}
use poll.Live.{
  Hook, Socket, Message, init, vote_update, viewer_count, poll_closed, poll_reopened, other,
  message_event, step, apply_message, on_message, socket_run, with_active,
}

-- The messages arrive at the socket `s`; the newest stands first in the list.
pub receive : ℕ → List Message → Hook → Hook
receive s [] h = h
receive s (m ∷ older) h = step (message_event s (some m)) (receive s older h)

-- a result under a later change of status
abbrev pub under : Option Bool → Option LivePollResult → Option LivePollResult
under none d = d
under (some b) d = with_active b d

-- What should be shown, read from the newest message back: the newest result, or what was shown
-- before, under the newest change of status that came after it.
abbrev pub newest : List Message → Option Bool → Option LivePollResult → Option LivePollResult
newest [] change before = under change before
newest (init p ∷ older) change before = under change (some p)
newest (vote_update p ∷ older) change before = under change (some p)
newest (poll_closed ∷ older) none before = newest older (some false) before
newest (poll_reopened ∷ older) none before = newest older (some true) before
newest (_ ∷ older) change before = newest older change before

pub step_message :
    (s : ℕ) (x : Socket) (m : Message) (h : Hook)
    → h.is_mounted ≡ true
    → socket_run s h ≡ some x
    → step (message_event s (some m)) h ≡ apply_message m h
unfolding step on_message
step_message s x m h on found = rw (found, step) (rw (on, on_message) refl)

apply_message_open :
    (s : ℕ) (m : Message) (h : Hook)
    → ((apply_message m h).is_mounted ≡ h.is_mounted)
      × (socket_run s (apply_message m h) ≡ socket_run s h)
apply_message_open s (init p) h = (refl, refl)
apply_message_open s _ h = (refl, refl)

receive_open :
    (s : ℕ) (x : Socket) (ms : List Message) (h : Hook)
    → h.is_mounted ≡ true
    → socket_run s h ≡ some x
    → ((receive s ms h).is_mounted ≡ true) × (socket_run s (receive s ms h) ≡ some x)
unfolding receive
receive_open s x [] h on found = (on, found)
receive_open s x (m ∷ older) h on found =
    let (on', found') = receive_open s x older h on found in
    let (same, same_socket) = apply_message_open s m (receive s older h) in
    rw (step_message s x m (receive s older h) on' found') (same ∙ on', same_socket ∙ found')

-- a change of status under a later one does not show
under-with_active :
    (b c : Bool) (d : Option LivePollResult) → with_active b (with_active c d) ≡ with_active b d
under-with_active b c none = refl
under-with_active b c (some p) = refl

under-apply_message :
    (m : Message) (older : List Message) (change : Option Bool) (before : Option LivePollResult)
    (h : Hook)
    → ((c : Option Bool) → under c h.live_data ≡ newest older c before)
    → under change (apply_message m h).live_data ≡ newest (m ∷ older) change before
under-apply_message (init p) older change before h ih = refl
under-apply_message (vote_update p) older change before h ih = refl
under-apply_message poll_closed older none before h ih = ih (some false)
under-apply_message poll_closed older (some b) before h ih =
    under-with_active b false h.live_data ∙ ih (some b)
under-apply_message poll_reopened older none before h ih = ih (some true)
under-apply_message poll_reopened older (some b) before h ih =
    under-with_active b true h.live_data ∙ ih (some b)
under-apply_message (viewer_count n) older change before h ih = ih change
under-apply_message other older change before h ih = ih change

under-receive :
    (s : ℕ) (x : Socket) (ms : List Message) (h : Hook)
    → h.is_mounted ≡ true
    → socket_run s h ≡ some x
    → (change : Option Bool)
    → under change (receive s ms h).live_data ≡ newest ms change h.live_data
unfolding receive
under-receive s x [] h on found change = refl
under-receive s x (m ∷ older) h on found change =
    let (on', found') = receive_open s x older h on found in
    rw (step_message s x m (receive s older h) on' found') (
      under-apply_message m older change h.live_data (receive s older h)
        (under-receive s x older h on found))

-- While the hook is mounted and the socket open, the page shows the newest result that a message
-- has brought, or what it showed before, with the newest change of status after that result; the
-- counts of viewers and messages of other types do not matter.
pub receive-newest :
    (s : ℕ) (x : Socket) (ms : List Message) (h : Hook)
    → h.is_mounted ≡ true
    → socket_run s h ≡ some x
    → (receive s ms h).live_data ≡ newest ms none h.live_data
receive-newest s x ms h on found = under-receive s x ms h on found none
