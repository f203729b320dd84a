-- ===== src/Live/Stale.antt =====
-- What is left of an earlier `pollId` when the hook gets another one
-- (frontend/src/hooks/usePollLiveResults.js): `isMountedRef` is one for all runs of the effect.
use poll.Prelude.{
  ℕ, zero, suc, set, String, ◌≡◌, refl, true, false, some, List, [], ◌∷◌, arith, is_empty,
}
use poll.Models.{LivePollResult}
use poll.Live.{
  Hook, Socket, Event, effect, dispose, open_event, close_event, message_event, timeout_event,
  vote_update, Run, poll_at, retry_of, run_events, start, poll_of, socket_run, reconnecting, step,
}

poll_at-set :
    (runs : List Run) (r n : ℕ)
    → poll_at (set runs r (record { poll_id = poll_at runs r; retry_count = n })) r ≡ poll_at runs r
poll_at-set [] r n = refl
poll_at-set (x ∷ runs) zero n = refl
poll_at-set (x ∷ runs) (suc r) n = poll_at-set runs r n

-- In a mounted hook a connection that closes is replaced when its delay is over: by one of the run
-- that opened it, whether that run is the current one or not, under the next free number.
pub close_reconnects :
    (s : ℕ) (x : Socket) (h : Hook)
    → h.is_mounted ≡ true
    → socket_run s h ≡ some x
    → is_empty (poll_of x.run h) ≡ false
    → let h' = run_events (close_event s ∷ timeout_event false h.next_timeout ∷ []) h in
      (socket_run h.next_socket h' ≡ some (record { id = h.next_socket; run = x.run }))
      × (h'.connection_status ≡ reconnecting)
unfolding run_events
close_reconnects s x h on found poll =
    ground (arith, poll_at-set h.runs x.run (suc (retry_of x.run h)))

-- The page goes from poll `a` to poll `b`, and the socket of `a` sends its close event after that.
abbrev pub switch : (a b : String) → List Event
switch a b =
    effect false a
    ∷ open_event 0
    ∷ dispose
    ∷ effect false b
    ∷ open_event 1
    ∷ close_event 0
    ∷ timeout_event false 0
    ∷ open_event 2
    ∷ []

-- Then the hook holds a socket for each of the two polls, and shows the next result that the one of
-- poll `a` sends.
pub switch_keeps_both :
    (a b : String) (p : LivePollResult)
    → is_empty a ≡ false
    → is_empty b ≡ false
    → let h = run_events (switch a b) start in
      (socket_run 1 h ≡ some (record { id = 1; run = 1 }))
      × (poll_of 1 h ≡ b)
      × (socket_run 2 h ≡ some (record { id = 2; run = 0 }))
      × (poll_of 0 h ≡ a)
      × ((step (message_event 2 (some (vote_update p))) h).live_data ≡ some p)
unfolding run_events
switch_keeps_both String.[] b p ha hb = cc
switch_keeps_both (String.◌∷◌ c a) String.[] p ha hb = cc
switch_keeps_both (String.◌∷◌ c a) (String.◌∷◌ d b) p ha hb = (refl, refl, refl, refl, refl)
