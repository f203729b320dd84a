-- ===== src/Live.antt =====
-- frontend/src/hooks/usePollLiveResults.js: the state of the hook, and a step for each thing that
-- may happen to it. Sockets, timeouts and effect runs are numbered as they are made; an effect run
-- is one execution of the effect's body, with the `pollId` and the `retryCount` that it closes over.
pub mod Tests
pub mod Url
pub mod Backoff
pub mod Unmounted
pub mod Connections
pub mod Stale
pub mod Messages
use poll.Prelude.{
  ℕ, suc, ◌+◌, String, Bool, true, false, not, ◌||◌, Option, none, some, List, [], ◌∷◌, map, eqb,
  if◌then◌else◌, keep_if, find_first, get_elem?, set, length, is_empty,
}
use mathlib.Core.List.{◌++◌}
use poll.Models.{LivePollResult}
use Backoff.{backoff}

pub data Status : Type 0 where
  connecting connected reconnecting failing : Status

-- `message` after `JSON.parse`. A field `viewers` that is missing is `none`.
pub data Message : Type 0 where
  init vote_update : LivePollResult → Message
  viewer_count : Option ℕ → Message
  poll_closed poll_reopened other : Message

pub record Run : Type 0 where
  pub poll_id : String
  pub retry_count : ℕ

-- a `WebSocket` that has not sent its close event
pub record Socket : Type 0 where
  pub id : ℕ
  pub run : ℕ

-- a pending call of `connectWs`
pub record Timeout : Type 0 where
  pub id : ℕ
  pub run : ℕ
  pub delay : ℕ

pub record Hook : Type 0 where
  pub live_data : Option LivePollResult
  pub viewers : ℕ
  pub connection_status : Status
  pub error : Option String
  pub is_mounted : Bool
  pub ws_ref : Option ℕ
  pub timeout_ref : Option ℕ
  pub interval : Option ℕ
  pub runs : List Run
  pub sockets : List Socket
  pub timeouts : List Timeout
  pub next_socket : ℕ
  pub next_timeout : ℕ
  pub requests : List String

abbrev pub start : Hook
start = record {
  live_data = none;
  viewers = 1;
  connection_status = connecting;
  error = none;
  is_mounted = true;
  ws_ref = none;
  timeout_ref = none;
  interval = none;
  runs = [];
  sockets = [];
  timeouts = [];
  next_socket = 0;
  next_timeout = 0;
  requests = [];
}

-- `setTimeout(connectWs, delay)` in the run `r`
unfoldable pub schedule : ℕ → ℕ → Hook → Hook
schedule r delay h = record h {
  timeouts = record { id = h.next_timeout; run = r; delay = delay } ∷ h.timeouts;
  timeout_ref = some h.next_timeout;
  next_timeout = suc h.next_timeout;
}

abbrev pub poll_at : List Run → ℕ → String
poll_at runs r = elim (get_elem? runs r) [ none ↦ "" | some run ↦ run.poll_id ]

abbrev pub poll_of : ℕ → Hook → String
poll_of r h = poll_at h.runs r

abbrev pub retry_of : ℕ → Hook → ℕ
retry_of r h = elim (get_elem? h.runs r) [ none ↦ 0 | some run ↦ run.retry_count ]

abbrev set_retry : ℕ → ℕ → Hook → Hook
set_retry r n h = record h {
  runs = set h.runs r (record { poll_id = poll_of r h; retry_count = n });
}

-- `connectWs` of the run `r`; `throws` says whether the constructor `WebSocket` throws. A missing
-- `pollId` is the empty text.
unfoldable pub connect_ws : Bool → ℕ → Hook → Hook
unfolding schedule
connect_ws throws r h =
    if not h.is_mounted || is_empty (poll_of r h)
    then h
    else if throws
    then schedule r 3000 (record h { connection_status = failing })
    else record h {
      sockets = record { id = h.next_socket; run = r } ∷ h.sockets;
      ws_ref = some h.next_socket;
      next_socket = suc h.next_socket;
    }

-- `fetchInitialData` up to its first wait
abbrev fetch_initial_data : String → Hook → Hook
fetch_initial_data poll_id h = record h { requests = poll_id ∷ h.requests }

-- the body of the effect up to the first call of `connectWs`
unfoldable pub begin_run : String → Hook → Hook
begin_run poll_id h = fetch_initial_data poll_id (record h {
  is_mounted = true;
  runs = h.runs ++ record { poll_id = poll_id; retry_count = 0 } ∷ [];
})

-- the body of the effect
unfoldable pub run_effect : Bool → String → Hook → Hook
unfolding begin_run connect_ws
run_effect throws poll_id h =
    let r = length h.runs in
    record (connect_ws throws r (begin_run poll_id h)) { interval = some r }

-- the function that the effect returns; the close event of the socket comes later
unfoldable pub cleanup : Hook → Hook
cleanup h = record h {
  is_mounted = false;
  interval = none;
  timeouts = elim h.timeout_ref [
    | none ↦ h.timeouts
    | some t ↦ keep_if (λ x. not (eqb x.id t)) h.timeouts
  ];
}

-- the rest of `fetchInitialData`
unfoldable pub fetched : LivePollResult → Hook → Hook
fetched result h = if h.is_mounted then record h { live_data = some result } else h

unfoldable pub fetch_failed : String → Hook → Hook
fetch_failed message h = if h.is_mounted then record h { error = some message } else h

unfoldable pub on_open : ℕ → Hook → Hook
on_open r h =
    if h.is_mounted
    then set_retry r 0 (record h { connection_status = connected; error = none })
    else h

-- `prev ? { ...prev, isActive: b } : prev`
abbrev pub with_active : Bool → Option LivePollResult → Option LivePollResult
with_active b none = none
with_active b (some p) = some (record p { is_active = b })

-- `payload.viewers || 1`
abbrev pub viewers_or_one : Option ℕ → ℕ
viewers_or_one none = 1
viewers_or_one (some n) = if eqb n 0 then 1 else n

abbrev pub apply_message : Message → Hook → Hook
apply_message (init p) h = record h { live_data = some p }
apply_message (vote_update p) h = record h { live_data = some p }
apply_message (viewer_count n) h = record h { viewers = viewers_or_one n }
apply_message poll_closed h = record h { live_data = with_active false h.live_data }
apply_message poll_reopened h = record h { live_data = with_active true h.live_data }
apply_message other h = h

-- `none` is a frame that `JSON.parse` refuses: the exception is caught and logged.
unfoldable pub on_message : Option Message → Hook → Hook
on_message none h = h
on_message (some m) h = if h.is_mounted then apply_message m h else h

unfoldable pub on_close : ℕ → Hook → Hook
unfolding backoff schedule
on_close r h =
    if h.is_mounted
    then schedule r (backoff (retry_of r h))
        (set_retry r (suc (retry_of r h)) (record h { connection_status = reconnecting }))
    else h

unfoldable pub on_error : Hook → Hook
on_error h = if h.is_mounted then record h { connection_status = failing } else h

-- What may happen. Events of a socket that is closed, and of a timeout that is not pending, do not
-- come: a step on them changes nothing.
pub data Event : Type 0 where
  effect : (throws : Bool) (poll_id : String) → Event
  dispose : Event
  resolve : LivePollResult → Event
  reject : String → Event
  open_event close_event error_event : (socket : ℕ) → Event
  message_event : (socket : ℕ) → Option Message → Event
  timeout_event : (throws : Bool) (timeout : ℕ) → Event
  interval_event : Event

abbrev pub socket_run : ℕ → Hook → Option Socket
socket_run s h = find_first (λ x. eqb x.id s) h.sockets

abbrev pub pending : ℕ → Hook → Option Timeout
pending t h = find_first (λ x. eqb x.id t) h.timeouts

abbrev pub without_socket : ℕ → Hook → Hook
without_socket s h = record h { sockets = keep_if (λ x. not (eqb x.id s)) h.sockets }

abbrev pub without_timeout : ℕ → Hook → Hook
without_timeout t h = record h { timeouts = keep_if (λ x. not (eqb x.id t)) h.timeouts }

unfoldable pub step : Event → Hook → Hook
step (effect throws poll_id) h = run_effect throws poll_id h
step dispose h = cleanup h
step (resolve result) h = fetched result h
step (reject message) h = fetch_failed message h
step (open_event s) h = elim (socket_run s h) [ none ↦ h | some x ↦ on_open x.run h ]
step (message_event s m) h = elim (socket_run s h) [ none ↦ h | some x ↦ on_message m h ]
step (close_event s) h = elim (socket_run s h) [
  | none ↦ h
  | some x ↦ on_close x.run (without_socket s h)
]
step (error_event s) h = elim (socket_run s h) [ none ↦ h | some x ↦ on_error h ]
step (timeout_event throws t) h = elim (pending t h) [
  | none ↦ h
  | some x ↦ connect_ws throws x.run (without_timeout t h)
]
step interval_event h = elim h.interval [ none ↦ h | some r ↦ fetch_initial_data (poll_of r h) h ]

unfoldable pub run_events : List Event → Hook → Hook
unfolding step run_effect cleanup fetched fetch_failed on_open on_message on_close on_error
    connect_ws
run_events [] h = h
run_events (e ∷ es) h = run_events es (step e h)
