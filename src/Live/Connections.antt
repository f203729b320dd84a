-- ===== src/Live/Connections.antt =====
-- One run of the effect never holds two connections: in every state that the hook can reach, it
-- has one socket that is not closed, or one pending reconnection, or neither.
use poll.Prelude.{
  ℕ, String, suc, ◌+◌, ◌≤◌, ◌<◌, ◌≡◌, refl, Bool, not, Option, none, some, List, [], ◌∷◌, arith,
  eqb, if◌then◌else◌, ltb, keep_if, find_first, length, length-set, length-append, inl, inr,
  Option-cases,
}
use poll.Live.{
  Hook, Socket, Timeout, Event, effect, dispose, resolve, reject, open_event, close_event,
  error_event, message_event, timeout_event, interval_event, step, run_events, start, socket_run,
  pending, without_socket, without_timeout, connect_ws, on_close, run_effect, cleanup, on_open,
  on_message, on_error, fetched, fetch_failed, poll_of, retry_of, begin_run, Message,
}
use poll.Models.{LivePollResult}

module _ {A : Type 0} (f : A → ℕ) where
  -- how many elements have the number `r`
  abbrev pub count_of : ℕ → List A → ℕ
  count_of r [] = 0
  count_of r (x ∷ xs) = let n = count_of r xs in if eqb (f x) r then suc n else n

  count_of-keep_if :
      (r : ℕ) (test : A → Bool) (xs : List A) → count_of r (keep_if test xs) ≤ count_of r xs
  count_of-keep_if r test [] = omega arith
  count_of-keep_if r test (x ∷ xs) = ground (arith, count_of-keep_if r test xs)

  -- to take out what is found takes out one at least
  count_of-found :
      (id : A → ℕ) (i : ℕ) (xs : List A) (x : A)
      → find_first (λ y. eqb (id y) i) xs ≡ some x
      → count_of (f x) (keep_if (λ y. not (eqb (id y) i)) xs) < count_of (f x) xs
  count_of-found id i [] x h = cc
  count_of-found id i (y ∷ xs) x h =
      ground (arith, count_of-found id i xs x, count_of-keep_if (f x) (λ z. not (eqb (id z) i)) xs)

-- the open sockets and the pending reconnections of the run `r`
abbrev pub active : ℕ → Hook → ℕ
active r h =
    count_of (λ (s : Socket). s.run) r h.sockets + count_of (λ (t : Timeout). t.run) r h.timeouts

-- one for a run that was made, none for a number that is still free
abbrev pub limit : ℕ → Hook → ℕ
limit r h = if ltb r (length h.runs) then 1 else 0

abbrev pub IsSingle : Hook → Type 0
IsSingle h = (r : ℕ) → active r h ≤ limit r h

connect_ws-active :
    (throws : Bool) (q r : ℕ) (h : Hook)
    → (active r (connect_ws throws q h) ≤ (if eqb q r then suc (active r h) else active r h))
      × (length (connect_ws throws q h).runs ≡ length h.runs)
unfolding connect_ws
connect_ws-active throws q r h = ground arith

on_close-active :
    (q r : ℕ) (h : Hook)
    → (active r (on_close q h) ≤ (if eqb q r then suc (active r h) else active r h))
      × (length (on_close q h).runs ≡ length h.runs)
unfolding on_close
on_close-active q r h = ground (
  arith,
  length-set h.runs q (record { poll_id = poll_of q h; retry_count = suc (retry_of q h) }),
)

without_socket-active :
    (s r : ℕ) (x : Socket) (h : Hook)
    → socket_run s h ≡ some x
    → (if eqb x.run r then suc (active r (without_socket s h)) else active r (without_socket s h))
      ≤ active r h
without_socket-active s r x h e = ground (
  arith,
  count_of-found (λ (y : Socket). y.run) (λ y. y.id) s h.sockets x e,
  count_of-keep_if (λ (y : Socket). y.run) r (λ y. not (eqb y.id s)) h.sockets,
)

without_timeout-active :
    (t r : ℕ) (x : Timeout) (h : Hook)
    → pending t h ≡ some x
    → (if eqb x.run r then suc (active r (without_timeout t h)) else active r (without_timeout t h))
      ≤ active r h
without_timeout-active t r x h e = ground (
  arith,
  count_of-found (λ (y : Timeout). y.run) (λ y. y.id) t h.timeouts x e,
  count_of-keep_if (λ (y : Timeout). y.run) r (λ y. not (eqb y.id t)) h.timeouts,
)

cleanup-active :
    (r : ℕ) (h : Hook)
    → (active r (cleanup h) ≤ active r h) × (length (cleanup h).runs ≡ length h.runs)
unfolding cleanup
cleanup-active r h = elim (Option-cases h.timeout_ref) [
  | inl e ↦ rw (e, cleanup) (omega arith, refl)
  | inr (t, e) ↦
      ground (arith, count_of-keep_if (λ (y : Timeout). y.run) r (λ y. not (eqb y.id t)) h.timeouts)
]

-- the number of connections and of runs stay as they are
record IsSteady (h h' : Hook) : Type 0 where
  sockets : h'.sockets ≡ h.sockets
  timeouts : h'.timeouts ≡ h.timeouts
  runs : length h'.runs ≡ length h.runs

IsSteady-IsSingle : (h h' : Hook) → IsSteady h h' → IsSingle h → IsSingle h'
IsSteady-IsSingle h h' t single r = ground (arith, single r, t.sockets, t.timeouts, t.runs)

fetched-IsSteady : (p : LivePollResult) (h : Hook) → IsSteady h (fetched p h)
unfolding fetched
fetched-IsSteady p h = ground arith

fetch_failed-IsSteady : (m : String) (h : Hook) → IsSteady h (fetch_failed m h)
unfolding fetch_failed
fetch_failed-IsSteady m h = ground arith

on_open-IsSteady : (r : ℕ) (h : Hook) → IsSteady h (on_open r h)
unfolding on_open
on_open-IsSteady r h =
    ground (arith, length-set h.runs r (record { poll_id = poll_of r h; retry_count = 0 }))

on_message-IsSteady : (m : Option Message) (h : Hook) → IsSteady h (on_message m h)
unfolding on_message
on_message-IsSteady none h = ground arith
on_message-IsSteady (some m) h = ground arith

on_error-IsSteady : (h : Hook) → IsSteady h (on_error h)
unfolding on_error
on_error-IsSteady h = ground arith

-- a new run: its number was free
run_effect-IsSingle :
    (throws : Bool) (poll_id : String) (h : Hook)
    → IsSingle h
    → IsSingle (run_effect throws poll_id h)
unfolding run_effect
run_effect-IsSingle throws poll_id h single r = ground (
  arith,
  single r,
  connect_ws-active throws (length h.runs) r (begin_run poll_id h),
  length-append h.runs (record { poll_id = poll_id; retry_count = 0 } ∷ []),
)

step-IsSingle : (e : Event) (h : Hook) → IsSingle h → IsSingle (step e h)
unfolding step
step-IsSingle (effect throws poll_id) h single = run_effect-IsSingle throws poll_id h single
step-IsSingle dispose h single = λ r. ground (arith, single r, cleanup-active r h)
step-IsSingle (resolve p) h single = IsSteady-IsSingle _ _ (fetched-IsSteady p h) single
step-IsSingle (reject m) h single = IsSteady-IsSingle _ _ (fetch_failed-IsSteady m h) single
step-IsSingle (open_event s) h single = elim (Option-cases (socket_run s h)) [
  | inl e ↦ rw (e, step) single
  | inr (x, e) ↦ rw (e, step) (IsSteady-IsSingle _ _ (on_open-IsSteady x.run h) single)
]
step-IsSingle (message_event s m) h single = elim (Option-cases (socket_run s h)) [
  | inl e ↦ rw (e, step) single
  | inr (x, e) ↦ rw (e, step) (IsSteady-IsSingle _ _ (on_message-IsSteady m h) single)
]
step-IsSingle (close_event s) h single = elim (Option-cases (socket_run s h)) [
  | inl e ↦ rw (e, step) single
  | inr (x, e) ↦
      rw (e, step)
        λ r. ground (
          arith,
          single r,
          without_socket-active s r x h e,
          on_close-active x.run r (without_socket s h),
        )
]
step-IsSingle (error_event s) h single = elim (Option-cases (socket_run s h)) [
  | inl e ↦ rw (e, step) single
  | inr (x, e) ↦ rw (e, step) (IsSteady-IsSingle _ _ (on_error-IsSteady h) single)
]
step-IsSingle (timeout_event throws t) h single = elim (Option-cases (pending t h)) [
  | inl e ↦ rw (e, step) single
  | inr (x, e) ↦
      rw (e, step)
        λ r. ground (
          arith,
          single r,
          without_timeout-active t r x h e,
          connect_ws-active throws x.run r (without_timeout t h),
        )
]
step-IsSingle interval_event h single = λ r. ground (arith, single r)

run_events-IsSingle : (es : List Event) (h : Hook) → IsSingle h → IsSingle (run_events es h)
unfolding run_events
run_events-IsSingle [] h single = single
run_events-IsSingle (e ∷ es) h single = run_events-IsSingle es (step e h) (step-IsSingle e h single)

-- After any events a run of the effect has one socket that is not closed, or one pending
-- reconnection, or neither; a number that no run has got has neither.
pub one_connection :
    (es : List Event) (r : ℕ) → active r (run_events es start) ≤ limit r (run_events es start)
one_connection es = run_events-IsSingle es start (λ q. ground arith)
