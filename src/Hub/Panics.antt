-- ===== src/Hub/Panics.antt =====
-- Where the room of backend/internal/websocket/hub.go panics.
use mathlib.Core.Option.{none-ne-some, some-injective}
use mathlib.Core.Path.{subst}
use mathlib.Core.List.{◌++◌}
use poll.Prelude.{
  ℕ, zero, suc, ◌≡◌, ◌≢◌, refl, ap, sym, ◌∙◌, Bool, true, false, ◌&&◌, Option, none, some, List, [],
  ◌∷◌, if◌then◌else◌, All, arith, Bool-cases, Option-cases, inl, inr,
}
use poll.Models.{LivePollResult}
use poll.Live.{Message, init}
use poll.Hub.{
  Pump, waits, reads, gone, Client, Room, new_client, send_or_skip, at, client_at, cons_both,
  send_init, write, post, Event, connects, registers, unregisters, writes, inits, posts, broadcasts,
  with_clients, take_broadcast, step, and_run, run, empty_room,
}
use poll.Hub.Fine.{skip-IsFine, register-IsFine, unregister-IsFine, deliver-IsFine}
use poll.Hub.Visits.{is_phase, IsFine, Gives, at-IsFine}

-- The first results come to a client whose channel is closed by then.
abbrev pub is_due : Option Client → Bool
is_due none = false
is_due (some c) = c.is_init_due && c.is_closed

abbrev pub is_late : Event → Room → Bool
is_late (inits i live) r = is_due (client_at i r.clients)
is_late _ r = false

abbrev pub is_panic : Option Room → Bool
is_panic none = true
is_panic (some r) = false

-- A room whose clients are fine
abbrev pub IsSafe : Room → Type 0
IsSafe r = All IsFine r.clients

with-Gives :
    (r : Room) (o : Option (List Client)) → Gives (All IsFine) o → Gives IsSafe (with_clients r o)
with-Gives r o (cs, e, fine) = (record r { clients = cs }, ap (with_clients r) e, fine)

append-IsFine : (cs : List Client) → All IsFine cs → All IsFine (cs ++ new_client ∷ [])
append-IsFine [] h = ((omega arith, refl), tt)
append-IsFine (c ∷ cs) (h, hs) = (h, append-IsFine cs hs)

init-IsFine :
    (live : LivePollResult) (c : Client)
    → is_due (some c) ≡ false
    → IsFine c
    → Gives IsFine (send_init live c)
unfolding send_init
init-IsFine live c h fine = by_pump c.pump
  where
    due :
        (b : Bool)
        → c.is_init_due ≡ b
        → Gives IsFine
            (if b then send_or_skip (init live) (record c { is_init_due = false }) else some c)
    due true e =
        skip-IsFine (init live) (record c { is_init_due = false })
          (ap (λ b. b && c.is_closed) (sym e) ∙ h) fine
    due false e = (c, refl, fine)

    by_pump :
        (p : Pump)
        → Gives IsFine (elim p [
          | waits ↦ some c
          | _ ↦
              if c.is_init_due
              then send_or_skip (init live) (record c { is_init_due = false })
              else some c
        ])
    by_pump waits = (c, refl, fine)
    by_pump reads = due c.is_init_due refl
    by_pump gone = due c.is_init_due refl

step-IsSafe : (e : Event) (r : Room) → is_late e r ≡ false → IsSafe r → Gives IsSafe (step e r)
unfolding step post write
step-IsSafe connects r h safe =
    (record r { clients = r.clients ++ new_client ∷ [] }, refl, append-IsFine r.clients safe)
step-IsSafe (registers i) r h safe = with-Gives r _ (register-IsFine i _ r.clients refl safe)
step-IsSafe (unregisters i) r h safe =
    with-Gives r _ (unregister-IsFine i _ _ r.clients refl refl safe)
step-IsSafe (writes i) r h safe = with-Gives r _ (
    at-IsFine write i r.clients (λ c e fine. (record c { send = [] }, refl, (omega arith, fine.1)))
      safe)
step-IsSafe (inits i live) r h safe = with-Gives r _ (
    at-IsFine (send_init live) i r.clients
      (λ c e fine. init-IsFine live c (sym (ap is_due e) ∙ h) fine) safe)
step-IsSafe (posts m) r h safe = (post m r, refl, ground arith)
step-IsSafe broadcasts r h safe = taken r.broadcast
  where
    taken : (ms : List Message) → Gives IsSafe (take_broadcast r ms)
    taken [] = (r, refl, safe)
    taken (m ∷ ms) = with-Gives (record r { broadcast = ms }) _ (deliver-IsFine m r.clients safe)

at-none :
    (f : Client → Option Client) (i : ℕ) (cs : List Client) (c : Client)
    → client_at i cs ≡ some c
    → f c ≡ none
    → at f i cs ≡ none
unfolding at
at-none f i [] c e h = absurd (none-ne-some c e)
at-none f zero (x ∷ cs) c e h = ap (λ o. cons_both o (some cs)) (ap f (some-injective x c e) ∙ h)
at-none f (suc i) (x ∷ cs) c e h = rw (at-none f i cs c e h) refl

pub client-IsFine :
    (i : ℕ) (cs : List Client) (c : Client) → client_at i cs ≡ some c → All IsFine cs → IsFine c
client-IsFine i [] c e h = absurd (none-ne-some c e)
client-IsFine zero (x ∷ cs) c e (h, hs) = subst IsFine (some-injective x c e) h
client-IsFine (suc i) (x ∷ cs) c e (h, hs) = client-IsFine i cs c e hs

late_init :
    (live : LivePollResult) (c : Client)
    → IsFine c
    → is_due (some c) ≡ true
    → send_init live c ≡ none
unfolding send_init send_or_skip
late_init live c fine h = by_pump c.pump fine.1
  where
    by_pump :
        (p : Pump)
        → is_phase p c.is_in_room c.is_closed ≡ true
        → ◌≡◌ {A = Option Client}
            (elim p [
              | waits ↦ some c
              | _ ↦
                  if c.is_init_due
                  then send_or_skip (init live) (record c { is_init_due = false })
                  else some c
            ])
            none
    by_pump waits k = absurd (waiting c.is_in_room c.is_closed c.is_init_due k h)
      where
        waiting : (r k d : Bool) → is_phase waits r k ≡ true → (d && k) ≢ true
        waiting false false true a b = cc
        waiting false false false a b = cc
        waiting true k d a b = cc
        waiting false true d a b = cc
    by_pump reads k = ground arith
    by_pump gone k = ground arith

false_not_true : false ≢ true
false_not_true e = cc

late_panics : (e : Event) (r : Room) → IsSafe r → is_late e r ≡ true → step e r ≡ none
unfolding step
late_panics (inits i live) r safe h = elim (Option-cases (client_at i r.clients)) [
  | inl e ↦ absurd (false_not_true (sym (ap is_due e) ∙ h))
  | inr (c, e) ↦ ap (with_clients r) (
      at-none (send_init live) i r.clients c e
        (late_init live c (client-IsFine i r.clients c e safe) (sym (ap is_due e) ∙ h)))
]
late_panics connects r safe h = cc
late_panics (registers i) r safe h = cc
late_panics (unregisters i) r safe h = cc
late_panics (writes i) r safe h = cc
late_panics (posts m) r safe h = cc
late_panics broadcasts r safe h = cc

run_from : (es : List Event) (r s : Room) → IsSafe r → run es r ≡ some s → IsSafe s
unfolding run
run_from [] r s safe h = subst IsSafe (some-injective r s h) safe
run_from (e ∷ es) r s safe h = elim (Bool-cases (is_late e r)) [
  | inl late ↦ absurd (none-ne-some s (sym (ap (and_run (run es)) (late_panics e r safe late)) ∙ h))
  | inr due ↦
      let (t, at, fine) = step-IsSafe e r due safe in
      run_from es t s fine (sym (ap (and_run (run es)) at) ∙ h)
]

-- Whatever has happened in a room, no client is in it with a closed channel, no channel holds more
-- than 64 messages, and a client that has registered and is not in the room has a closed channel.
pub room-IsSafe : (es : List Event) (r : Room) → run es empty_room ≡ some r → All IsFine r.clients
room-IsSafe es r h = run_from es empty_room r tt h

-- Whatever has happened in a room, the next event panics exactly when the first results come to a
-- client whose channel is closed by then: no channel is closed twice, and neither a result nor a
-- count of viewers is sent to a closed one.
pub panics_when_late :
    (es : List Event) (e : Event) (r : Room)
    → run es empty_room ≡ some r
    → is_panic (step e r) ≡ is_late e r
panics_when_late es e r h = elim (Bool-cases (is_late e r)) [
  | inl late ↦ ap is_panic (late_panics e r (room-IsSafe es r h) late) ∙ sym late
  | inr due ↦ ap is_panic (step-IsSafe e r due (room-IsSafe es r h)).1 ∙ sym due
]
