-- ===== src/Hub/Waiting.antt =====
-- A handler that gets a room of backend/internal/websocket/hub.go just before it is cleaned up
-- (`HandleWebSocket` of backend/internal/handlers/ws_handler.go).
use mathlib.Core.Option.{none-ne-some, some-injective}
use mathlib.Core.List.{◌++◌}
use mathlib.Core.Path.{subst}
use poll.Prelude.{
  ℕ, zero, suc, String, ◌≡◌, refl, ap, sym, ◌∙◌, true, false, Option, none, some, List, [], ◌∷◌,
  eqb, get_elem?, set, value_at, if◌then◌else◌, inl, inr, Bool-cases, Option-cases,
}
use poll.Hub.{
  Client, Room, Event, connects, registers, unregisters, writes, inits, posts, broadcasts, step, at,
  with_clients, write, send_init, post, new_client,
}
use poll.Hub.Rooms.{
  needs_loop, and_then, hub_run, Loop, Hub, new_loop, get_or_create_room, step_loop, with_room,
  in_loop, cancel, finish_loop, clean_up, HubEvent, asks, cleans, returns, happens, hub_step,
  room_viewers,
}
use poll.Hub.Waiters.{
  IsWaiting, append-IsWaiting, at-IsWaiting, write-KeepsWaiting, init-KeepsWaiting,
}

-- A room whose loop has returned, with a client whose handler waits for it.
abbrev pub IsStuck : ℕ → Loop → Type 0
IsStuck i l = (l.is_running ≡ false) × IsWaiting i l.room.clients

with-IsWaiting :
    (i : ℕ) (r s : Room) (o : Option (List Client))
    → ((ds : List Client) → o ≡ some ds → IsWaiting i ds)
    → with_clients r o ≡ some s
    → IsWaiting i s.clients
with-IsWaiting i r s none h e = absurd (none-ne-some s e)
with-IsWaiting i r s (some ds) h e =
    subst (λ (t : Room). IsWaiting i t.clients) (some-injective (record r { clients = ds }) s e)
      (h ds refl)

same_room : (i : ℕ) (r s : Room) → some r ≡ some s → IsWaiting i r.clients → IsWaiting i s.clients
same_room i r s e h = subst (λ (t : Room). IsWaiting i t.clients) (some-injective r s e) h

idle :
    (e : Event) (l : Loop)
    → l.is_running ≡ false
    → needs_loop e ≡ true
    → step_loop e l ≡ some l.room
idle e l h n = rw (n, h) refl

step_loop-IsWaiting :
    (i : ℕ) (e : Event) (l : Loop) (r : Room)
    → IsStuck i l
    → step_loop e l ≡ some r
    → IsWaiting i r.clients
unfolding step post
step_loop-IsWaiting i connects l r (h, w) e =
    same_room i (record l.room { clients = l.room.clients ++ new_client ∷ [] }) r e
      (append-IsWaiting i l.room.clients new_client w)
step_loop-IsWaiting i (registers j) l r (h, w) e =
    same_room i l.room r (sym (idle (registers j) l h refl) ∙ e) w
step_loop-IsWaiting i (unregisters j) l r (h, w) e =
    same_room i l.room r (sym (idle (unregisters j) l h refl) ∙ e) w
step_loop-IsWaiting i broadcasts l r (h, w) e =
    same_room i l.room r (sym (idle broadcasts l h refl) ∙ e) w
step_loop-IsWaiting i (writes j) l r (h, w) e =
    with-IsWaiting i l.room r (at write j l.room.clients)
      (λ ds g. at-IsWaiting write j i l.room.clients ds write-KeepsWaiting g w) e
step_loop-IsWaiting i (inits j live) l r (h, w) e =
    with-IsWaiting i l.room r (at (send_init live) j l.room.clients)
      (λ ds g. at-IsWaiting (send_init live) j i l.room.clients ds (init-KeepsWaiting live) g w) e
step_loop-IsWaiting i (posts m) l r (h, w) e =
    same_room i (record l.room { broadcast = l.room.broadcast ++ m ∷ [] }) r e w

-- the room with a number is stuck
abbrev pub StuckAt : ℕ → ℕ → List Loop → Type 0
StuckAt n i loops = (l : Loop) × (get_elem? loops n ≡ some l) × IsStuck i l

append-StuckAt :
    (n i : ℕ) (loops : List Loop) (x : Loop) → StuckAt n i loops → StuckAt n i (loops ++ x ∷ [])
append-StuckAt n i [] x (l, e, h) = absurd (none-ne-some l e)
append-StuckAt zero i (y ∷ loops) x s = s
append-StuckAt (suc n) i (y ∷ loops) x s = append-StuckAt n i loops x s

set-StuckAt :
    (m n i : ℕ) (loops : List Loop) (x v : Loop)
    → get_elem? loops m ≡ some x
    → (IsStuck i x → IsStuck i v)
    → StuckAt n i loops
    → StuckAt n i (set loops m v)
set-StuckAt m n i [] x v g k (l, e, h) = absurd (none-ne-some l e)
set-StuckAt zero zero i (y ∷ loops) x v g k (l, e, h) =
    (v, refl, k (subst (IsStuck i) (some-injective l x (sym e ∙ g)) h))
set-StuckAt zero (suc n) i (y ∷ loops) x v g k s = s
set-StuckAt (suc m) zero i (y ∷ loops) x v g k s = s
set-StuckAt (suc m) (suc n) i (y ∷ loops) x v g k s = set-StuckAt m n i loops x v g k s

in_loop-StuckAt :
    (m n i : ℕ) (e : Event) (h h' : Hub) (o : Option Loop)
    → get_elem? h.loops m ≡ o
    → in_loop m e h o ≡ some h'
    → StuckAt n i h.loops
    → StuckAt n i h'.loops
in_loop-StuckAt m n i e h h' none g q s =
    subst (λ (k : Hub). StuckAt n i k.loops) (some-injective h h' q) s
in_loop-StuckAt m n i e h h' (some x) g q s = elim (Option-cases (step_loop e x)) [
  | inl none_left ↦ absurd (none-ne-some h' (sym (ap (with_room m x h) none_left) ∙ q))
  | inr (r, moved) ↦
      subst (λ (k : Hub). StuckAt n i k.loops)
        (some-injective (record h { loops = set h.loops m (record x { room = r }) }) h'
          (sym (ap (with_room m x h) moved) ∙ q))
        (set-StuckAt m n i h.loops x (record x { room = r }) g
          (λ stuck. (stuck.0, step_loop-IsWaiting i e x r stuck moved)) s)
]

clean_up-StuckAt :
    (n i : ℕ) (poll_id : String) (h : Hub)
    → StuckAt n i h.loops
    → StuckAt n i (clean_up poll_id h).loops
unfolding clean_up
clean_up-StuckAt n i poll_id h s = elim (Option-cases (value_at poll_id h.rooms)) [
  | inl e ↦ rw (e, clean_up) s
  | inr (m, e) ↦ elim (Bool-cases (eqb (room_viewers (get_elem? h.loops m)) 0)) [
    | inr full ↦ rw (e, clean_up) (rw full s)
    | inl free ↦ rw (e, clean_up) (rw free (cancelled m (get_elem? h.loops m) refl))
  ]
]
  where
    cancelled :
        (m : ℕ) (o : Option Loop) → get_elem? h.loops m ≡ o → StuckAt n i (cancel m h.loops o)
    cancelled m none g = s
    cancelled m (some x) g =
        set-StuckAt m n i h.loops x (record x { is_cancelled = true }) g (λ stuck. stuck) s

finish-StuckAt :
    (m n i : ℕ) (loops : List Loop) (o : Option Loop)
    → get_elem? loops m ≡ o
    → StuckAt n i loops
    → StuckAt n i (finish_loop m loops o)
finish-StuckAt m n i loops none g s = s
finish-StuckAt m n i loops (some x) g s = elim (Bool-cases x.is_cancelled) [
  | inl e ↦
      subst (λ b. StuckAt n i (if b then set loops m (record x { is_running = false }) else loops))
        (sym e)
        (set-StuckAt m n i loops x (record x { is_running = false }) g (λ stuck. (refl, stuck.1)) s)
  | inr e ↦
      subst (λ b. StuckAt n i (if b then set loops m (record x { is_running = false }) else loops))
        (sym e) s
]

room-StuckAt :
    (n i : ℕ) (poll_id : String) (h : Hub)
    → StuckAt n i h.loops
    → StuckAt n i (get_or_create_room poll_id h).1.loops
unfolding get_or_create_room
room-StuckAt n i poll_id h s = elim (Option-cases (value_at poll_id h.rooms)) [
  | inl e ↦ rw (e, get_or_create_room) (append-StuckAt n i h.loops new_loop s)
  | inr (m, e) ↦ rw (e, get_or_create_room) s
]

hub_step-StuckAt :
    (n i : ℕ) (e : HubEvent) (h h' : Hub)
    → hub_step e h ≡ some h'
    → StuckAt n i h.loops
    → StuckAt n i h'.loops
unfolding hub_step
hub_step-StuckAt n i (asks poll_id) h h' q s =
    let (m, k) = get_or_create_room poll_id h in
    in_loop-StuckAt m n i connects k h' (get_elem? k.loops m) refl q (room-StuckAt n i poll_id h s)
hub_step-StuckAt n i (cleans poll_id) h h' q s =
    subst (λ (k : Hub). StuckAt n i k.loops) (some-injective (clean_up poll_id h) h' q)
      (clean_up-StuckAt n i poll_id h s)
hub_step-StuckAt n i (returns m) h h' q s =
    subst (λ (k : Hub). StuckAt n i k.loops)
      (some-injective (record h { loops = finish_loop m h.loops (get_elem? h.loops m) }) h' q)
      (finish-StuckAt m n i h.loops (get_elem? h.loops m) refl s)
hub_step-StuckAt n i (happens m e) h h' q s =
    in_loop-StuckAt m n i e h h' (get_elem? h.loops m) refl q s

-- A handler that waits for a room whose loop has returned waits for ever: whatever happens in the hub,
-- that room does not run again, and the client stays out of it.
pub waits_for_ever :
    (n i : ℕ) (es : List HubEvent) (h h' : Hub)
    → StuckAt n i h.loops
    → hub_run es h ≡ some h'
    → StuckAt n i h'.loops
unfolding hub_run
waits_for_ever n i [] h h' s q = subst (λ (k : Hub). StuckAt n i k.loops) (some-injective h h' q) s
waits_for_ever n i (e ∷ es) h h' s q = elim (Option-cases (hub_step e h)) [
  | inl g ↦ absurd (none-ne-some h' (sym (ap (and_then (hub_run es)) g) ∙ q))
  | inr (k, g) ↦
      waits_for_ever n i es k h' (hub_step-StuckAt n i e h k g s)
        (sym (ap (and_then (hub_run es)) g) ∙ q)
]
