-- ===== src/Hub/Rooms.antt =====
-- The rooms of backend/internal/websocket/hub.go by their polls: `GetOrCreateRoom`, and the cleanup of a
-- room that has been empty.
use mathlib.Core.List.{◌++◌}
use poll.Prelude.{
  ℕ, String, Bool, true, false, ◌&&◌, not, Option, none, some, List, [], ◌∷◌, eqb, if◌then◌else◌,
  get_elem?, set, length, Assoc, value_at, put, delete,
}
use poll.Hub.{Room, Event, connects, registers, unregisters, broadcasts, step, empty_room, viewers}

-- A room with its goroutine. `is_cancelled` says that `CancelSub` was called, and `is_running` that the
-- loop has not returned: the `select` that finds `ctx.Done()` may take another case that is ready.
pub record Loop : Type 0 where
  pub room : Room
  pub is_cancelled : Bool
  pub is_running : Bool

-- `rooms` has the numbers of the rooms; a room stays in `loops` when it is no longer there.
pub record Hub : Type 0 where
  pub rooms : Assoc ℕ
  pub loops : List Loop

abbrev pub new_loop : Loop
new_loop = record { room = empty_room; is_cancelled = false; is_running = true }

unfoldable pub get_or_create_room : String → Hub → ℕ × Hub
get_or_create_room poll_id h = elim (value_at poll_id h.rooms) [
  | some n ↦ (n, h)
  | none ↦ (
    length h.loops,
    record { rooms = put poll_id (length h.loops) h.rooms; loops = h.loops ++ new_loop ∷ [] },
  )
]

-- whether an event is a case of the loop of `runRoom`, which needs its goroutine
abbrev pub needs_loop : Event → Bool
needs_loop (registers i) = true
needs_loop (unregisters i) = true
needs_loop broadcasts = true
needs_loop _ = false

abbrev pub step_loop : Event → Loop → Option Room
step_loop e l = if needs_loop e && not l.is_running then some l.room else step e l.room

abbrev pub with_room : ℕ → Loop → Hub → Option Room → Option Hub
with_room n l h none = none
with_room n l h (some r) = some (record h { loops = set h.loops n (record l { room = r }) })

-- an event of the room with a number
abbrev pub in_loop : ℕ → Event → Hub → Option Loop → Option Hub
in_loop n e h none = some h
in_loop n e h (some l) = with_room n l h (step_loop e l)

abbrev pub room_viewers : Option Loop → ℕ
room_viewers none = 0
room_viewers (some l) = viewers l.room.clients

abbrev pub cancel : ℕ → List Loop → Option Loop → List Loop
cancel n loops none = loops
cancel n loops (some l) = set loops n (record l { is_cancelled = true })

-- the goroutine after its 30 seconds
unfoldable pub clean_up : String → Hub → Hub
clean_up poll_id h = elim (value_at poll_id h.rooms) [
  | none ↦ h
  | some n ↦
      if eqb (room_viewers (get_elem? h.loops n)) 0
      then record { rooms = delete poll_id h.rooms; loops = cancel n h.loops (get_elem? h.loops n) }
      else h
]

-- `case <-ctx.Done(): return`, which is there once the room is cancelled
abbrev pub finish_loop : ℕ → List Loop → Option Loop → List Loop
finish_loop n loops none = loops
finish_loop n loops (some l) =
    if l.is_cancelled then set loops n (record l { is_running = false }) else loops

-- `returns` is the turn of the loop that takes `ctx.Done()`.
pub data HubEvent : Type 0 where
  asks cleans : (poll_id : String) → HubEvent
  returns : (room : ℕ) → HubEvent
  happens : (room : ℕ) → Event → HubEvent

-- A handler gets its room and makes its client there.
unfoldable pub hub_step : HubEvent → Hub → Option Hub
unfolding get_or_create_room clean_up
hub_step (asks poll_id) h =
    let (n, h') = get_or_create_room poll_id h in in_loop n connects h' (get_elem? h'.loops n)
hub_step (cleans poll_id) h = some (clean_up poll_id h)
hub_step (returns n) h = some (record h { loops = finish_loop n h.loops (get_elem? h.loops n) })
hub_step (happens n e) h = in_loop n e h (get_elem? h.loops n)

abbrev pub and_then : (Hub → Option Hub) → Option Hub → Option Hub
and_then f none = none
and_then f (some h) = f h

unfoldable pub hub_run : List HubEvent → Hub → Option Hub
unfolding hub_step
hub_run [] h = some h
hub_run (e ∷ es) h = and_then (hub_run es) (hub_step e h)
