-- ===== src/Hub.antt =====
-- A room of backend/internal/websocket/hub.go with the pumps of client.go and the handler of
-- backend/internal/handlers/ws_handler.go. The clients are those whose handler has made one, in that
-- order; `room.Clients` has those whose `is_in_room` is true. Go visits them in no order of its own,
-- which does not matter, since a visit is at one client's channel only. `none` is a panic, which ends
-- the server.
pub mod Visits
pub mod Fine
pub mod Panics
pub mod Delivery
pub mod Viewers
pub mod Reach
pub mod Listener
pub mod Rooms
pub mod Waiters
pub mod Waiting
pub mod Writer
pub mod Tests
use poll.Prelude.{
  ℕ, zero, suc, ◌+◌, String, Bool, true, false, not, ◌&&◌, Option, none, some, List, [], ◌∷◌, ltb,
  if◌then◌else◌, length,
}
use mathlib.Core.List.{◌++◌}
use poll.Models.{LivePollResult}
use poll.Live.{Message, init, vote_update, viewer_count, poll_closed, poll_reopened}

-- How far the handler and `ReadPump` of a client are: at `room.Register <- client`, reading, or past
-- `c.Room.Unregister <- c`.
pub data Pump : Type 0 where
  waits reads gone : Pump

-- `send` holds what waits in the channel `Send`; `is_init_due` says that the goroutine with the first
-- results is still to come.
pub record Client : Type 0 where
  pub send : List Message
  pub is_closed : Bool
  pub is_in_room : Bool
  pub pump : Pump
  pub is_init_due : Bool

pub record Room : Type 0 where
  pub clients : List Client
  pub broadcast : List Message

-- the client that `HandleWebSocket` makes
abbrev pub new_client : Client
new_client = record {
  send = [];
  is_closed = false;
  is_in_room = false;
  pump = waits;
  is_init_due = true;
}

-- `select { case client.Send <- message: default: }`; a send on a closed channel panics, and the
-- channel holds 64 messages.
unfoldable pub send_or_skip : Message → Client → Option Client
send_or_skip m c =
    if c.is_closed
    then none
    else if ltb (length c.send) 64
    then some (record c { send = c.send ++ m ∷ [] })
    else some c

-- the same with `close(client.Send)` and `delete(room.Clients, client)` where the channel is full
unfoldable pub send_or_drop : Message → Client → Option Client
send_or_drop m c =
    if c.is_closed
    then none
    else if ltb (length c.send) 64
    then some (record c { send = c.send ++ m ∷ [] })
    else some (record c { is_closed = true; is_in_room = false })

abbrev pub in_room : (Client → Option Client) → Client → Option Client
in_room f c = if c.is_in_room then f c else some c

abbrev pub cons_to : Client → Option (List Client) → Option (List Client)
cons_to c none = none
cons_to c (some cs) = some (c ∷ cs)

abbrev pub cons_both : Option Client → Option (List Client) → Option (List Client)
cons_both none rest = none
cons_both (some c) rest = cons_to c rest

-- the loops over the clients
unfoldable pub each : (Client → Option Client) → List Client → Option (List Client)
each f [] = some []
each f (c ∷ cs) = cons_both (f c) (each f cs)

-- what happens to the client with a number
unfoldable pub at : (Client → Option Client) → ℕ → List Client → Option (List Client)
at f i [] = some []
at f zero (c ∷ cs) = cons_both (f c) (some cs)
at f (suc i) (c ∷ cs) = cons_to c (at f i cs)

-- `len(room.Clients)`
unfoldable pub viewers : List Client → ℕ
viewers [] = 0
viewers (c ∷ cs) = if c.is_in_room then 1 + viewers cs else viewers cs

unfoldable pub broadcast_viewer_count : List Client → Option (List Client)
unfolding each viewers send_or_skip
broadcast_viewer_count cs = each (in_room (send_or_skip (viewer_count (some (viewers cs))))) cs

abbrev pub and_count : Option (List Client) → Option (List Client)
and_count none = none
and_count (some cs) = broadcast_viewer_count cs

-- the client with a number, and a field of it; there is none past the end
abbrev pub client_at : ℕ → List Client → Option Client
client_at i [] = none
client_at zero (c ∷ cs) = some c
client_at (suc i) (c ∷ cs) = client_at i cs

abbrev pub pump_of : Option Client → Pump
pump_of none = gone
pump_of (some c) = c.pump

abbrev pub is_watching : Option Client → Bool
is_watching none = false
is_watching (some c) = c.is_in_room

-- `room.Clients[client] = true`
abbrev pub enter : Client → Option Client
enter c = some (record c { is_in_room = true; pump = reads })

-- `delete(room.Clients, client)` and `close(client.Send)`; to close a channel twice panics.
abbrev pub leave : Client → Option Client
leave c =
    if c.is_closed
    then none
    else some (record c { is_in_room = false; is_closed = true; pump = gone })

abbrev pub go_away : Client → Option Client
go_away c = some (record c { pump = gone })

-- the cases of the loop of `runRoom` for a client that registers, and for one that goes: the handler
-- registers it once, and `ReadPump` sends it to `Unregister` once
unfoldable pub register : ℕ → Pump → List Client → Option (List Client)
unfolding at broadcast_viewer_count
register i waits cs = and_count (at enter i cs)
register i _ cs = some cs

unfoldable pub unregister : ℕ → Pump → Bool → List Client → Option (List Client)
unfolding at broadcast_viewer_count
unregister i reads true cs = and_count (at leave i cs)
unregister i reads false cs = at go_away i cs
unregister i _ b cs = some cs

-- the goroutine of `HandleWebSocket` with the first results, after the registration
unfoldable pub send_init : LivePollResult → Client → Option Client
unfolding send_or_skip
send_init live c = elim c.pump [
  | waits ↦ some c
  | _ ↦
      if c.is_init_due then send_or_skip (init live) (record c { is_init_due = false }) else some c
]

-- A turn of `WritePump`: it takes the messages that wait, and writes them as one frame.
unfoldable pub write : Client → Option Client
write c = some (record c { send = [] })

-- `BroadcastPollStatus` for a room that is there
abbrev pub status_message : Bool → Message
status_message true = poll_reopened
status_message false = poll_closed

-- A send to `room.Broadcast`. The channel holds 32 messages; the sender of a further one blocks until
-- the message is in it, and Go lets such senders in in the order in which they came. So `broadcast`
-- has the messages of the channel, and after them those of the senders that block.
unfoldable pub post : Message → Room → Room
post m r = record r { broadcast = r.broadcast ++ m ∷ [] }

-- `case message := <-room.Broadcast`
unfoldable pub deliver : Message → List Client → Option (List Client)
unfolding each send_or_drop
deliver m cs = each (in_room (send_or_drop m)) cs

pub data Event : Type 0 where
  connects : Event
  registers unregisters writes : (client : ℕ) → Event
  inits : (client : ℕ) → LivePollResult → Event
  posts : Message → Event
  broadcasts : Event

abbrev pub with_clients : Room → Option (List Client) → Option Room
with_clients r none = none
with_clients r (some cs) = some (record r { clients = cs })

abbrev pub take_broadcast : Room → List Message → Option Room
take_broadcast r [] = some r
take_broadcast r (m ∷ ms) = with_clients (record r { broadcast = ms }) (deliver m r.clients)

unfoldable pub step : Event → Room → Option Room
unfolding register unregister send_init write post deliver at
step connects r = some (record r { clients = r.clients ++ new_client ∷ [] })
step (registers i) r = with_clients r (register i (pump_of (client_at i r.clients)) r.clients)
step (unregisters i) r =
    let c = client_at i r.clients in
    with_clients r (unregister i (pump_of c) (is_watching c) r.clients)
step (writes i) r = with_clients r (at write i r.clients)
step (inits i live) r = with_clients r (at (send_init live) i r.clients)
step (posts m) r = some (post m r)
step broadcasts r = take_broadcast r r.broadcast

abbrev pub and_run : (Room → Option Room) → Option Room → Option Room
and_run f none = none
and_run f (some r) = f r

unfoldable pub run : List Event → Room → Option Room
unfolding step
run [] r = some r
run (e ∷ es) r = and_run (run es) (step e r)

abbrev pub empty_room : Room
empty_room = record { clients = []; broadcast = [] }
