-- ===== src/Hub/Tests.antt =====
-- The theorems on a room (backend/internal/websocket/hub.go) at an input.
use Prim.Native.Char.{code}
use poll.Prelude.{
  put, delete, Bool, ℕ, ◌*◌, String, ◌++◌, ◌≡◌, refl, true, false, Option, none, some, List, [],
  ◌∷◌, if◌then◌else◌, value_at, expand, push, eqb, ap, ◌∙◌, ◌⊎◌, arith,
}
use poll.Models.{Number, PollOption, Poll, LivePollResult}
use poll.Voting.{Server, Channel, cast_vote, get_poll, result_of}
use poll.Hub.Reach.{HasShown, counted, vote_reaches}
use poll.Live.{
  Hook, Socket, Message, vote_update, viewer_count, poll_closed, poll_reopened, apply_message,
  effect, run_events, start,
}
use poll.Voting.Redis as WithRedis
use poll.Voting.Redis.{Site, site, events_channel}
use poll.Voting.Redis.Store.{Store, store_redis, store-Answers, hash_of, members_of}
use poll.Hub.Listener.{HasPublished, hear, redis_vote_reaches}
use poll.Hub.Rooms.{Loop, Hub, HubEvent, asks, cleans, returns, happens, hub_run}
use poll.Hub.Waiting.{StuckAt, waits_for_ever}
use poll.Hub.{
  gone, new_client, Client, Room, waits, reads, Event, connects, registers, unregisters, writes,
  inits, posts, broadcasts, step, run, empty_room, status_message,
}
use poll.Hub.Visits.{Gives, Each}
use poll.Hub.Panics.{is_panic, is_late, panics_when_late}
use poll.Hub.Delivery.{IsDelivered, broadcast_reaches}
use poll.Hub.Viewers.{shown, queued_lost}
use poll.Hub.Writer.{
  Writer, Turn, receives, ticks, turns, data_frames, close_frame, text_frame, all_succeed,
  pump_ends,
}

abbrev live : LivePollResult
live = record { poll_id = "7"; title = "Drinks"; is_active = true; total_votes = 0; options = [] }

-- a client comes, and goes before the first results come
abbrev left : List Event
left = connects ∷ registers 0 ∷ unregisters 0 ∷ []

abbrev left_room : Room
left_room = record {
  clients =
      record {
        send = viewer_count (some 1) ∷ [];
        is_closed = true;
        is_in_room = false;
        pump = poll.Hub.gone;
        is_init_due = true;
      }
      ∷ [];
  broadcast = [];
}

left_lem : run left empty_room ≡ some left_room
unfolding run
left_lem = refl

panics_when_late_example :
    is_panic (step (inits 0 live) left_room) ≡ is_late (inits 0 live) left_room
panics_when_late_example = panics_when_late left (inits 0 live) left_room left_lem

-- a client watches, and a message is posted
abbrev watched : List Event
watched = connects ∷ registers 0 ∷ writes 0 ∷ posts (vote_update live) ∷ []

abbrev watcher : Client
watcher = record {
  send = [];
  is_closed = false;
  is_in_room = true;
  pump = reads;
  is_init_due = true;
}

abbrev watched_room : Room
watched_room = record { clients = watcher ∷ []; broadcast = vote_update live ∷ [] }

watched_lem : run watched empty_room ≡ some watched_room
unfolding run
watched_lem = refl

broadcast_reaches_example :
    Gives
      (λ (r : Room).
        (r.broadcast ≡ []) × Each (IsDelivered (vote_update live)) (watcher ∷ []) r.clients)
      (step broadcasts watched_room)
broadcast_reaches_example =
    broadcast_reaches watched watched_room (vote_update live) [] watched_lem refl

-- the text of a message, and a reader of it
abbrev json : Message → String
json poll_closed = "c"
json poll_reopened = "r"
json (vote_update _) = "v"
json _ = ""

abbrev percent : ℕ → ℕ → Number
percent n total = record { numerator = 100 * n; denominator = total }

abbrev option_of : String → ℕ → PollOption
option_of id n = record { id = id; text = id; votes = n; percentage = percent n 1 }

-- the results of the first vote
abbrev voted : LivePollResult
voted = record {
  poll_id = "7";
  title = "Drinks";
  is_active = true;
  total_votes = 1;
  options = option_of "a" 1 ∷ option_of "b" 0 ∷ [];
}

abbrev parse : String → Option Message
parse (String.◌∷◌ c String.[]) =
    if eqb (code c) b'c'
    then some poll_closed
    else if eqb (code c) b'r'
    then some poll_reopened
    else some (vote_update voted)
parse _ = none

abbrev hook : Hook
unfolding run_events
hook = run_events (effect false "7" ∷ []) start

abbrev socket : Socket
socket = record { id = 0; run = 0 }

parse_two :
    (rest : String) → parse (json poll_closed ++ ("\n" ++ (json poll_reopened ++ rest))) ≡ none
parse_two rest =
    ap parse (expand "c" ("\n" ++ ("r" ++ rest)))
    ∙ ap (λ t. parse (push "c" t)) (expand "\n" ("r" ++ rest))

queued_lost_example :
    (shown json parse 0 (record watcher { send = poll_closed ∷ [] }) hook
      ≡ apply_message poll_closed hook)
    × (shown json parse 0 (record watcher { send = poll_closed ∷ poll_reopened ∷ [] }) hook ≡ hook)
unfolding hook
queued_lost_example =
    queued_lost json parse 0 socket hook watcher poll_closed poll_reopened [] refl refl refl
      parse_two

abbrev drinks : Poll
drinks = record {
  id = "7";
  title = "Drinks";
  description = "";
  creator_id = "u1";
  options = option_of "a" 0 ∷ option_of "b" 0 ∷ [];
  is_active = true;
  total_votes = 0;
}

-- a server with the channel of a room
abbrev channel : Channel
channel = record { id = 3; queue = [] }

abbrev server : Server
server = record {
  mem_polls = ("7", drinks) ∷ [];
  mem_votes = [];
  mem_voters = [];
  subscribers = ("7", channel ∷ []) ∷ [];
  syncs = [];
}

abbrev any_id : String → Bool
any_id t = true

abbrev quiet : List Event
quiet = connects ∷ registers 0 ∷ writes 0 ∷ []

abbrev quiet_room : Room
quiet_room = record { clients = watcher ∷ []; broadcast = [] }

quiet_lem : run quiet empty_room ≡ some quiet_room
unfolding run
quiet_lem = refl

abbrev full_hook : Hook
full_hook = record hook { live_data = some voted }

vote_reaches_example :
    Gives (HasShown json parse quiet quiet_room 0 watcher 0 socket hook (some voted)) (
      counted json parse quiet quiet_room 0 watcher 0 socket hook percent any_id "7" server "a" "fp"
        "::1" voted
        (channel ∷ [])
        3
        channel)
unfolding value_at hook cast_vote put
vote_reaches_example =
    vote_reaches json parse quiet quiet_room 0 watcher 0 socket hook percent any_id "7" server "a"
      "fp" "::1" voted (channel ∷ []) 3 channel refl refl refl refl quiet_lem refl refl refl refl
      refl refl refl

abbrev with_redis : Site Store
with_redis = site server (record { sets = []; hashes = []; values = [] })

redis_vote_reaches_example :
    HasPublished
      (store_redis true)
      "7"
      voted
      (WithRedis.cast_vote (store_redis true) percent any_id "7" "a" "fp" "::1" with_redis)
    × Gives
        (HasShown json parse quiet quiet_room 0 watcher 0 socket hook (some voted))
        (step broadcasts (hear "7" (events_channel "7") voted quiet_room))
unfolding value_at hook put WithRedis.cast_vote get_poll result_of
redis_vote_reaches_example =
    redis_vote_reaches json parse quiet quiet_room 0 watcher 0 socket hook (store_redis true)
      hash_of members_of store-Answers percent any_id "7" "a" "fp" "::1" with_redis voted refl
      quiet_lem refl refl refl refl refl refl refl

-- A room is left, and cleaned up while the handler of another client has it.
abbrev race : List HubEvent
race =
    asks "7"
    ∷ happens 0 (registers 0)
    ∷ happens 0 (unregisters 0)
    ∷ asks "7"
    ∷ cleans "7"
    ∷ returns 0
    ∷ []

abbrev left_loop : Loop
left_loop = record {
  room = record {
    clients =
        record {
          send = viewer_count (some 1) ∷ [];
          is_closed = true;
          is_in_room = false;
          pump = gone;
          is_init_due = true;
        }
        ∷ new_client
        ∷ [];
    broadcast = [];
  };
  is_cancelled = true;
  is_running = false;
}

abbrev cleaned : Hub
cleaned = record { rooms = []; loops = left_loop ∷ [] }

cleaned_lem : hub_run race (record { rooms = []; loops = [] }) ≡ some cleaned
unfolding hub_run value_at delete put step
cleaned_lem = refl

abbrev later : List HubEvent
later = happens 0 (registers 1) ∷ asks "7" ∷ happens 1 (registers 0) ∷ []

abbrev hub_later : Hub
hub_later = record {
  rooms = ("7", 1) ∷ [];
  loops =
      left_loop
      ∷ record {
        room = record {
          clients =
              record {
                send = viewer_count (some 1) ∷ [];
                is_closed = false;
                is_in_room = true;
                pump = reads;
                is_init_due = true;
              }
              ∷ [];
          broadcast = [];
        };
        is_cancelled = false;
        is_running = true;
      }
      ∷ [];
}

waits_for_ever_example : StuckAt 0 1 hub_later.loops
unfolding hub_run value_at put step
waits_for_ever_example =
    waits_for_ever 0 1 later cleaned hub_later (left_loop, refl, (refl, refl)) refl

-- the loop for a client that is out of the room, with a message for it
abbrev late_writer : Writer
late_writer = record {
  client = record new_client { send = poll_closed ∷ []; is_closed = true };
  frames = [];
  is_done = false;
}

abbrev three_turns : List Turn
three_turns = receives true true ∷ ticks true ∷ receives true true ∷ []

pump_ends_example :
    ((turns three_turns late_writer).is_done ≡ true)
    × ((all_succeed three_turns ≡ false)
        ⊎ (data_frames (turns three_turns late_writer).frames
            ≡ close_frame ∷ text_frame (poll_closed ∷ []) ∷ []))
pump_ends_example = pump_ends three_turns late_writer refl refl (omega arith)
