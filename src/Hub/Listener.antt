-- ===== src/Hub/Listener.antt =====
-- With Redis: the results that `CastVote` (backend/internal/services/vote_service.go) publishes, and
-- `listenRedisPubSub` of backend/internal/websocket/hub.go, which passes them on to a room.
use poll.Prelude.{
  ℕ, String, ◌++◌, ◌≡◌, ◌≢◌, refl, ap, sym, Bool, true, false, not, Option, some, List, [], ◌==◌,
  eq_refl, if◌then◌else◌, Assoc,
}
use mathlib.Core.Path.{subst}
use poll.Models.{Number, Poll, LivePollResult}
use poll.Api.Request.{Result, ok, err}
use poll.Voting.{get_poll, Server, and_then, has_option, voter_key}
use poll.Voting.Redis as WithRedis
use poll.Voting.Redis.{
  Redis, Site, site, beside, count_in_redis, events_channel, announce, added_or_not, count_vote,
  is_zero, voters_set_key,
}
use poll.Voting.Redis.Answering.{Answers}
use poll.Voting.Redis.Together.{ping_true}
use poll.Live.{Hook, Socket, Message, vote_update, socket_run}
use poll.Hub.{Client, Room, client_at, run, empty_room, Event, broadcasts, step}
use poll.Hub.Visits.{Gives}
use poll.Hub.Viewers.{post_reaches}
use poll.Hub.Reach.{forward, HasShown, reaches}

-- the channel that the room of a poll listens to
unfoldable pub room_channel : String → String
room_channel poll_id = "poll:" ++ (poll_id ++ ":events")

-- A message of Redis, with its channel, as the room of a poll hears it. `json.Unmarshal` gives back
-- what `json.Marshal` was given.
unfoldable pub hear : (poll_id channel : String) → LivePollResult → Room → Room
unfolding room_channel
hear poll_id channel live r = if channel == room_channel poll_id then forward (some live) r else r

-- The last command of a call was the publication of these results.
abbrev pub HasPublished :
    {R : Type 0} → Redis R → String → LivePollResult → Result LivePollResult × Site R → Type 0
HasPublished {R} db q live y = (r : R) × (y.1.redis ≡ db.publish (events_channel q) live r)

module _ {R : Type 0} (db : Redis R) (hash : String → R → Assoc ℕ)
    (members : String → R → List String) (answers : Answers db hash members)
    (percent : ℕ → ℕ → Number) (is_object_id : String → Bool) (q : String)
    (live : LivePollResult) where
  -- a call that publishes its results, if it has any
  abbrev Publishes : Result LivePollResult × Site R → Type 0
  Publishes y = y.0 ≡ ok live → HasPublished db q live y

  either-Publishes :
      (b : Bool) (y z : Result LivePollResult × Site R)
      → Publishes y
      → Publishes z
      → Publishes (if b then y else z)
  either-Publishes true y z f g = f
  either-Publishes false y z f g = g

  refused-Publishes : (m : String) (x : Site R) → Publishes (err m, x)
  refused-Publishes m x e = absurd (bad e)
    where
      bad : ◌≢◌ {A = Result LivePollResult} (err m) (ok live)
      bad h = cc

  announce-Publishes :
      (y : Result LivePollResult × Site R)
      → Publishes (and_then (announce db percent is_object_id true q) y)
  announce-Publishes (ok l, x) e = (
    x.redis,
    ap (λ m. db.publish (events_channel q) m x.redis) (let same : l ≡ live = cc in same),
  )
  announce-Publishes (err m, x) e = refused-Publishes m x e

  added-Publishes :
      (o : String) (s : Server) (added : Option ℕ × R)
      → Publishes (added_or_not db percent is_object_id q o s added)
  unfolding WithRedis.publish
  added-Publishes o s (added, r) =
      either-Publishes (is_zero added) _ _
        (refused-Publishes "you have already cast your vote on this poll" (site s r))
        (announce-Publishes
          (WithRedis.get_live_results db percent is_object_id q (site s (count_in_redis db q o r))))

  cast_on-Publishes :
      (p : Poll) (o key : String) (x : Site R)
      → Publishes (WithRedis.cast_on db percent is_object_id p q o key x)
  unfolding WithRedis.cast_on
  cast_on-Publishes p o key x = either-Publishes (not p.is_active) _ _ (refused-Publishes _ x) (
      either-Publishes (not (has_option o p.options)) _ _ (refused-Publishes _ x) (
        subst (λ c. Publishes (count_vote db percent is_object_id p q o key x.server c))
          (sym (ping_true db hash members percent is_object_id q answers x.redis))
          (added-Publishes o x.server (db.sadd (voters_set_key q) key (db.ping x.redis).1))))

  then-Publishes :
      (f : Poll → Site R → Result LivePollResult × Site R)
      → ((p : Poll) (x : Site R) → Publishes (f p x))
      → (y : Result Poll × Site R) → Publishes (and_then f y)
  then-Publishes f h (ok p, x) = h p x
  then-Publishes f h (err m, x) = refused-Publishes m x

  cast_vote-Publishes :
      (o fp ip : String) (x : Site R)
      → Publishes (WithRedis.cast_vote db percent is_object_id q o fp ip x)
  unfolding WithRedis.cast_vote
  cast_vote-Publishes o fp ip x =
      then-Publishes _ (λ p y. cast_on-Publishes p o (voter_key fp ip) y)
        (beside (get_poll percent is_object_id q) x)

hear_own :
    (q : String) (live : LivePollResult) (r : Room)
    → hear q (events_channel q) live r ≡ forward (some live) r
unfolding hear events_channel
hear_own q live r =
    ap (λ b. if b then forward (some live) r else r) (eq_refl ("poll:" ++ (q ++ ":events")))

module _ (json : Message → String) (parse : String → Option Message) (es : List Event) (r : Room)
    (i : ℕ) (c : Client) (s : ℕ) (x : Socket) (h : Hook) {R : Type 0} (db : Redis R)
    (hash : String → R → Assoc ℕ) (members : String → R → List String)
    (answers : Answers db hash members) (percent : ℕ → ℕ → Number)
    (is_object_id : String → Bool) where
  -- With Redis a vote reaches the pages, too: the results that the voter gets as the answer are
  -- published on the channel that the room of the poll listens to, on whatever server; when the room
  -- has heard them, the next broadcast brings them to each client in it, and its page, once it has read
  -- the frame, shows them, if nothing else waits in the room or for the client. Redis answers.
  pub redis_vote_reaches :
      (q o fp ip : String) (before : Site R) (live : LivePollResult)
      → (WithRedis.cast_vote db percent is_object_id q o fp ip before).0 ≡ ok live
      → run es empty_room ≡ some r
      → r.broadcast ≡ []
      → client_at i r.clients ≡ some c
      → c.is_in_room ≡ true
      → c.send ≡ []
      → h.is_mounted ≡ true
      → socket_run s h ≡ some x
      → parse (json (vote_update live)) ≡ some (vote_update live)
      → HasPublished db q live (WithRedis.cast_vote db percent is_object_id q o fp ip before)
        × Gives
            (HasShown json parse es r i c s x h (some live))
            (step broadcasts (hear q (events_channel q) live r))
  redis_vote_reaches q o fp ip before live answer safe quiet member inside none_waits on found one =
      (
        cast_vote-Publishes db hash members answers percent is_object_id q live o fp ip before
            answer,
        subst (λ t. Gives (HasShown json parse es r i c s x h (some live)) (step broadcasts t))
            (sym (hear_own q live r))
            (reaches json parse es r i c s x h (vote_update live) (some live) refl (
              post_reaches json parse (vote_update live) es r i c s x h safe quiet member inside
                none_waits on found one)),
      )
