-- ===== src/Voting/Redis.antt =====
-- `CastVote` and `GetLiveResults` of backend/internal/services/vote_service.go in a server that has
-- Redis, and keeps its polls in memory. Redis is outside: its commands are those of a record.
pub mod Answering
pub mod Alike
pub mod Together
pub mod Casting
pub mod Syncing
pub mod Elections
pub mod Totals
pub mod Concurrent
pub mod Offline
pub mod Flapping
pub mod Store
use poll.Prelude.{
  ℕ, ◌+◌, String, ◌++◌, Bool, true, false, not, Option, none, some, List, [], ◌∷◌, eqb,
  if◌then◌else◌, Assoc, put,
}
use poll.Models.{Number, PollOption, Poll, LivePollResult}
use poll.Api.Request.{Result, ok, err}
use poll.Voting.{
  Server, voters_of, is_member, voter_key, has_option, record_vote, broadcast_local, start_sync,
  add64, is_positive, sum_of, tally, result_of, get_poll, and_then,
}

-- The commands that the service sends, by the state `R` of Redis and of the connection. Answers that
-- the service does not look at are left out; `none` is the answer of a command that fails. The counts
-- of `HGETALL` are read by `strconv.ParseInt`.
pub record Redis (R : Type 0) : Type 0 where
  pub ping : R → Bool × R
  pub sadd : (key member : String) → R → Option ℕ × R
  pub hincrby : (key field : String) → ℕ → R → R
  pub incr : (key : String) → R → R
  pub hgetall : (key : String) → R → Option (Assoc ℕ) × R
  pub hset : (key field : String) → ℕ → R → R
  pub set_value : (key : String) → ℕ → R → R
  pub publish : (channel : String) → LivePollResult → R → R

unfoldable pub voters_set_key : String → String
voters_set_key poll_id = "poll:" ++ (poll_id ++ ":voters")

unfoldable pub votes_hash_key : String → String
votes_hash_key poll_id = "poll:" ++ (poll_id ++ ":votes")

unfoldable pub total_key : String → String
total_key poll_id = "poll:" ++ (poll_id ++ ":total")

unfoldable pub events_channel : String → String
events_channel poll_id = "poll:" ++ (poll_id ++ ":events")

-- the counts that an empty hash is seeded with, and their sum
unfoldable pub positive_votes : List PollOption → Assoc ℕ → Assoc ℕ
positive_votes [] m = m
positive_votes (o ∷ os) m =
    positive_votes os (if is_positive o.votes then put o.id o.votes m else m)

abbrev pub sum_positive : List PollOption → ℕ
sum_positive [] = 0
sum_positive (o ∷ os) =
    let rest = sum_positive os in if is_positive o.votes then add64 o.votes rest else rest

-- the maps of the server, and Redis
pub record Site (R : Type 0) : Type 0 where
  pub server : Server
  pub redis : R

abbrev pub site : {R : Type 0} → Server → R → Site R
site s r = record { server = s; redis = r }

-- a call that does not reach Redis
abbrev pub beside : {A R : Type 0} → (Server → A × Server) → Site R → A × Site R
beside f x = let (a, s) = f x.server in (a, record x { server = s })

abbrev pub is_zero : Option ℕ → Bool
is_zero none = false
is_zero (some n) = eqb n 0

module _ {R : Type 0} (db : Redis R) where
  -- the loop of `HSET`
  unfoldable pub seed_hash : String → List PollOption → R → R
  seed_hash key [] r = r
  seed_hash key (o ∷ os) r =
      seed_hash key os (if is_positive o.votes then db.hset key o.id o.votes r else r)

  unfoldable pub seed_redis : String → Poll → R → (Assoc ℕ × ℕ) × R
  unfolding seed_hash positive_votes
  seed_redis poll_id p r =
      let total = sum_positive p.options in
      let seeded = seed_hash (votes_hash_key poll_id) p.options r in
      (
        (positive_votes p.options [], total),
        if is_positive total then db.set_value (total_key poll_id) total seeded else seeded,
      )

  -- what the answer of `HGETALL` comes to
  abbrev pub counted : String → Poll → Option (Assoc ℕ) × R → (Assoc ℕ × ℕ) × R
  counted poll_id p (none, r) = seed_redis poll_id p r
  counted poll_id p (some [], r) = seed_redis poll_id p r
  counted poll_id p (some (c ∷ cs), r) = ((c ∷ cs, sum_of (c ∷ cs)), r)

  unfoldable pub redis_tally : String → Poll → R → (Assoc ℕ × ℕ) × R
  unfolding seed_redis votes_hash_key
  redis_tally poll_id p r = counted poll_id p (db.hgetall (votes_hash_key poll_id) r)

  -- the two commands that count a vote
  unfoldable pub count_in_redis : (poll_id option_id : String) → R → R
  unfolding total_key
  count_in_redis poll_id option_id r =
      db.incr (total_key poll_id) (db.hincrby (votes_hash_key poll_id) option_id 1 r)

  module _ (percent : ℕ → ℕ → Number) (is_object_id : String → Bool) where
    -- the tally from Redis or, if it does not answer, from memory
    abbrev pub tally_from : String → Poll → Server → Bool × R → (Assoc ℕ × ℕ) × R
    tally_from poll_id p s (true, r) = redis_tally poll_id p r
    tally_from poll_id p s (false, r) = (tally poll_id p s, r)

    abbrev pub shown : String → Poll → Server → (Assoc ℕ × ℕ) × R → Result LivePollResult × Site R
    shown poll_id p s (c, r) = (ok (result_of percent poll_id p c), site s r)

    unfoldable pub get_live_results : String → Site R → Result LivePollResult × Site R
    unfolding redis_tally
    get_live_results poll_id x =
        and_then (λ p y. shown poll_id p y.server (tally_from poll_id p y.server (db.ping y.redis)))
          (beside (get_poll percent is_object_id poll_id) x)

    -- The end of `CastVote`: `connected` is what the first `PING` said.
    abbrev pub announce :
        (connected : Bool) → String → LivePollResult → Site R → Result LivePollResult × Site R
    announce true poll_id live x = (
      ok live,
      site (start_sync poll_id live x.server) (db.publish (events_channel poll_id) live x.redis),
    )
    announce false poll_id live x =
        (ok live, site (start_sync poll_id live (broadcast_local poll_id live x.server)) x.redis)

    unfoldable pub publish : (connected : Bool) → String → Site R → Result LivePollResult × Site R
    unfolding get_live_results events_channel
    publish connected poll_id x = and_then (announce connected poll_id) (get_live_results poll_id x)

    -- after `SADD`
    abbrev pub added_or_not :
        (poll_id option_id : String) → Server → Option ℕ × R → Result LivePollResult × Site R
    added_or_not poll_id option_id s (added, r) =
        if is_zero added
        then (err "you have already cast your vote on this poll", site s r)
        else publish true poll_id (site s (count_in_redis poll_id option_id r))

    abbrev pub count_vote :
        Poll → (poll_id option_id key : String) → Server → Bool × R → Result LivePollResult × Site R
    count_vote p poll_id option_id key s (true, r) =
        added_or_not poll_id option_id s (db.sadd (voters_set_key poll_id) key r)
    count_vote p poll_id option_id key s (false, r) =
        if is_member key (voters_of poll_id s)
        then (err "you have already cast your vote on this poll", site s r)
        else publish false poll_id (site (record_vote poll_id option_id key p s) r)

    unfoldable pub cast_on :
        Poll → (poll_id option_id key : String) → Site R → Result LivePollResult × Site R
    unfolding publish count_in_redis voters_set_key
    cast_on p poll_id option_id key x =
        if not p.is_active
        then (err "this poll is closed and no longer accepting votes", x)
        else if not (has_option option_id p.options)
        then (err "invalid option selected for this poll", x)
        else count_vote p poll_id option_id key x.server (db.ping x.redis)

    unfoldable pub cast_vote :
        (poll_id option_id fingerprint client_ip : String) → Site R → Result LivePollResult × Site R
    unfolding cast_on
    cast_vote poll_id option_id fingerprint client_ip x =
        and_then (λ p y. cast_on p poll_id option_id (voter_key fingerprint client_ip) y)
          (beside (get_poll percent is_object_id poll_id) x)
