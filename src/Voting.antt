-- ===== src/Voting.antt =====
-- backend/internal/services/vote_service.go, and `GetPoll` and `UpdateVotesInDB` of
-- backend/internal/services/poll_service.go, in a server that runs without Redis and MongoDB
-- (`NewVoteService` and `NewPollService` with no clients). Each operation is one step, and the
-- goroutine that `CastVote` starts is a step of its own. The source takes its locks for the poll, for
-- the vote and for the results one after the other; what another request does between them is left
-- out (Voting/Redis/Concurrent has the commands of several votes, with Redis).
pub mod Casting
pub mod Sums
pub mod Tally
pub mod Voters
pub mod Handler
pub mod Browser
pub mod Ballots
pub mod Refinement
pub mod Urn
pub mod Subscribers
pub mod Redis
pub mod Tests
use poll.Prelude.{
  ℕ, ◌+◌, ◌%◌, ◌^◌, String, ◌++◌, Bool, true, false, not, ◌&&◌, ◌||◌, Option, none, some, List, [],
  ◌∷◌, map, ◌==◌, eqb, ltb, if◌then◌else◌, Assoc, value_at, put, length, is_empty,
}
use poll.Models.{Number, PollOption, Poll, LivePollResult}
use poll.Api.Request.{Result, ok, err}

-- an `int64`, as the number of its 64 bits
abbrev pub add64 : ℕ → ℕ → ℕ
add64 a b = (a + b) % 2 ^ 64

-- `n > 0` on an `int64`
abbrev pub is_positive : ℕ → Bool
is_positive n = ltb 0 n && ltb n (2 ^ 63)

-- the goroutine of a vote: the arguments of its `UpdateVotesInDB`
pub record Sync : Type 0 where
  pub poll_id : String
  pub option_votes : Assoc ℕ
  pub total_votes : ℕ

-- A channel of `SubscribeLocal`, with the results that wait in it.
pub record Channel : Type 0 where
  pub id : ℕ
  pub queue : List LivePollResult

pub record Server : Type 0 where
  pub mem_polls : Assoc Poll
  pub mem_votes : Assoc (Assoc ℕ)
  pub mem_voters : Assoc (List String)
  pub subscribers : Assoc (List Channel)
  pub syncs : List Sync

abbrev pub or_else {ℓ} : {A : Type ℓ} → A → Option A → A
or_else a none = a
or_else a (some b) = b

abbrev pub voters_of : String → Server → List String
voters_of poll_id s = or_else [] (value_at poll_id s.mem_voters)

abbrev pub is_member : String → List String → Bool
is_member k [] = false
is_member k (x ∷ xs) = x == k || is_member k xs

-- `voterKey`
unfoldable pub voter_key : (fingerprint client_ip : String) → String
voter_key fingerprint client_ip =
    if is_empty fingerprint then client_ip else fingerprint ++ (":" ++ client_ip)

abbrev pub has_option : String → List PollOption → Bool
has_option id [] = false
has_option id (o ∷ os) = o.id == id || has_option id os

-- the loop that fills a map with the votes of the options
unfoldable pub seed : List PollOption → Assoc ℕ → Assoc ℕ
seed [] m = m
seed (o ∷ os) m = seed os (put o.id o.votes m)

-- the sum of a map, and of the options of a poll
abbrev pub sum_of : Assoc ℕ → ℕ
sum_of [] = 0
sum_of ((k, v) ∷ m) = add64 v (sum_of m)

abbrev pub sum_options : List PollOption → ℕ
sum_options [] = 0
sum_options (o ∷ os) = add64 o.votes (sum_options os)

-- what `GetLiveResults` counts: the votes by option, and their sum
unfoldable pub tally : String → Poll → Server → Assoc ℕ × ℕ
tally poll_id p s = elim (value_at poll_id s.mem_votes) [
  | none ↦ (seed p.options [], sum_options p.options)
  | some counts ↦ (counts, sum_of counts)
]

-- `m[k]++`; a missing key counts as zero
unfoldable pub increment : String → Assoc ℕ → Assoc ℕ
increment k m = put k (add64 (or_else 0 (value_at k m)) 1) m

-- the voter and the vote, under the lock
unfoldable pub record_vote : (poll_id option_id key : String) → Poll → Server → Server
unfolding increment
record_vote poll_id option_id key p s = record s {
  mem_voters = put poll_id (key ∷ voters_of poll_id s) s.mem_voters;
  mem_votes =
      put poll_id (increment option_id (or_else (seed p.options []) (value_at poll_id s.mem_votes)))
        s.mem_votes;
}

abbrev enqueue : List LivePollResult → LivePollResult → List LivePollResult
enqueue [] live = live ∷ []
enqueue (x ∷ xs) live = x ∷ enqueue xs live

-- A channel holds 10 results; one that finds it full is dropped.
unfoldable pub send : LivePollResult → Channel → Channel
send live ch = if ltb (length ch.queue) 10 then record ch { queue = enqueue ch.queue live } else ch

unfoldable pub broadcast_local : String → LivePollResult → Server → Server
broadcast_local poll_id live s = elim (value_at poll_id s.subscribers) [
  | none ↦ s
  | some chs ↦ record s { subscribers = put poll_id (map (send live) chs) s.subscribers }
]

-- the goroutine is started
unfoldable pub start_sync : String → LivePollResult → Server → Server
unfolding seed
start_sync poll_id live s = record s {
  syncs =
      record {
        poll_id = poll_id;
        option_votes = seed live.options [];
        total_votes = live.total_votes;
      }
      ∷ s.syncs;
}

abbrev pub with_votes : Assoc ℕ → PollOption → PollOption
with_votes m o = record o { votes = or_else o.votes (value_at o.id m) }

-- `UpdateVotesInDB`
unfoldable pub update_votes_in_db : Sync → Server → Server
update_votes_in_db y s = elim (value_at y.poll_id s.mem_polls) [
  | none ↦ s
  | some p ↦ record s {
    mem_polls =
        put y.poll_id
          (record p {
            options = map (with_votes y.option_votes) p.options;
            total_votes = y.total_votes;
          })
          s.mem_polls;
  }
]

-- `if err != nil { return nil, err }` after a call
abbrev pub and_then : {A B S : Type 0} → (A → S → Result B × S) → Result A × S → Result B × S
and_then f (ok a, s) = f a s
and_then f (err m, s) = (err m, s)

-- `percent votes total` is `votes / total * 100` in double precision.
module _ (percent : ℕ → ℕ → Number) where
  abbrev zero_percent : Number
  zero_percent = record { numerator = 0; denominator = 1 }

  -- `calculatePercentages`
  unfoldable pub calculate_percentages : Poll → Poll
  calculate_percentages p = record p {
    options =
        map
          (λ (o : PollOption). record o {
            percentage =
                if eqb p.total_votes 0 then zero_percent else percent o.votes p.total_votes;
          })
          p.options;
  }

  -- an option of the result
  unfoldable pub live_option : Assoc ℕ × ℕ → PollOption → PollOption
  live_option (counts, total) o =
      let votes = or_else 0 (value_at o.id counts) in
      record {
        id = o.id;
        text = o.text;
        votes = votes;
        percentage = if is_positive total then percent votes total else zero_percent;
      }

  -- the result that shows some counts
  unfoldable pub result_of : String → Poll → Assoc ℕ × ℕ → LivePollResult
  unfolding live_option
  result_of poll_id p counted = record {
    poll_id = poll_id;
    title = p.title;
    is_active = p.is_active;
    total_votes = counted.1;
    options = map (live_option counted) p.options;
  }

  unfoldable pub live_result : String → Poll → Server → LivePollResult
  unfolding result_of tally
  live_result poll_id p s = result_of poll_id p (tally poll_id p s)

-- `is_object_id` says whether `primitive.ObjectIDFromHex` takes a text.
module _ (percent : ℕ → ℕ → Number) (is_object_id : String → Bool) where
  -- `GetPoll`. The copy of the poll that it returns shares its options with the stored poll, so that
  -- the percentages are written to both.
  unfoldable pub get_poll : String → Server → Result Poll × Server
  unfolding calculate_percentages
  get_poll poll_id s = elim (value_at poll_id s.mem_polls) [
    | none ↦ (err (if is_object_id poll_id then "poll not found" else "invalid poll ID format"), s)
    | some p ↦ (
      ok (calculate_percentages percent p),
      record s { mem_polls = put poll_id (calculate_percentages percent p) s.mem_polls },
    )
  ]

  unfoldable pub get_live_results : String → Server → Result LivePollResult × Server
  unfolding get_poll live_result
  get_live_results poll_id s =
      and_then (λ p s'. (ok (live_result percent poll_id p s'), s')) (get_poll poll_id s)

  -- the end of `CastVote`: the new results are sent to the subscribers, and the goroutine starts
  unfoldable pub publish : String → Server → Result LivePollResult × Server
  unfolding get_live_results broadcast_local start_sync
  publish poll_id s =
      and_then (λ live s'. (ok live, start_sync poll_id live (broadcast_local poll_id live s')))
        (get_live_results poll_id s)

  -- `CastVote` for a poll that was found
  unfoldable pub cast_on :
      Poll → (poll_id option_id key : String) → Server → Result LivePollResult × Server
  unfolding publish record_vote
  cast_on p poll_id option_id key s =
      if not p.is_active
      then (err "this poll is closed and no longer accepting votes", s)
      else if not (has_option option_id p.options)
      then (err "invalid option selected for this poll", s)
      else if is_member key (voters_of poll_id s)
      then (err "you have already cast your vote on this poll", s)
      else publish poll_id (record_vote poll_id option_id key p s)

  unfoldable pub cast_vote :
      (poll_id option_id fingerprint client_ip : String) → Server → Result LivePollResult × Server
  unfolding get_poll cast_on voter_key
  cast_vote poll_id option_id fingerprint client_ip s =
      and_then (λ p s'. cast_on p poll_id option_id (voter_key fingerprint client_ip) s')
        (get_poll poll_id s)
