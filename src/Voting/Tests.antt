-- ===== src/Voting/Tests.antt =====
-- The theorems on votes (backend/internal/services/vote_service.go) at an input.
use poll.Prelude.{
  ℕ, ◌*◌, ◌+◌, ◌%◌, ◌^◌, length, String, ◌≡◌, ◌≢◌, ◌⊎◌, Option, refl, ap, arith, true, false, Bool,
  none, some, [], ◌∷◌, List, ◌==◌, if◌then◌else◌, value_at, is_empty,
}
use poll.Models.{Number, PollOption, Poll, LivePollResult}
use poll.Api.Storage.{Chance}
use poll.Api.Request.{Response, Payload, poll_status, finish}
use poll.Voting.{Server, add64, tally, voters_of, voter_key, sum_of}
use poll.Voting.Casting.{casting, is_taken, is_ok, counts, vote_taken}
use poll.Voting.Sums.{HasDistinctIds}
use poll.Voting.Tally.{votes_for, total_shown, vote_counts}
use poll.Voting.Voters.{Event, casts, looks, writes}
use poll.Polls.Requests.{voting, sets}
use poll.Polls.Requests as Requests
use poll.Voting.Handler.{handle_cast_vote}
use poll.Voting.Redis.{Site, site}
use poll.Voting.Redis as WithRedis
use poll.Voting
use poll.Voting.Redis.Store.{Store, store_redis, store-Answers, hash_of, members_of}
use poll.Voting.Redis.Elections as Elections
use poll.Voting.Redis.Elections.{redis_answers, memory_answers, redis_elections}
use poll.Voting.Redis.Totals.{redis_total}
use poll.Voting.Redis.Flapping.{votes_again}
use poll.Voting.Redis.Concurrent as Concurrent
use poll.Voting.Redis.Concurrent.{AreDistinct, concurrent_votes}
use mathlib.Core.Quot
use poll.Voting.Urn.{swap, server_one, server_two, order_forgotten}
use poll.Voting.Browser.{first_answer, second_server, second_answer, browser_votes_once}

abbrev percent : ℕ → ℕ → Number
percent votes total = record { numerator = 100 * votes; denominator = total }

abbrev any_id : String → Bool
any_id s = true

abbrev option_of : String → PollOption
option_of id = record { id = id; text = id; votes = 2; percentage = percent 0 1 }

abbrev drinks : Poll
drinks = record {
  id = "7";
  title = "Drinks";
  description = "";
  creator_id = "u1";
  options = option_of "a" ∷ option_of "b" ∷ [];
  is_active = true;
  total_votes = 4;
}

abbrev server : Server
server = record {
  mem_polls = ("7", drinks) ∷ [];
  mem_votes = [];
  mem_voters = [];
  subscribers = [];
  syncs = [];
}

vote_taken_example :
    (is_ok (casting percent any_id "7" "a" "fp" "::1" server).0
      ≡ is_taken percent any_id "7" "a" "fp" "::1" server)
    × ((is_taken percent any_id "7" "a" "fp" "::1" server ≡ true)
        ⊎ (counts (casting percent any_id "7" "a" "fp" "::1" server).1 ≡ counts server))
vote_taken_example = vote_taken percent any_id "7" "a" "fp" "::1" server

drinks-HasDistinctIds : HasDistinctIds drinks.options
drinks-HasDistinctIds = ((λ e. let h : true ≡ false = ap (λ s. s == "b") e in cc, tt), (tt, tt))

vote_counts_example :
    let (answer, after) = casting percent any_id "7" "a" "fp" "::1" server in
    (votes_for "7" "b" drinks after ≡ votes_for "7" "b" drinks server)
    × ((tally "7" drinks after).1 ≡ add64 (tally "7" drinks server).1 1)
    × (total_shown answer ≡ some (add64 (tally "7" drinks server).1 1))
    × (voters_of "7" after ≡ voter_key "fp" "::1" ∷ voters_of "7" server)
unfolding value_at
vote_counts_example =
    vote_counts percent any_id "7" "a" "fp" "::1" server drinks "b" refl drinks-HasDistinctIds refl

-- The owner closes the poll and opens it again, and somebody else votes.
abbrev between : List Requests.Event
between =
    voting (writes 0)
    ∷ sets "7" (some "u1") (some (poll_status false))
    ∷ voting (looks "7")
    ∷ sets "7" (some "u1") (some (poll_status true))
    ∷ voting (casts "7" "b" "other" "::1")
    ∷ []

abbrev same : String → String
same t = t

abbrev bad : Option Payload → String
bad body = "bad"

abbrev chance : Chance
chance = record { random36 = "0.abcdefghijkl"; now36 = "m1" }

-- the answers to a new browser that votes for `a` and then for `b`, and the server in between
abbrev answer_to_a : Response LivePollResult × Server
answer_to_a =
    first_answer percent any_id same bad "https://h" "7" "a" "b" "::1" chance chance chance chance
      [] server between

abbrev server_between : Server
server_between =
    second_server percent any_id same bad "https://h" "7" "a" "b" "::1" chance chance chance chance
      [] server between

abbrev answer_to_b : Response LivePollResult × Server
answer_to_b =
    second_answer percent any_id same bad "https://h" "7" "a" "b" "::1" chance chance chance chance
      [] server between

browser_votes_once_example :
    (is_ok (finish answer_to_b.0) ≡ false) × (counts answer_to_b.1 ≡ counts server_between)
unfolding handle_cast_vote finish poll.Api.Request.cast_vote poll.Voting.cast_vote value_at
    poll.Prelude.put
browser_votes_once_example =
    browser_votes_once percent any_id same bad "https://h" "7" "a" "b" "::1" chance chance chance
      chance [] server between refl

abbrev first_order : List Event
first_order = casts "7" "b" "other" "::1" ∷ []

abbrev second_order : List Event
second_order = looks "7" ∷ casts "7" "a" "fp" "::1" ∷ []

abbrev one : Server
one =
    server_one percent any_id "7" "a" drinks server "a" "fp" "::1" "b" "other" "::1" first_order
      second_order

abbrev two : Server
two =
    server_two percent any_id "7" "a" drinks server "a" "fp" "::1" "b" "other" "::1" first_order
      second_order

order_forgotten_example :
    (votes_for "7" "a" drinks one ≡ votes_for "7" "a" drinks two)
    × (is_ok (casting percent any_id "7" "b" "fp" "::1" one).0
        ≡ is_ok (casting percent any_id "7" "b" "fp" "::1" two).0)
unfolding value_at voter_key
order_forgotten_example =
    order_forgotten percent any_id "7" "a" drinks server "a" "fp" "::1" "b" "other" "::1"
      first_order second_order "b" "fp" "::1" refl refl refl refl
      (Quot.sound (
        swap (record { voter = "other:::1"; choice = "b" })
          (record { voter = "fp:::1"; choice = "a" }) []))

abbrev store : Store
store = record { sets = []; hashes = []; values = [] }

votes_again_example :
    let first =
      WithRedis.cast_vote
        (store_redis true)
        percent
        any_id
        "7"
        "a"
        "fp"
        "::1"
        (site server store) in
    (is_ok first.0 ≡ true)
    × (is_ok (WithRedis.cast_vote (store_redis false) percent any_id "7" "b" "fp" "::1" first.1).0
        ≡ true)
unfolding value_at
votes_again_example =
    votes_again (store_redis true) hash_of members_of store-Answers percent any_id "7"
      (store_redis false) (λ r. refl) "a" "fp" "::1" "b" (site server store) drinks refl refl refl
      (omega arith)

redis_total_example :
    total_shown
      (WithRedis.cast_vote
        (store_redis true)
        percent
        any_id
        "7"
        "a"
        "fp"
        "::1"
        (site server store)).0
    ≡ some 1
unfolding value_at
redis_total_example =
    redis_total (store_redis true) hash_of members_of store-Answers percent any_id "7" "a" "fp"
      "::1" drinks (site server store) refl refl (omega arith)

-- two voters at a time, one of whom tries twice
abbrev commands : List Concurrent.Event
commands =
    Concurrent.adds "fp:::1" "a"
    ∷ Concurrent.adds "other:::1" "b"
    ∷ Concurrent.adds "fp:::1" "b"
    ∷ Concurrent.goes_on 1
    ∷ []

concurrent_votes_example :
    let v =
      Concurrent.run (store_redis true) "7" commands (record { redis = store; pending = [] }) in
    AreDistinct (members_of (WithRedis.voters_set_key "7") v.redis)
    × ((sum_of (hash_of (WithRedis.votes_hash_key "7") v.redis) + length v.pending) % 2 ^ 64
        ≡ length (members_of (WithRedis.voters_set_key "7") v.redis) % 2 ^ 64)
unfolding value_at
concurrent_votes_example =
    concurrent_votes (store_redis true) hash_of members_of store-Answers "7" commands store refl
      refl (omega arith)

abbrev new_poll : Poll
new_poll = record drinks {
  options = record (option_of "a") { votes = 0 } ∷ record (option_of "b") { votes = 0 } ∷ [];
  total_votes = 0;
}

abbrev new_server : Server
new_server = record server { mem_polls = ("7", new_poll) ∷ [] }

abbrev election : List Elections.Event
election =
    Elections.asks
    ∷ Elections.casts "a" "fp" "::1"
    ∷ Elections.writes 0
    ∷ Elections.casts "b" "fp" "::1"
    ∷ Elections.casts "b" "other" "::1"
    ∷ Elections.asks
    ∷ []

redis_elections_example :
    redis_answers (store_redis true) percent any_id "7" election (site new_server store)
    ≡ memory_answers percent any_id "7" election new_server
unfolding value_at
redis_elections_example =
    redis_elections (store_redis true) hash_of members_of store-Answers percent any_id "7" election
      new_poll (site new_server store) new_server refl refl refl refl refl refl refl refl
      (refl, (refl, tt)) ((λ e. let h : true ≡ false = ap (λ s. s == "b") e in cc, tt), (tt, tt))
      (omega arith)
