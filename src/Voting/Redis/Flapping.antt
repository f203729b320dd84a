-- ===== src/Voting/Redis/Flapping.antt =====
-- A vote while Redis answers, and another one when it no longer does (`CastVote` of
-- backend/internal/services/vote_service.go).
use mathlib.Core.Option.{none-ne-some}
use poll.Prelude.{
  ℕ, ◌+◌, ◌<◌, ◌^◌, String, ◌≡◌, refl, ap, sym, ◌∙◌, Bool, true, false, Option, none, some, List,
  [], ◌∷◌, arith, Assoc, value_at, inl, inr, Option-cases,
}
use poll.Models.{Number, Poll, LivePollResult}
use poll.Api.Request.{Result, ok, err}
use poll.Voting.{
  Server, and_then, calculate_percentages, is_member, voter_key, voters_of, has_option, or_else,
  start_sync,
}
use poll.Voting.Casting.{
  looked, get_poll_found, takes, takes_calculate, is_ok, is_taken, vote_taken,
}
use poll.Voting.Tally.{total_shown}
use poll.Voting.Refinement.{takes_core}
use poll.Polls.Core.{core, core_at, core_if, core-put, core-calculate}
use poll.Voting.Redis as WithRedis
use poll.Voting.Redis.{
  Redis, Site, site, count_in_redis, votes_hash_key, voters_set_key, announce, added_or_not,
  redis_tally,
}
use poll.Voting.Redis.Answering.{Answers}
use poll.Voting.Redis.Alike.{votes_in}
use poll.Voting.Redis.Together.{ping_true}
use poll.Voting.Redis.Totals.{redis_total}
use poll.Voting.Redis.Offline.{offline_falls_back}

shown_ok : (r : Result LivePollResult) (n : ℕ) → total_shown r ≡ some n → is_ok r ≡ true
shown_ok (ok live) n h = refl
shown_ok (err m) n h = absurd (none-ne-some n h)

-- What a call with Redis leaves alone in memory: what the creator of the poll decides, and the voters.
abbrev IsSpared : {R : Type 0} → String → Server → Result LivePollResult × Site R → Type 0
IsSpared q s y =
    (core_at q y.1.server.mem_polls ≡ core_at q s.mem_polls)
    × (y.1.server.mem_voters ≡ s.mem_voters)

module _ {R : Type 0} (db : Redis R) (hash : String → R → Assoc ℕ)
    (members : String → R → List String) (answers : Answers db hash members)
    (percent : ℕ → ℕ → Number) (is_object_id : String → Bool) (q : String) where
  core_looked :
      (p : Poll) (s : Server)
      → value_at q s.mem_polls ≡ some p
      → core_at q (looked percent is_object_id q p s).mem_polls ≡ core_at q s.mem_polls
  core_looked p s found =
      core-put q q p (calculate_percentages percent p) s.mem_polls found (core-calculate percent p)

  live-IsSpared :
      (p : Poll) (x : Site R)
      → value_at q x.server.mem_polls ≡ some p
      → IsSpared q x.server (WithRedis.get_live_results db percent is_object_id q x)
  unfolding WithRedis.get_live_results
  live-IsSpared p x found =
      rw (get_poll_found percent is_object_id q x.server p found)
        (core_looked p x.server found, refl)

  announce-IsSpared :
      (s : Server) (y : Result LivePollResult × Site R)
      → IsSpared q s y
      → IsSpared q s (and_then (announce db percent is_object_id true q) y)
  unfolding start_sync
  announce-IsSpared s (ok live, x) h = h
  announce-IsSpared s (err m, x) h = h

  added-IsSpared :
      (o key : String) (p : Poll) (x : Site R)
      → value_at q x.server.mem_polls ≡ some p
      → is_member key (members (voters_set_key q) x.redis) ≡ false
      → IsSpared q x.server (
          added_or_not db percent is_object_id q o x.server
            (db.sadd (voters_set_key q) key x.redis))
  unfolding WithRedis.publish
  added-IsSpared o key p x found new =
      let y = site x.server (count_in_redis db q o (db.sadd (voters_set_key q) key x.redis).1) in
      rw (answers.sadd_answers (voters_set_key q) key x.redis, new)
        (announce-IsSpared x.server (WithRedis.get_live_results db percent is_object_id q y)
          (live-IsSpared p y found))

  cast_on-IsSpared :
      (o key : String) (p p' : Poll) (x : Site R)
      → value_at q x.server.mem_polls ≡ some p'
      → takes o key (members (voters_set_key q) x.redis) (some p) ≡ true
      → IsSpared q x.server (WithRedis.cast_on db percent is_object_id p q o key x)
  unfolding WithRedis.cast_on
  cast_on-IsSpared o key p p' x found t =
      let active : p.is_active ≡ true = ground arith in
      let offered : has_option o p.options ≡ true = ground arith in
      let new : is_member key (members (voters_set_key q) x.redis) ≡ false = ground arith in
      rw (active, offered, ping_true db hash members percent is_object_id q answers x.redis)
        (added-IsSpared o key p' (site x.server (db.ping x.redis).1) found
          (ap (is_member key) (answers.members_ping (voters_set_key q) x.redis) ∙ new))

  cast-IsSpared :
      (o fp ip : String) (p : Poll) (x : Site R)
      → value_at q x.server.mem_polls ≡ some p
      → takes o (voter_key fp ip) (members (voters_set_key q) x.redis) (some p) ≡ true
      → IsSpared q x.server (WithRedis.cast_vote db percent is_object_id q o fp ip x)
  unfolding WithRedis.cast_vote
  cast-IsSpared o fp ip p x found t =
      let p' = calculate_percentages percent p in
      let s' = looked percent is_object_id q p x.server in
      let rest =
        cast_on-IsSpared o (voter_key fp ip) p' p' (site s' x.redis)
          (poll.Prelude.value_at-put_self q p' x.server.mem_polls)
          (takes_calculate percent is_object_id o (voter_key fp ip)
              (members (voters_set_key q) x.redis) p
            ∙ t) in
      rw (get_poll_found percent is_object_id q x.server p found)
        (rest.0 ∙ core_looked p x.server found, rest.1)

  module _ (down : Redis R) (offline : (r : R) → (down.ping r).0 ≡ false) (o fp ip other : String)
      (x : Site R) where
    -- the vote while Redis answers, and the one of the same voter when it does not
    abbrev pub with_redis : Result LivePollResult × Site R
    with_redis = WithRedis.cast_vote db percent is_object_id q o fp ip x

    abbrev pub without : Result LivePollResult × Site R
    without = WithRedis.cast_vote down percent is_object_id q other fp ip with_redis.1

    -- A voter can vote again once Redis no longer answers: a vote that is taken while Redis answers is
    -- not remembered in memory, and when `PING` fails, a second vote of the same voter in the same
    -- poll, for any of its options, is taken too. The voter has not voted in memory before, and the
    -- counter of the option does not overflow.
    pub votes_again :
        (p : Poll)
        → value_at q x.server.mem_polls ≡ some p
        → takes o (voter_key fp ip) (members (voters_set_key q) x.redis) (some p) ≡ true
        → takes other (voter_key fp ip) (voters_of q x.server) (some p) ≡ true
        → votes_in o (hash (votes_hash_key q) x.redis) + 1 < 2 ^ 63
        → (is_ok with_redis.0 ≡ true) × (is_ok without.0 ≡ true)
    votes_again p found t fresh small =
        let spared = cast-IsSpared o fp ip p x found t in
        let s' = with_redis.1.server in
        let taken : is_taken percent is_object_id q other fp ip s' ≡ true =
          takes_core other (voter_key fp ip) (voters_of q s') (value_at q s'.mem_polls) (core p)
            (spared.0 ∙ ap core_if found)
          ∙ sym (takes_core other (voter_key fp ip) (voters_of q s') (some p) (core p) refl)
          ∙ ap (λ m. takes other (voter_key fp ip) (or_else [] (value_at q m)) (some p)) spared.1
          ∙ fresh in
        (
          shown_ok with_redis.0 _ (
              redis_total db hash members answers percent is_object_id q o fp ip p x found t small),
          ap (λ (y : Result LivePollResult × Server). is_ok y.0)
                (offline_falls_back down percent is_object_id offline q other fp ip with_redis.1).0
              ∙ (vote_taken percent is_object_id q other fp ip s').0
              ∙ taken,
        )
