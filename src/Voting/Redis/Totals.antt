-- ===== src/Voting/Redis/Totals.antt =====
-- The total that an answer to a vote shows with Redis (`CastVote` of
-- backend/internal/services/vote_service.go).
use mathlib.Core.Path.{subst}
use poll.Prelude.{
  ℕ, ◌+◌, ◌<◌, ◌^◌, String, ◌≡◌, refl, ap, sym, ◌∙◌, Bool, true, false, some, List, [], ◌∷◌, arith,
  Assoc, value_at, value_at-put_self,
}
use poll.Models.{Number, Poll, LivePollResult}
use poll.Api.Request.{Result, ok, err}
use poll.Voting
use poll.Voting.{
  Server, add64, sum_of, calculate_percentages, is_member, voter_key, has_option, increment,
  result_of,
}
use poll.Voting.Sums.{sum-increment}
use poll.Voting.Tally.{total_shown}
use poll.Voting.Casting.{looked, get_poll_found, takes, takes_calculate}
use poll.Voting.Redis as WithRedis
use poll.Voting.Redis.{
  Redis, Site, site, count_in_redis, votes_hash_key, voters_set_key, redis_tally, counted, shown,
  count_vote, added_or_not, announce,
}
use poll.Voting.Redis.Answering.{Answers}
use poll.Voting.Redis.Alike.{votes_in, is_nil, increment_nonempty}
use poll.Voting.Redis.Together.{ping_true}
use poll.Voting.Redis.Casting.{hash_counted}

module _ {R : Type 0} (db : Redis R) (hash : String → R → Assoc ℕ)
    (members : String → R → List String) (answers : Answers db hash members)
    (percent : ℕ → ℕ → Number) (is_object_id : String → Bool) (q : String) where
  counted_nonempty :
      (p : Poll) (h : Assoc ℕ) (r : R)
      → is_nil h ≡ false
      → counted db q p (some h, r) ≡ ((h, sum_of h), r)
  counted_nonempty p [] r n = absurd (ground arith)
  counted_nonempty p (c ∷ h) r n = refl

  tally_nonempty :
      (p : Poll) (r : R)
      → is_nil (hash (votes_hash_key q) r) ≡ false
      → (redis_tally db q p r).0 ≡ (hash (votes_hash_key q) r, sum_of (hash (votes_hash_key q) r))
  unfolding redis_tally
  tally_nonempty p r n =
      let h = hash (votes_hash_key q) r in
      let r' = (db.hgetall (votes_hash_key q) r).1 in
      let answer : db.hgetall (votes_hash_key q) r ≡ (some h, r') =
        ap (λ a. (a, r')) (answers.hgetall_answers (votes_hash_key q) r) in
      rw answer (ap (λ (c : (Assoc ℕ × ℕ) × R). c.0) (counted_nonempty p h r' n))

  live_total :
      (p : Poll) (x : Site R)
      → value_at q x.server.mem_polls ≡ some p
      → is_nil (hash (votes_hash_key q) x.redis) ≡ false
      → total_shown (WithRedis.get_live_results db percent is_object_id q x).0
        ≡ some (sum_of (hash (votes_hash_key q) x.redis))
  unfolding WithRedis.get_live_results result_of
  live_total p x found n =
      let same = answers.hash_ping (votes_hash_key q) x.redis in
      rw
        (
          get_poll_found percent is_object_id q x.server p found,
          ping_true db hash members percent is_object_id q answers x.redis,
        )
        (ap (λ (c : Assoc ℕ × ℕ). some c.1)
            (tally_nonempty (calculate_percentages percent p) (db.ping x.redis).1
              (ap is_nil same ∙ n))
          ∙ ap (λ h. some (sum_of h)) same)

  announce_total :
      (y : Result LivePollResult × Site R)
      → total_shown (Voting.and_then (announce db percent is_object_id true q) y).0
        ≡ total_shown y.0
  announce_total (ok live, x) = refl
  announce_total (err m, x) = refl

  publish_total :
      (p : Poll) (x : Site R)
      → value_at q x.server.mem_polls ≡ some p
      → is_nil (hash (votes_hash_key q) x.redis) ≡ false
      → total_shown (WithRedis.publish db percent is_object_id true q x).0
        ≡ some (sum_of (hash (votes_hash_key q) x.redis))
  unfolding WithRedis.publish
  publish_total p x found n =
      announce_total (WithRedis.get_live_results db percent is_object_id q x)
      ∙ live_total p x found n

  module _ (o key : String) where
    added_total :
        (p : Poll) (x : Site R)
        → value_at q x.server.mem_polls ≡ some p
        → is_member key (members (voters_set_key q) x.redis) ≡ false
        → votes_in o (hash (votes_hash_key q) x.redis) + 1 < 2 ^ 63
        → total_shown
            (added_or_not db percent is_object_id q o x.server
              (db.sadd (voters_set_key q) key x.redis)).0
          ≡ some (add64 (sum_of (hash (votes_hash_key q) x.redis)) 1)
    added_total p x found new small =
        let now = hash_counted db hash members answers percent is_object_id q o key x.redis small in
        let h = hash (votes_hash_key q) x.redis in
        rw (answers.sadd_answers (voters_set_key q) key x.redis, new)
          (publish_total p
              (site x.server (count_in_redis db q o (db.sadd (voters_set_key q) key x.redis).1))
              found (ap is_nil now ∙ increment_nonempty o h)
            ∙ ap (λ m. some (sum_of m)) now
            ∙ ap some (sum-increment o h))

    cast_on_total :
        (p p' : Poll) (x : Site R)
        → value_at q x.server.mem_polls ≡ some p'
        → takes o key (members (voters_set_key q) x.redis) (some p) ≡ true
        → votes_in o (hash (votes_hash_key q) x.redis) + 1 < 2 ^ 63
        → total_shown (WithRedis.cast_on db percent is_object_id p q o key x).0
          ≡ some (add64 (sum_of (hash (votes_hash_key q) x.redis)) 1)
    unfolding WithRedis.cast_on
    cast_on_total p p' x found t small =
        let active : p.is_active ≡ true = ground arith in
        let offered : has_option o p.options ≡ true = ground arith in
        let new : is_member key (members (voters_set_key q) x.redis) ≡ false = ground arith in
        let r = (db.ping x.redis).1 in
        let same = answers.hash_ping (votes_hash_key q) x.redis in
        rw (active, offered, ping_true db hash members percent is_object_id q answers x.redis)
          (added_total p' (site x.server r) found
              (ap (is_member key) (answers.members_ping (voters_set_key q) x.redis) ∙ new)
              (subst (λ h. votes_in o h + 1 < 2 ^ 63) (sym same) small)
            ∙ ap (λ h. some (add64 (sum_of h) 1)) same)

  -- With Redis, the answer to a vote that is taken shows as its total the votes of the hash and one
  -- more, whatever votes the poll has stored: a hash that is empty is not filled with them first, and
  -- then the answer shows one vote. Redis answers, and the counter of the option does not overflow.
  pub redis_total :
      (o fp ip : String) (p : Poll) (x : Site R)
      → value_at q x.server.mem_polls ≡ some p
      → takes o (voter_key fp ip) (members (voters_set_key q) x.redis) (some p) ≡ true
      → votes_in o (hash (votes_hash_key q) x.redis) + 1 < 2 ^ 63
      → total_shown (WithRedis.cast_vote db percent is_object_id q o fp ip x).0
        ≡ some (add64 (sum_of (hash (votes_hash_key q) x.redis)) 1)
  unfolding WithRedis.cast_vote
  redis_total o fp ip p x found t small =
      let p' = calculate_percentages percent p in
      rw (get_poll_found percent is_object_id q x.server p found) (
        cast_on_total o (voter_key fp ip) p' p'
          (site (looked percent is_object_id q p x.server) x.redis)
          (value_at-put_self q p' x.server.mem_polls)
          (takes_calculate percent is_object_id o (voter_key fp ip)
              (members (voters_set_key q) x.redis) p
            ∙ t)
          small)
