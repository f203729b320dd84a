-- ===== src/Voting/Redis/Casting.antt =====
-- One vote with Redis, and one without (`CastVote` of
-- backend/internal/services/vote_service.go).
use mathlib.Core.Path.{subst}
use poll.Prelude.{
  ℕ, suc, ◌+◌, ◌<◌, ◌^◌, String, ◌≡◌, refl, ap, sym, ◌∙◌, Bool, true, false, some, List, [], ◌∷◌,
  arith, Assoc, value_at, value_at-put_self, inl, inr, if◌then◌else◌, Bool-cases,
}
use poll.Models.{Number, Poll, LivePollResult}
use poll.Api.Request.{Result, ok, err}
use poll.Voting
use poll.Voting.{
  Server, add64, sum_of, seed, or_else, tally, calculate_percentages, and_then, voters_of,
  is_member, voter_key, has_option, record_vote, get_poll, start_sync, broadcast_local, increment,
}
use poll.Voting.Sums.{count-increment}
use poll.Voting.Redis as WithRedis
use poll.Voting.Redis.{
  Redis, Site, site, beside, announce, added_or_not, count_vote, count_in_redis, votes_hash_key,
  voters_set_key, total_key, is_zero,
}
use poll.Voting.Redis.Answering.{Answers}
use poll.Voting.Redis.Alike.{votes_in, Tallied-vote}
use poll.Voting.Redis.Together.{
  Alike, Together, quiet, Together-and_then, announce_alike, ping_true, live_alike, pinged,
}

module _ {R : Type 0} (db : Redis R) (hash : String → R → Assoc ℕ)
    (members : String → R → List String) (answers : Answers db hash members)
    (percent : ℕ → ℕ → Number) (is_object_id : String → Bool) (q : String) where
  abbrev pub IsAlike : ℕ → Poll → Site R → Server → Type 0
  IsAlike n p x s = Alike db hash members percent is_object_id q n p x s

  abbrev pub AreTogether :
      ℕ → Result LivePollResult × Site R → Result LivePollResult × Server → Type 0
  AreTogether n y z = Together db hash members percent is_object_id q n y z

  publish_alike :
      (n : ℕ) (p : Poll) (x : Site R) (s : Server)
      → IsAlike n p x s
      → AreTogether n
          (WithRedis.publish db percent is_object_id true q x)
          (Voting.publish percent is_object_id q s)
  unfolding WithRedis.publish Voting.publish
  publish_alike n p x s alike =
      Together-and_then db hash members percent is_object_id q n
        (announce db percent is_object_id true q)
        (λ live s'. (ok live, start_sync q live (broadcast_local q live s')))
        (λ live p' y s' alike'. (
          refl,
          p',
          quiet db hash members percent is_object_id q n p'
              (site (start_sync q live y.server) y.redis) _ _
              (
                answers.hash_publish (votes_hash_key q) _ live y.redis,
                answers.members_publish (voters_set_key q) _ live y.redis,
              )
              (announce_alike db hash members percent is_object_id q n p' live y s' alike'),
        ))
        (WithRedis.get_live_results db percent is_object_id q x)
        (Voting.get_live_results percent is_object_id q s)
        (live_alike db hash members percent is_object_id q answers n p x s alike)

  pub hash_counted :
      (o key : String) (r : R)
      → votes_in o (hash (votes_hash_key q) r) + 1 < 2 ^ 63
      → hash (votes_hash_key q) (count_in_redis db q o (db.sadd (voters_set_key q) key r).1)
        ≡ increment o (hash (votes_hash_key q) r)
  unfolding count_in_redis
  hash_counted o key r small =
      let same = answers.hash_sadd (votes_hash_key q) (voters_set_key q) key r in
      answers.hash_incr (votes_hash_key q) (total_key q) _
      ∙ answers.hash_hincrby (votes_hash_key q) o (db.sadd (voters_set_key q) key r).1
          (subst (λ h. votes_in o h + 1 < 2 ^ 63) (sym same) small)
      ∙ ap (increment o) same

  members_counted :
      (o key : String) (r : R)
      → is_member key (members (voters_set_key q) r) ≡ false
      → members (voters_set_key q) (count_in_redis db q o (db.sadd (voters_set_key q) key r).1)
        ≡ key ∷ members (voters_set_key q) r
  unfolding count_in_redis
  members_counted o key r new =
      answers.members_incr (voters_set_key q) (total_key q) _
      ∙ answers.members_hincrby (voters_set_key q) (votes_hash_key q) o 1 _
      ∙ answers.members_sadd (voters_set_key q) key r
      ∙ ap (λ b. if b then members (voters_set_key q) r else key ∷ members (voters_set_key q) r) new

  record-IsAlike :
      (n : ℕ) (p : Poll) (x : Site R) (s : Server) (o key : String)
      → IsAlike (suc n) p x s
      → is_member key (voters_of q s) ≡ false
      → IsAlike n p
          (site x.server (count_in_redis db q o (db.sadd (voters_set_key q) key x.redis).1))
          (record_vote q o key p s)
  unfolding record_vote
  record-IsAlike n p x s o key alike new =
      let h = hash (votes_hash_key q) x.redis in
      let now = hash_counted o key x.redis (omega (arith, alike.below o)) in
      record {
        here = alike.here;
        there = alike.there;
        pending = alike.pending;
        known =
            members_counted o key x.redis (ap (is_member key) alike.known ∙ new)
            ∙ ap (λ v. key ∷ v) alike.known
            ∙ sym (ap (or_else []) (value_at-put_self q (key ∷ voters_of q s) s.mem_voters));
        below = λ j. rw now (ground (arith, count-increment o j h, alike.below j));
        tallied =
            rw
              (
                now,
                value_at-put_self q
                    (increment o (or_else (seed p.options []) (value_at q s.mem_votes)))
                    s.mem_votes,
              )
              (Tallied-vote p o h (value_at q s.mem_votes) alike.tallied);
      }

  -- one vote less
  pub fewer : (n : ℕ) (p : Poll) (x : Site R) (s : Server) → IsAlike (suc n) p x s → IsAlike n p x s
  fewer n p x s alike = record {
    here = alike.here;
    there = alike.there;
    pending = alike.pending;
    known = alike.known;
    below = λ o. omega (arith, alike.below o);
    tallied = alike.tallied;
  }

  refuse-IsAlike :
      (n : ℕ) (p : Poll) (x : Site R) (s : Server) (key : String)
      → IsAlike (suc n) p x s
      → is_member key (voters_of q s) ≡ true
      → IsAlike n p (site x.server (db.sadd (voters_set_key q) key x.redis).1) s
  refuse-IsAlike n p x s key alike old =
      quiet db hash members percent is_object_id q n p x s _
        (
          answers.hash_sadd (votes_hash_key q) (voters_set_key q) key x.redis,
          answers.members_sadd (voters_set_key q) key x.redis
              ∙ ap
                  (λ b.
                    if b
                    then members (voters_set_key q) x.redis
                    else key ∷ members (voters_set_key q) x.redis)
                  (ap (is_member key) alike.known ∙ old),
        )
        (fewer n p x s alike)

  count_alike :
      (n : ℕ) (p : Poll) (x : Site R) (s : Server) (o key : String)
      → IsAlike (suc n) p x s
      → AreTogether n
          (added_or_not db percent is_object_id q o x.server
            (db.sadd (voters_set_key q) key x.redis))
          (if is_member key (voters_of q s)
            then (err "you have already cast your vote on this poll", s)
            else Voting.publish percent is_object_id q (record_vote q o key p s))
  count_alike n p x s o key alike =
      let answer =
        answers.sadd_answers (voters_set_key q) key x.redis
        ∙ ap (λ v. some (if is_member key v then 0 else 1)) alike.known in
      elim (Bool-cases (is_member key (voters_of q s))) [
        | inl old ↦ rw (answer, old) (refl, p, refuse-IsAlike n p x s key alike old)
        | inr new ↦
            rw (answer, new) (publish_alike n p _ _ (record-IsAlike n p x s o key alike new))
      ]

  pub cast_on_alike :
      (n : ℕ) (p : Poll) (x : Site R) (s : Server) (o key : String)
      → IsAlike (suc n) p x s
      → AreTogether n
          (WithRedis.cast_on db percent is_object_id p q o key x)
          (Voting.cast_on percent is_object_id p q o key s)
  unfolding WithRedis.cast_on Voting.cast_on
  cast_on_alike n p x s o key alike = elim (Bool-cases p.is_active) [
    | inr e ↦ rw e (refl, p, fewer n p x s alike)
    | inl e ↦ elim (Bool-cases (has_option o p.options)) [
      | inr f ↦ rw (e, f) (refl, p, fewer n p x s alike)
      | inl f ↦
          rw (e, f, ping_true db hash members percent is_object_id q answers x.redis)
            (count_alike n p _ s o key
              (pinged db hash members percent is_object_id q answers (suc n) p x s alike))
    ]
  ]
