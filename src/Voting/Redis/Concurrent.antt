-- ===== src/Voting/Redis/Concurrent.antt =====
-- Votes at the same time: the commands that `CastVote` of
-- backend/internal/services/vote_service.go sends to Redis, with those of other votes in between.
use poll.Prelude.{
  ℕ, zero, suc, ◌+◌, ◌%◌, ◌<◌, ◌^◌, String, ◌≡◌, refl, ◌∙◌, false, Option, none, some, List, [],
  ◌∷◌, arith, if◌then◌else◌, Assoc, value_at, get_elem?, remove_at, length, inl, inr, Bool-cases,
  Option-cases,
}
use poll.Voting.{sum_of, is_member, increment}
use poll.Voting.Sums.{sum-increment, count-increment}
use poll.Voting.Redis.{Redis, votes_hash_key, voters_set_key, count_in_redis, is_zero, total_key}
use poll.Voting.Redis.Answering.{Answers}
use poll.Voting.Redis.Alike.{votes_in}

-- Redis, and the options of the votes that are between `SADD` and `HINCRBY`
pub record Votes (R : Type 0) : Type 0 where
  pub redis : R
  pub pending : List String

-- A vote sends `SADD`, or one of those that have goes on with `HINCRBY` and `INCR` (`total_key` is read
-- by no vote, so that these two stand together).
pub data Event : Type 0 where
  adds : (key option_id : String) → Event
  goes_on : (vote : ℕ) → Event

module _ {R : Type 0} (db : Redis R) (q : String) where
  abbrev pub added : String → Votes R → Option ℕ × R → Votes R
  added o v (a, r) = record { redis = r; pending = if is_zero a then v.pending else o ∷ v.pending }

  abbrev pub counted : ℕ → Votes R → Option String → Votes R
  counted n v none = v
  counted n v (some o) = record {
    redis = count_in_redis db q o v.redis;
    pending = remove_at v.pending n;
  }

  unfoldable pub step : Event → Votes R → Votes R
  unfolding count_in_redis
  step (adds key o) v = added o v (db.sadd (voters_set_key q) key v.redis)
  step (goes_on n) v = counted n v (get_elem? v.pending n)

  unfoldable pub run : List Event → Votes R → Votes R
  unfolding step
  run [] v = v
  run (e ∷ es) v = run es (step e v)

-- no voter twice
abbrev pub AreDistinct : List String → Type 0
AreDistinct [] = Unit
AreDistinct (v ∷ vs) = (is_member v vs ≡ false) × AreDistinct vs

length-remove_some :
    (os : List String) (n : ℕ) (o : String)
    → get_elem? os n ≡ some o
    → length (remove_at os n) + 1 ≡ length os
length-remove_some [] n o h = cc
length-remove_some (p ∷ os) zero o h = omega arith
length-remove_some (p ∷ os) (suc n) o h = omega (arith, length-remove_some os n o h)

module _ {R : Type 0} (db : Redis R) (hash : String → R → Assoc ℕ)
    (members : String → R → List String) (answers : Answers db hash members) (q : String) where
  -- Every member of the set is counted, or about to be; no counter overflows in `n` steps.
  record IsCounted (n : ℕ) (v : Votes R) : Type 0 where
    total :
        (sum_of (hash (votes_hash_key q) v.redis) + length v.pending) % 2 ^ 64
        ≡ length (members (voters_set_key q) v.redis) % 2 ^ 64
    below : (o : String) → votes_in o (hash (votes_hash_key q) v.redis) + n < 2 ^ 63
    distinct : AreDistinct (members (voters_set_key q) v.redis)

  fewer-IsCounted : (n : ℕ) (v : Votes R) → IsCounted (suc n) v → IsCounted n v
  fewer-IsCounted n v h = record {
    total = h.total;
    below = λ o. omega (arith, h.below o);
    distinct = h.distinct;
  }

  adds-IsCounted :
      (n : ℕ) (key o : String) (v : Votes R)
      → IsCounted (suc n) v
      → IsCounted n (step db q (adds key o) v)
  unfolding step
  adds-IsCounted n key o v h =
      let ms = members (voters_set_key q) v.redis in
      let same = answers.hash_sadd (votes_hash_key q) (voters_set_key q) key v.redis in
      let answer = answers.sadd_answers (voters_set_key q) key v.redis in
      let now = answers.members_sadd (voters_set_key q) key v.redis in
      elim (Bool-cases (is_member key ms)) [
        | inl old ↦ record {
          total = rw (answer, now, same) (rw old h.total);
          below = λ p. rw same (omega (arith, h.below p));
          distinct = rw now (rw old h.distinct);
        }
        | inr new ↦ record {
          total = rw (answer, now, same) (rw new (omega (arith, h.total)));
          below = λ p. rw same (omega (arith, h.below p));
          distinct = rw now (rw new (new, h.distinct));
        }
      ]

  hash_after :
      (o : String) (r : R)
      → votes_in o (hash (votes_hash_key q) r) + 1 < 2 ^ 63
      → hash (votes_hash_key q) (count_in_redis db q o r) ≡ increment o (hash (votes_hash_key q) r)
  unfolding count_in_redis
  hash_after o r small =
      answers.hash_incr (votes_hash_key q) (total_key q) _
      ∙ answers.hash_hincrby (votes_hash_key q) o r small

  members_after :
      (o : String) (r : R)
      → members (voters_set_key q) (count_in_redis db q o r) ≡ members (voters_set_key q) r
  unfolding count_in_redis
  members_after o r =
      answers.members_incr (voters_set_key q) (total_key q) _
      ∙ answers.members_hincrby (voters_set_key q) (votes_hash_key q) o 1 r

  counted-IsCounted :
      (n m : ℕ) (o : String) (v : Votes R)
      → IsCounted (suc n) v
      → get_elem? v.pending m ≡ some o
      → IsCounted n (counted db q m v (some o))
  counted-IsCounted n m o v h e =
      let m₀ = hash (votes_hash_key q) v.redis in
      let now = hash_after o v.redis (omega (arith, h.below o)) in
      let less = length-remove_some v.pending m o e in
      record {
        total =
            rw (now, members_after o v.redis, sum-increment o m₀) (omega (arith, less, h.total));
        below = λ j. rw now (ground (arith, count-increment o j m₀, h.below j));
        distinct = rw (members_after o v.redis) h.distinct;
      }

  goes_on-IsCounted :
      (n m : ℕ) (v : Votes R) → IsCounted (suc n) v → IsCounted n (step db q (goes_on m) v)
  unfolding step
  goes_on-IsCounted n m v h = elim (Option-cases (get_elem? v.pending m)) [
    | inl e ↦ rw e (fewer-IsCounted n v h)
    | inr (o, e) ↦ rw e (counted-IsCounted n m o v h e)
  ]

  run-IsCounted :
      (es : List Event) (v : Votes R) → IsCounted (length es) v → IsCounted 0 (run db q es v)
  unfolding run
  run-IsCounted [] v h = h
  run-IsCounted (adds key o ∷ es) v h =
      run-IsCounted es (step db q (adds key o) v) (adds-IsCounted (length es) key o v h)
  run-IsCounted (goes_on m ∷ es) v h =
      run-IsCounted es (step db q (goes_on m) v) (goes_on-IsCounted (length es) m v h)

  -- Votes that reach Redis in any interleaving of their commands, from no voters and no votes: no
  -- voter is in the set twice, and the counts of the options and the votes that are still between
  -- `SADD` and `HINCRBY` come to as many as there are voters, modulo 2^64. Redis answers, and there
  -- are fewer than 2^63 steps.
  pub concurrent_votes :
      (es : List Event) (r : R)
      → hash (votes_hash_key q) r ≡ []
      → members (voters_set_key q) r ≡ []
      → length es < 2 ^ 63
      → let v = run db q es record { redis = r; pending = [] } in
        AreDistinct (members (voters_set_key q) v.redis)
        × ((sum_of (hash (votes_hash_key q) v.redis) + length v.pending) % 2 ^ 64
            ≡ length (members (voters_set_key q) v.redis) % 2 ^ 64)
  unfolding value_at
  concurrent_votes es r empty nobody few =
      let after =
        run-IsCounted es record { redis = r; pending = [] }
          record {
            total = rw (empty, nobody) refl;
            below = λ o. rw empty (omega (arith, few));
            distinct = rw nobody tt;
          } in
      (after.distinct, after.total)
