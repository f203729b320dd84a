-- ===== src/Voting/Redis/Together.antt =====
-- A server with Redis and one without answer the votes in a new poll alike
-- (backend/internal/services/vote_service.go).
use mathlib.Core.Path.{subst}
use poll.Prelude.{
  ℕ, ◌+◌, ◌<◌, ◌^◌, String, ◌≡◌, refl, ap, sym, ◌∙◌, Bool, true, some, List, [], Assoc, value_at,
  value_at-put_self, Option-cases, inl, inr,
}
use poll.Models.{Number, Poll, LivePollResult}
use poll.Api.Request.{Result, ok, err}
use poll.Voting
use poll.Voting.{
  Server, add64, sum_of, or_else, tally, result_of, calculate_percentages, and_then, voters_of,
  is_member, voter_key, has_option, record_vote, get_poll, start_sync, broadcast_local, increment,
}
use poll.Voting.Casting.{looked, get_poll_found}
use poll.Voting.Tally.{broadcast_counts}
use poll.Polls.Core.{broadcast_polls}
use poll.Voting.Redis as WithRedis
use poll.Voting.Redis.{
  Redis, Site, site, beside, shown, tally_from, announce, added_or_not, count_vote, count_in_redis,
  redis_tally, votes_hash_key, voters_set_key, total_key, is_zero,
}
use poll.Voting.Redis.Answering.{Answers}
use poll.Voting.Redis.Alike.{Tallied, votes_in, Tallied-looked, redis_tally_same, tally_same}

module _ {R : Type 0} (db : Redis R) (hash : String → R → Assoc ℕ)
    (members : String → R → List String) (percent : ℕ → ℕ → Number) (is_object_id : String → Bool)
    (q : String) where
  -- The two servers know the same of the poll `p`, and no counter overflows in `n` votes.
  pub record Alike (n : ℕ) (p : Poll) (x : Site R) (s : Server) : Type 0 where
    pub here : value_at q x.server.mem_polls ≡ some p
    pub there : value_at q s.mem_polls ≡ some p
    pub pending : x.server.syncs ≡ s.syncs
    pub known : members (voters_set_key q) x.redis ≡ voters_of q s
    pub below : (o : String) → votes_in o (hash (votes_hash_key q) x.redis) + n < 2 ^ 63
    pub tallied : Tallied p (hash (votes_hash_key q) x.redis) (value_at q s.mem_votes)

  abbrev pub Together : ℕ → {A : Type 0} → A × Site R → A × Server → Type 0
  Together n (a, x) (b, s) = (a ≡ b) × (p : Poll) × Alike n p x s

  pub Together-and_then :
      {A B : Type 0} (n : ℕ) (f : A → Site R → Result B × Site R)
      (g : A → Server → Result B × Server)
      → ((a : A) (p : Poll) (x : Site R) (s : Server) → Alike n p x s → Together n (f a x) (g a s))
      → (y : Result A × Site R) (z : Result A × Server) → Together n y z
      → Together n (and_then f y) (and_then g z)
  Together-and_then n f g same (ok a, x) (b, s) (e, p, alike) =
      subst (λ c. Together n (f a x) (and_then g (c, s))) e (same a p x s alike)
  Together-and_then n f g same (err m, x) (b, s) (e, p, alike) =
      subst (λ c. Together n (err m, x) (and_then g (c, s))) e (refl, p, alike)

  -- what leaves the hash and the set of the poll alone
  abbrev pub IsQuiet : R → R → Type 0
  IsQuiet r r' =
      (hash (votes_hash_key q) r' ≡ hash (votes_hash_key q) r)
      × (members (voters_set_key q) r' ≡ members (voters_set_key q) r)

  pub quiet :
      (n : ℕ) (p : Poll) (x : Site R) (s : Server) (r : R)
      → IsQuiet x.redis r
      → Alike n p x s
      → Alike n p (site x.server r) s
  quiet n p x s r (same_hash, same_set) alike = record {
    here = alike.here;
    there = alike.there;
    pending = alike.pending;
    known = same_set ∙ alike.known;
    below = λ o. rw same_hash (alike.below o);
    tallied = rw same_hash alike.tallied;
  }

  -- after a look at the poll in both
  pub looked_alike :
      (n : ℕ) (p : Poll) (x : Site R) (s : Server)
      → Alike n p x s
      → Alike n
          (calculate_percentages percent p)
          (site (looked percent is_object_id q p x.server) x.redis)
          (looked percent is_object_id q p s)
  looked_alike n p x s alike = record {
    here = value_at-put_self q (calculate_percentages percent p) x.server.mem_polls;
    there = value_at-put_self q (calculate_percentages percent p) s.mem_polls;
    pending = alike.pending;
    known = alike.known;
    below = alike.below;
    tallied =
        Tallied-looked percent p (hash (votes_hash_key q) x.redis) (value_at q s.mem_votes)
          alike.tallied;
  }

  broadcast_syncs :
      (live : LivePollResult) (s : Server) → (broadcast_local q live s).syncs ≡ s.syncs
  unfolding broadcast_local
  broadcast_syncs live s = elim (Option-cases (value_at q s.subscribers)) [
    | inl e ↦ rw (e, broadcast_local) refl
    | inr (chs, e) ↦ rw (e, broadcast_local) refl
  ]

  -- what the end of a vote does in memory
  pub announce_alike :
      (n : ℕ) (p : Poll) (live : LivePollResult) (x : Site R) (s : Server)
      → Alike n p x s
      → Alike n p
          (site (start_sync q live x.server) x.redis)
          (start_sync q live (broadcast_local q live s))
  unfolding start_sync
  announce_alike n p live x s alike = record {
    here = alike.here;
    pending =
        ap (λ ys. (start_sync q live (record s { syncs = ys })).syncs)
          (alike.pending ∙ sym (broadcast_syncs live s));
    there = ap (value_at q) (broadcast_polls q live s) ∙ alike.there;
    known = alike.known ∙ ap (λ m. or_else [] (value_at q m)) (sym (broadcast_counts q live s).1);
    below = alike.below;
    tallied =
        subst (λ m. Tallied p (hash (votes_hash_key q) x.redis) (value_at q m))
          (sym (broadcast_counts q live s).0) alike.tallied;
  }

  module _ (answers : Answers db hash members) where
    pub ping_true : (r : R) → db.ping r ≡ (true, (db.ping r).1)
    ping_true r = ap (λ b. (b, (db.ping r).1)) (answers.ping_answers r)

    read_alike :
        (n : ℕ) (p : Poll) (x : Site R) (s : Server)
        → Alike n p x s
        → Together n
            (shown db percent is_object_id q p x.server (redis_tally db q p x.redis))
            (ok (Voting.live_result percent q p s), s)
    unfolding Voting.live_result
    read_alike n p x s alike =
        rw
          (redis_tally_same db hash members answers q p (value_at q s.mem_votes) x.redis
            alike.tallied)
          (
            ap ok (tally_same percent q p (hash (votes_hash_key q) x.redis) s alike.tallied),
            p,
            quiet n p x s _
                (
                  answers.hash_hgetall (votes_hash_key q) (votes_hash_key q) x.redis,
                  answers.members_hgetall (voters_set_key q) (votes_hash_key q) x.redis,
                )
                alike,
          )

    pub pinged :
        (n : ℕ) (p : Poll) (x : Site R) (s : Server)
        → Alike n p x s
        → Alike n p (site x.server (db.ping x.redis).1) s
    pinged n p x s = quiet n p x s (db.ping x.redis).1 (
      answers.hash_ping (votes_hash_key q) x.redis,
      answers.members_ping (voters_set_key q) x.redis,
    )

    pub live_alike :
        (n : ℕ) (p : Poll) (x : Site R) (s : Server)
        → Alike n p x s
        → Together n
            (WithRedis.get_live_results db percent is_object_id q x)
            (Voting.get_live_results percent is_object_id q s)
    unfolding WithRedis.get_live_results Voting.get_live_results
    live_alike n p x s alike =
        let p' = calculate_percentages percent p in
        let x' = site (looked percent is_object_id q p x.server) x.redis in
        let s' = looked percent is_object_id q p s in
        rw
          (
            get_poll_found percent is_object_id q x.server p alike.here,
            get_poll_found percent is_object_id q s p alike.there,
            ping_true x.redis,
          )
          (read_alike n p' (site x'.server (db.ping x.redis).1) s'
            (pinged n p' x' s' (looked_alike n p x s alike)))
