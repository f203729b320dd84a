-- ===== src/Voting/Redis/Elections.antt =====
-- The votes in a new poll, with Redis and without (`CastVote` of
-- backend/internal/services/vote_service.go).
use mathlib.Core.Path.{subst}
use mathlib.Core.Option.{none-ne-some}
use poll.Prelude.{
  ℕ, suc, ◌<◌, ◌^◌, String, ◌≡◌, refl, ap, sym, ◌∙◌, Bool, Option, none, some, List, [], ◌∷◌, arith,
  Assoc, value_at, length, get_elem?, inl, inr, Option-cases,
}
use poll.Models.{Number, Poll, LivePollResult}
use poll.Api.Request.{Result}
use poll.Voting
use poll.Voting.{
  Server, add64, sum_of, seed, or_else, tally, calculate_percentages, and_then, voters_of,
  is_member, voter_key, has_option, record_vote, get_poll, start_sync, broadcast_local, increment,
  Sync, update_votes_in_db,
}
use poll.Voting.Sums.{HasDistinctIds}
use poll.Voting.Casting.{get_poll_found}
use poll.Voting.Voters as Voters
use poll.Voting.Voters.{step as vote_step}
use poll.Voting.Redis as WithRedis
use poll.Voting.Redis.Syncing.{
  IsDue, after_update, update_polls, update_syncs, update_counts, live-IsDue, cast-IsDue,
  writes-IsDue,
}
use poll.Voting.Redis.{
  Redis, Site, site, beside, announce, added_or_not, count_vote, count_in_redis, votes_hash_key,
  voters_set_key, total_key, is_zero,
}
use poll.Voting.Redis.Answering.{Answers}
use poll.Voting.Redis.Alike.{AreZero, Tallied}
use poll.Voting.Redis.Together.{looked_alike, live_alike}
use poll.Voting.Redis.Casting.{IsAlike, AreTogether, fewer, cast_on_alike}

-- what is asked of a poll, and a goroutine of an earlier vote, in whatever order
pub data Event : Type 0 where
  casts : (option_id fingerprint client_ip : String) → Event
  asks : Event
  writes : (sync : ℕ) → Event

-- with the answer; a goroutine gives none
abbrev answered : {A S : Type 0} → A × S → Option A × S
answered (a, s) = (some a, s)

module _ {R : Type 0} (db : Redis R) (percent : ℕ → ℕ → Number) (is_object_id : String → Bool)
    (q : String) where
  unfoldable pub redis_step : Event → Site R → Option (Result LivePollResult) × Site R
  redis_step (casts o fp ip) x = answered (WithRedis.cast_vote db percent is_object_id q o fp ip x)
  redis_step asks x = answered (WithRedis.get_live_results db percent is_object_id q x)
  redis_step (writes n) x =
      (none, site (vote_step percent is_object_id (Voters.writes n) x.server) x.redis)

  -- the answers to a row of events
  unfoldable pub redis_answers : List Event → Site R → List (Option (Result LivePollResult))
  unfolding redis_step
  redis_answers [] x = []
  redis_answers (e ∷ es) x = (redis_step e x).0 ∷ redis_answers es (redis_step e x).1

module _ (percent : ℕ → ℕ → Number) (is_object_id : String → Bool) (q : String) where
  unfoldable pub memory_step : Event → Server → Option (Result LivePollResult) × Server
  memory_step (casts o fp ip) s = answered (Voting.cast_vote percent is_object_id q o fp ip s)
  memory_step asks s = answered (Voting.get_live_results percent is_object_id q s)
  memory_step (writes n) s = (none, vote_step percent is_object_id (Voters.writes n) s)

  unfoldable pub memory_answers : List Event → Server → List (Option (Result LivePollResult))
  unfolding memory_step
  memory_answers [] s = []
  memory_answers (e ∷ es) s = (memory_step e s).0 ∷ memory_answers es (memory_step e s).1

module _ {R : Type 0} (db : Redis R) (hash : String → R → Assoc ℕ)
    (members : String → R → List String) (answers : Answers db hash members)
    (percent : ℕ → ℕ → Number) (is_object_id : String → Bool) (q : String) where
  abbrev IsBoth : ℕ → Poll → Site R → Server → Type 0
  IsBoth n p x s =
      IsAlike db hash members answers percent is_object_id q n p x s
      × IsDue q percent is_object_id s

  -- the same answer, and servers that are alike again
  abbrev Agree :
      ℕ → Option (Result LivePollResult) × Site R → Option (Result LivePollResult) × Server → Type 0
  Agree n (a, x) (b, s) =
      (a ≡ b) × (p : Poll) × IsAlike db hash members answers percent is_object_id q n p x s

  answered-Agree :
      (n : ℕ) (y : Result LivePollResult × Site R) (z : Result LivePollResult × Server)
      → AreTogether db hash members answers percent is_object_id q n y z
      → Agree n (answered y) (answered z)
  answered-Agree n (a, x) (b, s) (e, p, alike) = (ap some e, p, alike)

  -- A goroutine writes the same counts into the poll of both servers; if the poll has no counts, there
  -- is none to come.
  update-IsAlike :
      (n : ℕ) (p : Poll) (y : Sync) (x : Site R) (s : Server) (m : Assoc ℕ)
      → value_at q s.mem_votes ≡ some m
      → IsAlike db hash members answers percent is_object_id q n p x s
      → IsAlike db hash members answers percent is_object_id q n
          (after_update q y p)
          (site (update_votes_in_db y x.server) x.redis)
          (update_votes_in_db y s)
  update-IsAlike n p y x s m kept alike = record {
    here = update_polls q y x.server p alike.here;
    there = update_polls q y s p alike.there;
    pending = update_syncs q y x.server ∙ alike.pending ∙ sym (update_syncs q y s);
    known = alike.known ∙ ap (λ m. or_else [] (value_at q m)) (sym (update_counts q y s).1);
    below = alike.below;
    tallied =
        subst (Tallied (after_update q y p) (hash (votes_hash_key q) x.redis))
          (sym (ap (value_at q) (update_counts q y s).0 ∙ kept))
          (subst (Tallied p (hash (votes_hash_key q) x.redis)) kept alike.tallied);
  }

  writes_alike :
      (n k : ℕ) (p : Poll) (x : Site R) (s : Server)
      → IsBoth n p x s
      → Agree n
          (redis_step db percent is_object_id q (writes k) x)
          (memory_step percent is_object_id q (writes k) s)
  unfolding redis_step memory_step vote_step
  writes_alike n k p x s (alike, due) = elim (Option-cases (get_elem? s.syncs k)) [
    | inl e ↦ rw (ap (λ ys. get_elem? ys k) alike.pending ∙ e, e, vote_step) (refl, p, alike)
    | inr (y, e) ↦ elim (Option-cases (value_at q s.mem_votes)) [
      | inl empty ↦ absurd (none-ne-some y (sym (ap (λ ys. get_elem? ys k) (due empty)) ∙ e))
      | inr (m, kept) ↦
          rw (ap (λ ys. get_elem? ys k) alike.pending ∙ e, e, vote_step)
            (refl, after_update q y p, update-IsAlike n p y x s m kept alike)
    ]
  ]

  step_alike :
      (n : ℕ) (p : Poll) (e : Event) (x : Site R) (s : Server)
      → IsBoth (suc n) p x s
      → Agree n (redis_step db percent is_object_id q e x) (memory_step percent is_object_id q e s)
  unfolding redis_step memory_step WithRedis.cast_vote Voting.cast_vote
  step_alike n p asks x s (alike, due) = answered-Agree n _ _ (
      live_alike db hash members percent is_object_id q answers n p x s
        (fewer db hash members answers percent is_object_id q n p x s alike))
  step_alike n p (writes k) x s (alike, due) =
      writes_alike n k p x s
        (fewer db hash members answers percent is_object_id q n p x s alike, due)
  step_alike n p (casts o fp ip) x s (alike, due) = answered-Agree n _ _ (
      rw
        (
          get_poll_found percent is_object_id q x.server p alike.here,
          get_poll_found percent is_object_id q s p alike.there,
        )
        (cast_on_alike db hash members answers percent is_object_id q n
          (calculate_percentages percent p) _ _ o (voter_key fp ip)
          (looked_alike db hash members percent is_object_id q (suc n) p x s alike)))

  step-IsDue :
      (e : Event) (s : Server)
      → IsDue q percent is_object_id s
      → IsDue q percent is_object_id (memory_step percent is_object_id q e s).1
  unfolding memory_step
  step-IsDue asks s due = live-IsDue q percent is_object_id s due
  step-IsDue (casts o fp ip) s due = cast-IsDue q percent is_object_id o fp ip s due
  step-IsDue (writes n) s due = writes-IsDue q percent is_object_id n s due

  answers_alike :
      (es : List Event) (p : Poll) (x : Site R) (s : Server)
      → IsBoth (length es) p x s
      → redis_answers db percent is_object_id q es x ≡ memory_answers percent is_object_id q es s
  unfolding redis_answers memory_answers
  answers_alike [] p x s both = refl
  answers_alike (e ∷ es) p x s both =
      let (same, p', alike') = step_alike (length es) p e x s both in
      rw (same, answers_alike es p' _ _ (alike', step-IsDue e s both.1)) refl

  -- A new poll gets the same answers with Redis as without, whatever votes are cast in it, whenever its
  -- results are asked for and whenever the goroutines of the votes write their counts, as long as fewer than `2 ^ 63` things are asked: the same votes are
  -- taken and refused, and the same counts are shown. Redis answers, and has nothing of the poll yet;
  -- no goroutine of a vote is due, and the options have no votes and different identifiers.
  pub redis_elections :
      (es : List Event) (p : Poll) (x : Site R) (s : Server)
      → value_at q x.server.mem_polls ≡ some p
      → value_at q s.mem_polls ≡ some p
      → members (voters_set_key q) x.redis ≡ []
      → voters_of q s ≡ []
      → hash (votes_hash_key q) x.redis ≡ []
      → value_at q s.mem_votes ≡ none
      → x.server.syncs ≡ []
      → s.syncs ≡ []
      → AreZero p.options
      → HasDistinctIds p.options
      → length es < 2 ^ 63
      → redis_answers db percent is_object_id q es x ≡ memory_answers percent is_object_id q es s
  unfolding value_at
  redis_elections es p x s here there no_members no_voters empty none_kept idle quiet z d few =
      answers_alike es p x s (
        (record {
          here = here;
          there = there;
          pending = idle ∙ sym quiet;
          known = no_members ∙ sym no_voters;
          below = λ o. rw empty (omega (arith, few));
          tallied = rw (empty, none_kept) (refl, z, d);
        }),
        λ h. quiet,
      )
