-- ===== src/Voting/Redis/Offline.antt =====
-- `CastVote` and `GetLiveResults` of backend/internal/services/vote_service.go while Redis does not
-- answer: the fallback in memory.
use poll.Prelude.{
  ℕ, String, ◌≡◌, refl, ap, ◌∙◌, Bool, true, false, arith, Bool-cases, inl, inr, if◌then◌else◌,
}
use poll.Models.{Number, Poll}
use poll.Api.Request.{Result, ok, err}
use poll.Voting
use poll.Voting.{
  Server, and_then, tally, live_result, get_poll, start_sync, broadcast_local, is_member, voters_of,
  record_vote, voter_key, has_option,
}
use poll.Voting.Redis.{Redis, Site, site, beside, shown, announce, tally_from, count_vote}
use poll.Voting.Redis as WithRedis

-- what a call leaves in memory
abbrev pub forget : {A R : Type 0} → Result A × Site R → Result A × Server
forget (a, x) = (a, x.server)

forget-and_then :
    {A B R : Type 0} (f : A → Site R → Result B × Site R) (g : A → Server → Result B × Server)
    → ((a : A) (x : Site R) → forget (f a x) ≡ g a x.server)
    → (y : Result A × Site R) → forget (and_then f y) ≡ and_then g (forget y)
forget-and_then f g same (ok a, x) = same a x
forget-and_then f g same (err m, x) = refl

module _ {R : Type 0} (db : Redis R) (percent : ℕ → ℕ → Number) (is_object_id : String → Bool)
    (offline : (r : R) → (db.ping r).0 ≡ false) where
  tally_offline :
      (poll_id : String) (p : Poll) (s : Server) (c : Bool × R)
      → c.0 ≡ false
      → tally_from db percent is_object_id poll_id p s c ≡ (tally poll_id p s, c.1)
  tally_offline poll_id p s (true, r) h = absurd (ground arith)
  tally_offline poll_id p s (false, r) h = refl

  live_offline :
      (poll_id : String) (x : Site R)
      → forget (WithRedis.get_live_results db percent is_object_id poll_id x)
        ≡ Voting.get_live_results percent is_object_id poll_id x.server
  unfolding WithRedis.get_live_results Voting.get_live_results
  live_offline poll_id x =
      forget-and_then _ (λ p s. (ok (live_result percent poll_id p s), s))
        (λ p y.
          ap (λ c. forget (shown db percent is_object_id poll_id p y.server c))
            (tally_offline poll_id p y.server (db.ping y.redis) (offline y.redis)))
        (beside (get_poll percent is_object_id poll_id) x)

  publish_offline :
      (poll_id : String) (x : Site R)
      → forget (WithRedis.publish db percent is_object_id false poll_id x)
        ≡ Voting.publish percent is_object_id poll_id x.server
  unfolding WithRedis.publish Voting.publish
  publish_offline poll_id x =
      forget-and_then _
        (λ live s. (ok live, start_sync poll_id live (broadcast_local poll_id live s)))
        (λ live y. refl) (WithRedis.get_live_results db percent is_object_id poll_id x)
      ∙ ap
          (and_then (λ live s. (ok live, start_sync poll_id live (broadcast_local poll_id live s))))
          (live_offline poll_id x)

  module _ (p : Poll) (poll_id option_id key : String) where
    count_offline :
        (s : Server) (c : Bool × R)
        → c.0 ≡ false
        → forget (count_vote db percent is_object_id p poll_id option_id key s c) ≡ (
            if is_member key (voters_of poll_id s)
            then (err "you have already cast your vote on this poll", s)
            else Voting.publish percent is_object_id poll_id
                (record_vote poll_id option_id key p s))
    count_offline s (true, r) h = absurd (ground arith)
    count_offline s (false, r) h = elim (Bool-cases (is_member key (voters_of poll_id s))) [
      | inl e ↦ rw e refl
      | inr e ↦ rw e (publish_offline poll_id (site (record_vote poll_id option_id key p s) r))
    ]

    cast_on_offline :
        (x : Site R)
        → forget (WithRedis.cast_on db percent is_object_id p poll_id option_id key x)
          ≡ Voting.cast_on percent is_object_id p poll_id option_id key x.server
    unfolding WithRedis.cast_on Voting.cast_on
    cast_on_offline x = elim (Bool-cases p.is_active) [
      | inr e ↦ rw e refl
      | inl e ↦ elim (Bool-cases (has_option option_id p.options)) [
        | inr f ↦ rw (e, f) refl
        | inl f ↦ rw (e, f) (count_offline x.server (db.ping x.redis) (offline x.redis))
      ]
    ]

  module _ (poll_id option_id fp ip : String) (x : Site R) where
    -- While Redis does not answer `PING`, a vote and a look at the results are answered as in a server
    -- without Redis, and leave the same in memory.
    pub offline_falls_back :
        (forget (WithRedis.cast_vote db percent is_object_id poll_id option_id fp ip x)
          ≡ Voting.cast_vote percent is_object_id poll_id option_id fp ip x.server)
        × (forget (WithRedis.get_live_results db percent is_object_id poll_id x)
            ≡ Voting.get_live_results percent is_object_id poll_id x.server)
    unfolding WithRedis.cast_vote Voting.cast_vote
    offline_falls_back = (
      forget-and_then _
          (λ p s. Voting.cast_on percent is_object_id p poll_id option_id (voter_key fp ip) s)
          (λ p y. cast_on_offline p poll_id option_id (voter_key fp ip) y)
          (beside (get_poll percent is_object_id poll_id) x),
      live_offline poll_id x,
    )
