-- ===== src/Polls/Voted.antt =====
-- A voter stays known to the service of votes (backend/internal/services/vote_service.go), whatever
-- requests come to the handlers of polls: also if the poll is closed, opened again or deleted.
use mathlib.Core.Path.{subst}
use poll.Prelude.{
  ℕ, String, ◌≡◌, ap, sym, ◌∙◌, Bool, true, false, Option, List, [], ◌∷◌, value_at, inl, inr,
}
use poll.Models.{Number}
use poll.Api.Request.{Payload}
use poll.Voting.{Server, is_member, or_else, voter_key}
use poll.Voting.Casting.{casting, is_ok, counts, vote_taken}
use poll.Voting.Voters.{has_voted, step_voted, taken_voted, voted_refused}
use poll.Polls.Requests.{Event, step, run}
use poll.Polls.Unvoted.{step-kept}

module _ (percent : ℕ → ℕ → Number) (is_object_id : String → Bool) (go_lower : String → String)
    (bind_error : Option Payload → String) where
  request_voted :
      (q key : String) (e : Event) (s : Server)
      → has_voted percent is_object_id q key s ≡ true
      → has_voted percent is_object_id q key (step percent is_object_id go_lower bind_error e s)
        ≡ true
  unfolding step
  request_voted q key e s h = elim (step-kept percent is_object_id go_lower bind_error e s) [
    | inl (d, is_vote) ↦
        subst
          (λ f.
            has_voted percent is_object_id q key (step percent is_object_id go_lower bind_error f s)
            ≡ true)
          (sym is_vote) (step_voted percent is_object_id q key d s h)
    | inr same ↦ ap (λ (c : _ × _). is_member key (or_else [] (value_at q c.1))) same ∙ h
  ]

  run_voted :
      (q key : String) (es : List Event) (s : Server)
      → has_voted percent is_object_id q key s ≡ true
      → has_voted percent is_object_id q key (run percent is_object_id go_lower bind_error es s)
        ≡ true
  unfolding run
  run_voted q key [] s h = h
  run_voted q key (e ∷ es) s h = run_voted q key es _ (request_voted q key e s h)

  module _ (poll_id option_id other_option fp ip : String) (s : Server) (es : List Event) where
    -- the server when the voter comes back: after a first vote and any events
    abbrev pub later : Server
    later =
        run percent is_object_id go_lower bind_error es
          (casting percent is_object_id poll_id option_id fp ip s).1

    -- After a vote that was taken, whatever requests come, a second vote of the same voter in the same
    -- poll is refused, for whatever option, and counts for nothing.
    pub votes_once :
        is_ok (casting percent is_object_id poll_id option_id fp ip s).0 ≡ true
        → let second = casting percent is_object_id poll_id other_option fp ip later in
          (is_ok second.0 ≡ false) × (counts second.1 ≡ counts later)
    votes_once first =
        let t = sym (vote_taken percent is_object_id poll_id option_id fp ip s).0 ∙ first in
        voted_refused percent is_object_id poll_id other_option fp ip later (
          run_voted poll_id (voter_key fp ip) es _
            (taken_voted percent is_object_id poll_id option_id fp ip s t))
