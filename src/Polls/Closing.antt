-- ===== src/Polls/Closing.antt =====
-- A poll that its owner has closed takes no vote (`SetPollStatus` and `CastVote` of
-- backend/internal/services).
use poll.Prelude.{
  ℕ, String, ◌≡◌, refl, ap, ◌∙◌, Bool, false, not, ◌&&◌, Option, some, List, eq_refl, All, value_at,
  put, value_at-put_self,
}
use poll.Models.{Number, Poll}
use poll.Api.Request.{ok, Payload, poll_status, Response, success}
use poll.Voting.{
  Server, has_option, is_member, voter_key, voters_of, and_then, calculate_percentages,
}
use poll.Voting.Casting.{casting, is_ok, counts, refused, takes, get_poll_found, looked}
use poll.Polls.{set_poll_status, set_status_of}
use poll.Polls.Handler.{answer, broadcast_of, set_bound, handle_set_poll_status}
use poll.Polls.Core.{Core, core, core_if, core_at, core-calculate}
use poll.Polls.Requests.{Event, IsForeign, run}
use poll.Polls.Owner.{run_core, found_core}

module _ (percent : ℕ → ℕ → Number) (is_object_id : String → Bool) (go_lower : String → String)
    (bind_error : Option Payload → String) where
  -- the owner's request for a change of status
  abbrev pub setting :
      String → Poll → Bool → Server → Response Poll × Server × Option (String × Bool)
  setting id p b s =
      handle_set_poll_status percent is_object_id go_lower bind_error id (some p.creator_id)
        (some (poll_status b)) s

  -- the poll after the change
  abbrev pub with_status : Bool → Poll → Poll
  with_status b p =
      calculate_percentages percent (record (calculate_percentages percent p) { is_active = b })

  core-with_status :
      (b : Bool) (p : Poll) → core (with_status b p) ≡ core (record p { is_active = b })
  core-with_status b p =
      core-calculate percent (record (calculate_percentages percent p) { is_active = b })
      ∙ ap (λ (c : Core). (c.0, c.1, c.2, b, c.4)) (core-calculate percent p)

  -- the server after the change
  abbrev pub server_with : String → Poll → Bool → Server → Server
  server_with id p b s = record s {
    mem_polls = put id (with_status b p) (looked percent is_object_id id p s).mem_polls;
  }

  own_status :
      (id : String) (p : Poll) (b : Bool) (s : Server)
      → set_status_of percent is_object_id id p.creator_id b
          (calculate_percentages percent p)
          (looked percent is_object_id id p s)
        ≡ (ok (with_status b p), server_with id p b s)
  unfolding set_status_of calculate_percentages
  own_status id p b s = rw (eq_refl p.creator_id) refl

  set_found :
      (id : String) (p : Poll) (b : Bool) (s : Server)
      → value_at id s.mem_polls ≡ some p
      → set_poll_status percent is_object_id id p.creator_id b s
        ≡ (ok (with_status b p), server_with id p b s)
  unfolding set_poll_status
  set_found id p b s h =
      ap (and_then (set_status_of percent is_object_id id p.creator_id b))
        (get_poll_found percent is_object_id id s p h)
      ∙ own_status id p b s

  -- The owner's change of status is made, stored, answered with the poll, and broadcast.
  pub owner_sets :
      (id : String) (p : Poll) (b : Bool) (s : Server)
      → value_at id s.mem_polls ≡ some p
      → setting id p b s ≡ (success (with_status b p), server_with id p b s, some (id, b))
  unfolding handle_set_poll_status set_bound
  owner_sets id p b s h =
      ap (λ r. broadcast_of percent is_object_id go_lower bind_error id b (answer 400 r))
        (set_found id p b s h)

  module _ (id : String) (p : Poll) (es : List Event) (s : Server) where
    -- the server after the owner has closed the poll, and whatever the others do after that
    abbrev pub after_closing : Server
    after_closing = run percent is_object_id go_lower bind_error es (setting id p false s).1

    closed_core :
        value_at id s.mem_polls ≡ some p
        → All (IsForeign percent is_object_id go_lower bind_error id p.creator_id) es
        → core_at id after_closing.mem_polls ≡ some (core (record p { is_active = false }))
    closed_core h f = run_core percent is_object_id go_lower bind_error id _ es _ f (
        ap (λ (r : Response Poll × Server × Option (String × Bool)). core_at id r.1.mem_polls)
          (owner_sets id p false s h)
        ∙ ap core_if (value_at-put_self id (with_status false p) _)
        ∙ ap some (core-with_status false p))

    -- Once its owner has closed a poll, whatever the others do, every vote in it is refused and counts
    -- for nothing.
    pub closed_refuses :
        (option_id fp ip : String)
        → value_at id s.mem_polls ≡ some p
        → All (IsForeign percent is_object_id go_lower bind_error id p.creator_id) es
        → (is_ok (casting percent is_object_id id option_id fp ip after_closing).0 ≡ false)
          × (counts (casting percent is_object_id id option_id fp ip after_closing).1
              ≡ counts after_closing)
    closed_refuses option_id fp ip h f =
        let (q, at, same) =
          found_core percent is_object_id go_lower bind_error id _ after_closing
            (closed_core h f) in
        refused percent is_object_id id option_id fp ip after_closing (
          ap (takes option_id (voter_key fp ip) (voters_of id after_closing)) at
          ∙ ap
              (λ a.
                a
                && has_option option_id q.options
                && not (is_member (voter_key fp ip) (voters_of id after_closing)))
              (ap (λ (c : Core). c.3) same))
