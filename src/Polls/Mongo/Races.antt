-- ===== src/Polls/Mongo/Races.antt =====
-- `UpdateVotesInDB` of backend/internal/services/poll_service.go reads a poll and replaces it: what
-- happens to a change of its status in between.
use poll.Prelude.{ℕ, String, ◌≡◌, refl, ap, ◌∙◌, Bool, Option, none, some, eq_refl, Assoc}
use poll.Models.{Number, Poll}
use poll.Api.Request.{Result, ok, err}
use poll.Voting.{calculate_percentages}
use poll.Polls.Mongo.{
  Collection, Depot, with_counts, get_poll, set_status_of, set_poll_status, replace_votes,
}
use poll.Polls.Mongo.Alike.{Answers, with_status, replaced, as_stored}

-- whether an answer, or a document, shows an open poll
abbrev pub status_shown : Result Poll → Option Bool
status_shown (ok p) = some p.is_active
status_shown (err m) = none

abbrev pub status_stored : Option Poll → Option Bool
status_stored none = none
status_stored (some p) = some p.is_active

module _ {D : Type 0} (db : Collection D) (answers : Answers db) (percent : ℕ → ℕ → Number)
    (object_id : String → Option String) (nil_id : String) where
  -- When the owner closes or opens a poll between the two calls with which the goroutine of a vote
  -- writes its counts, the owner is told that it is done, and the poll is stored with the status that it
  -- had before. MongoDB answers.
  pub sync_reverts :
      (q id : String) (b : Bool) (v : Assoc ℕ) (t : ℕ) (p : Poll) (x : Depot D)
      → object_id q ≡ some id
      → db.find_one id x.store ≡ some p
      → let (a, y) = set_poll_status db percent object_id nil_id q p.creator_id b x in
        let z = replace_votes db percent object_id nil_id id v t p y in
        (status_shown a ≡ some b) × (status_stored (db.find_one id z.store) ≡ some p.is_active)
  unfolding set_poll_status set_status_of get_poll replace_votes as_stored calculate_percentages
  sync_reverts q id b v t p x valid found =
      let d = (db.update_status id b x.store).1 in
      let updated : db.update_status id b x.store ≡ (none, d) =
        ap (λ a. (a, d)) (answers.update_answers id b x.store) in
      let now = answers.find_updated id b x.store ∙ ap (with_status b) found in
      rw (valid, found, get_poll, eq_refl p.creator_id)
        (rw (valid, updated)
          (
            refl,
            ap status_stored (
                answers.find_replaced id (with_counts v t p) d
                ∙ ap (replaced (with_counts v t p)) now),
          ))
