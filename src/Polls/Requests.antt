-- ===== src/Polls/Requests.antt =====
-- What comes to the handlers of backend/internal/handlers/poll_handler.go and to the service of votes,
-- one after the other.
use poll.Prelude.{ℕ, String, ◌≢◌, Bool, Option, some, List, [], ◌∷◌}
use poll.Models.{Number}
use poll.Api.Request.{Payload}
use poll.Voting.{Server}
use poll.Voting.Voters.{Event as VoteEvent, step as vote_step}
use poll.Polls.{Draw}
use poll.Polls.Handler.{
  handle_create_poll, handle_get_poll, handle_list_my_polls, handle_set_poll_status,
  handle_delete_poll,
}

-- A request to the handlers, with the user that the middleware found, or a step of the service of
-- votes.
pub data Event : Type 0 where
  creates : Draw → (user_id : Option String) → Option Payload → Event
  opens : (poll_id : String) → Event
  lists : (user_id : Option String) → Event
  sets : (poll_id : String) (user_id : Option String) → Option Payload → Event
  deletes : (poll_id : String) (user_id : Option String) → Event
  voting : VoteEvent → Event

module _ (percent : ℕ → ℕ → Number) (is_object_id : String → Bool) (go_lower : String → String)
    (bind_error : Option Payload → String) where
  unfoldable pub step : Event → Server → Server
  step (creates draw user body) s =
      (handle_create_poll percent is_object_id go_lower bind_error draw user body s).1
  step (opens poll_id) s = (handle_get_poll percent is_object_id go_lower bind_error poll_id s).1
  step (lists user) s = (handle_list_my_polls percent is_object_id go_lower bind_error user s).1
  step (sets poll_id user body) s =
      (handle_set_poll_status percent is_object_id go_lower bind_error poll_id user body s).1
  step (deletes poll_id user) s =
      (handle_delete_poll percent is_object_id go_lower bind_error poll_id user s).1
  step (voting e) s = vote_step percent is_object_id e s

  unfoldable pub run : List Event → Server → Server
  unfolding step
  run [] s = s
  run (e ∷ es) s = run es (step e s)

  module _ (id owner : String) where
    -- what is not of the owner, for a poll with the identifier `id`; a new poll gets another one
    abbrev pub IsForeign : Event → Type 0
    IsForeign (creates draw user body) = draw.poll_id ≢ id
    IsForeign (sets poll_id user body) = user ≢ some owner
    IsForeign (deletes poll_id user) = user ≢ some owner
    IsForeign _ = Unit
