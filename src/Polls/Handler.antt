-- ===== src/Polls/Handler.antt =====
-- backend/internal/handlers/poll_handler.go. A handler runs behind the middleware, which says who the
-- user is; a handler that may broadcast a change of status also returns it.
use poll.Prelude.{ℕ, String, ◌++◌, Bool, Option, none, some, List, is_empty, if◌then◌else◌}
use poll.Models.{Number, Poll}
use poll.Api.Request.{Payload, poll_status, Result, ok, err, Response, success, failure}
use poll.Voting.{Server, get_poll}
use poll.Polls.{Draw, create_poll, list_user_polls, set_poll_status, delete_poll}
use poll.Polls.Binding.{CreatePollRequest, bind_create_poll}

-- the answer for what a service returns, with the status of a failure
abbrev pub answer : {A : Type 0} → ℕ → Result A × Server → Response A × Server
answer status (ok a, s) = (success a, s)
answer status (err m, s) = (failure status (some m), s)

abbrev pub unauthorized : {A : Type 0} → Server → Response A × Server
unauthorized s = (failure 401 (some "Unauthorized"), s)

-- `UpdateStatusRequest`: a body of another kind has no field `isActive`, which is then false.
abbrev pub bind_status : Option Payload → Option Bool
bind_status none = none
bind_status (some (poll_status b)) = some b
bind_status (some _) = some Bool.false

-- `bind_error` is the text that the validator gives for a body.
module _ (percent : ℕ → ℕ → Number) (is_object_id : String → Bool) (go_lower : String → String)
    (bind_error : Option Payload → String) where
  unfoldable pub create_bound :
      Draw
      → (user_id : String) → Option Payload
      → Option CreatePollRequest
      → Server
      → Response Poll × Server
  create_bound draw user_id body none s =
      (failure 400 (some ("Validation failed: " ++ bind_error body)), s)
  create_bound draw user_id body (some req) s =
      answer 400 (create_poll percent is_object_id go_lower draw user_id req s)

  unfoldable pub handle_create_poll :
      Draw → (user_id : Option String) → Option Payload → Server → Response Poll × Server
  unfolding create_bound
  handle_create_poll draw none body s = unauthorized s
  handle_create_poll draw (some user_id) body s =
      create_bound draw user_id body (bind_create_poll body) s

  unfoldable pub handle_get_poll : (poll_id : String) → Server → Response Poll × Server
  handle_get_poll poll_id s =
      if is_empty poll_id
      then (failure 400 (some "Poll ID is required"), s)
      else answer 404 (get_poll percent is_object_id poll_id s)

  unfoldable pub handle_list_my_polls :
      (user_id : Option String) → Server → Response (List Poll) × Server
  handle_list_my_polls none s = unauthorized s
  handle_list_my_polls (some user_id) s =
      let (polls, s') = list_user_polls percent is_object_id user_id s in (success polls, s')

  -- the status that is broadcast after a change
  abbrev pub broadcast_of :
      String → Bool → Response Poll × Server → Response Poll × Server × Option (String × Bool)
  broadcast_of poll_id b (success p, s) = (success p, s, some (poll_id, b))
  broadcast_of poll_id b (r, s) = (r, s, none)

  unfoldable pub set_bound :
      (poll_id user_id : String)
      → Option Bool
      → Server
      → Response Poll × Server × Option (String × Bool)
  set_bound poll_id user_id none s = (failure 400 (some "Invalid request payload"), s, none)
  set_bound poll_id user_id (some b) s =
      broadcast_of poll_id b (answer 400 (set_poll_status percent is_object_id poll_id user_id b s))

  unfoldable pub handle_set_poll_status :
      (poll_id : String) (user_id : Option String)
      → Option Payload
      → Server
      → Response Poll × Server × Option (String × Bool)
  unfolding set_bound
  handle_set_poll_status poll_id none body s = (failure 401 (some "Unauthorized"), s, none)
  handle_set_poll_status poll_id (some user_id) body s =
      set_bound poll_id user_id (bind_status body) s

  unfoldable pub handle_delete_poll :
      (poll_id : String) (user_id : Option String) → Server → Response (Unit {0}) × Server
  handle_delete_poll poll_id none s = unauthorized s
  handle_delete_poll poll_id (some user_id) s =
      answer 400 (delete_poll percent is_object_id poll_id user_id s)
