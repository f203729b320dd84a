-- ===== src/Polls/Binding.antt =====
-- `models.CreatePollRequest` of backend/internal/models/poll.go: what `ShouldBindJSON` takes.
use poll.Prelude.{
  ℕ, String, Bool, true, ◌&&◌, Option, none, some, List, [], ◌∷◌, leb, if◌then◌else◌, length,
}
use poll.Api.Request.{Payload, new_poll}
use poll.Polls.Space.{rune_count}

pub record CreatePollRequest : Type 0 where
  pub title : String
  pub description : String
  pub options : List String

abbrev pub is_between : ℕ → ℕ → ℕ → Bool
is_between lo hi n = leb lo n && leb n hi

-- `dive,min=1,max=200`
abbrev pub are_short : List String → Bool
are_short [] = true
are_short (o ∷ os) = is_between 1 200 (rune_count o) && are_short os

-- The conditions of the tags `binding`; lengths of texts count characters.
unfoldable pub is_valid : CreatePollRequest → Bool
is_valid r =
    is_between 3 300 (rune_count r.title)
    && leb (rune_count r.description) 1000
    && is_between 2 10 (length r.options)
    && are_short r.options

abbrev pub if_valid : CreatePollRequest → Option CreatePollRequest
if_valid r = if is_valid r then some r else none

-- A body of another kind lacks required fields.
unfoldable pub bind_create_poll : Option Payload → Option CreatePollRequest
unfolding is_valid
bind_create_poll (some (new_poll title description options)) =
    if_valid (record { title = title; description = description; options = options })
bind_create_poll _ = none
