-- ===== src/Vote/State.antt =====
-- The state and the handlers of frontend/src/pages/VotePage.jsx.
use poll.Prelude.{
  String, ◌++◌, Bool, true, false, Option, none, some, ◌==◌, if◌then◌else◌, find_first, truthy,
  or_text,
}
use poll.Models.{Poll, PollOption}
use poll.Api.Storage.{Storage, get_item, set_item}
use poll.Api.Request.{Result, ok, err}

pub record Page : Type 0 where
  pub poll : Option Poll
  pub loading : Bool
  pub error : String
  pub selected_option : String
  pub submitting : Bool
  pub has_voted : Bool
  pub voted_option_text : String
  pub share_modal_open : Bool

abbrev pub start : Page
start = record {
  poll = none;
  loading = true;
  error = "";
  selected_option = "";
  submitting = false;
  has_voted = false;
  voted_option_text = "";
  share_modal_open = false;
}

-- `voted_poll_${pollId}`; a missing `pollId` is written `null`.
unfoldable pub vote_key : Option String → String
vote_key none = "voted_poll_null"
vote_key (some id) = "voted_poll_" ++ id

-- the test `if (pollId)`
abbrev pub is_given : Option String → Bool
is_given none = false
is_given (some id) = truthy id

-- the first part of the effect: was there a vote from this browser?
unfoldable pub recall_vote : Option String → Page → Page
recall_vote none p = p
recall_vote (some stored) p =
    if truthy stored then record p { has_voted = true; voted_option_text = stored } else p

-- the effect, up to the wait of `loadPoll`
unfoldable pub enter : Option String → Storage → Page → Page
unfolding recall_vote vote_key
enter poll_id store p =
    let p' = recall_vote (get_item (vote_key poll_id) store) p in
    if is_given poll_id then record p' { loading = true; error = "" } else p'

-- the rest of `loadPoll`
unfoldable pub loaded : Result Poll → Page → Page
loaded (ok poll) p = record p { poll = some poll; loading = false }
loaded (err m) p = record p { error = or_text m "Unable to load poll."; loading = false }

unfoldable pub select_option : String → Page → Page
select_option id p = record p { selected_option = id }

-- What `handleVoteSubmit` closes over when it is called: the vote that it casts.
pub record Ballot : Type 0 where
  pub poll_id : Option String
  pub poll : Poll
  pub selected : String

-- `handleVoteSubmit` up to its wait, with the ballot for `api.castVote`. The form that calls it is
-- rendered only with a poll.
unfoldable pub handle_vote_submit : Option String → Poll → Page → Page × Option Ballot
handle_vote_submit poll_id poll p =
    if truthy p.selected_option
    then (
      record p { submitting = true; error = "" },
      some (record { poll_id = poll_id; poll = poll; selected = p.selected_option }),
    )
    else (p, none)

-- `chosen ? chosen.text : 'Selected Option'`
unfoldable pub chosen_text : Ballot → String
chosen_text b = elim (find_first (λ (o : PollOption). o.id == b.selected) b.poll.options) [
  | none ↦ "Selected Option"
  | some o ↦ o.text
]

-- the rest of `handleVoteSubmit`
unfoldable pub vote_settled : {A : Type 0} → Result A → Ballot → Page × Storage → Page × Storage
unfolding chosen_text vote_key
vote_settled (ok _) b (p, store) = (
  record p { has_voted = true; voted_option_text = chosen_text b; submitting = false },
  set_item (vote_key b.poll_id) (chosen_text b) store,
)
vote_settled (err m) b (p, store) =
    (record p { error = or_text m "Failed to submit vote."; submitting = false }, store)
