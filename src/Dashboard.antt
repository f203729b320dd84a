-- ===== src/Dashboard.antt =====
-- frontend/src/pages/Dashboard.jsx: the list of the user's polls, its handlers, and what it renders.
pub mod Tests
pub mod Updates
use poll.Prelude.{
  ℕ, String, ◌++◌, Bool, true, false, not, Option, none, some, List, [], ◌∷◌, map, ◌==◌, eqb, ltb,
  if◌then◌else◌, keep_if, truthy, or_text, is_some,
}
use poll.Models.{Number, Poll, PollOption}
use poll.Api.Request.{Call, list_my_polls, set_poll_status, delete_poll, Result, ok, err}
use poll.Results.{to_fixed1}

pub record Page : Type 0 where
  pub polls : List Poll
  pub loading : Bool
  pub error : String
  pub share_poll : Option Poll

abbrev pub start : Page
start = record { polls = []; loading = true; error = ""; share_poll = none }

-- `fetchPolls` up to its wait
unfoldable pub fetch_polls : Page → Page × Call
fetch_polls p = (record p { loading = true; error = "" }, list_my_polls)

-- The rest of `fetchPolls`. An answer `null` is `none`: `data || []`.
unfoldable pub polls_fetched : Result (Option (List Poll)) → Page → Page
polls_fetched (ok none) p = record p { polls = []; loading = false }
polls_fetched (ok (some polls)) p = record p { polls = polls; loading = false }
polls_fetched (err m) p = record p {
  error = or_text m "Failed to load your polls.";
  loading = false;
}

-- `handleToggleStatus` up to its wait
unfoldable pub handle_toggle_status : (poll_id : String) → (current : Bool) → Call
handle_toggle_status poll_id current = set_poll_status poll_id (not current)

-- `p.id === pollId ? { ...p, isActive: b } : p`
unfoldable pub with_status : String → Bool → Poll → Poll
with_status poll_id b p = if p.id == poll_id then record p { is_active = b } else p

-- The rest of `handleToggleStatus`: the page, and the text of an alert.
unfoldable pub toggle_settled : (poll_id : String) → Result Poll → Page → Page × Option String
toggle_settled poll_id (ok updated) p =
    (record p { polls = map (with_status poll_id updated.is_active) p.polls }, none)
toggle_settled poll_id (err m) p = (p, some ("Error updating status: " ++ m))

-- `handleDelete` up to its wait; `confirmed` is the user's answer.
unfoldable pub handle_delete : (confirmed : Bool) → (poll_id : String) → Option Call
handle_delete confirmed poll_id = if confirmed then some (delete_poll poll_id) else none

-- `p.id !== pollId`
unfoldable pub is_other : String → Poll → Bool
is_other poll_id p = not (p.id == poll_id)

-- The rest of `handleDelete`: the page, and the text of an alert.
unfoldable pub delete_settled :
    {A : Type 0} → (poll_id : String) → Result A → Page → Page × Option String
delete_settled poll_id (ok _) p = (record p { polls = keep_if (is_other poll_id) p.polls }, none)
delete_settled poll_id (err m) p = (p, some ("Error deleting poll: " ++ m))

-- one line of the summary of a poll: its text, the votes and the percentage
pub record Line : Type 0 where
  pub id : String
  pub text : String
  pub votes : ℕ
  pub percent : String

pub record Card : Type 0 where
  pub badge : String
  pub votes : ℕ
  pub votes_word : String
  pub title : String
  pub description : Option String
  pub toggle_label : String
  pub lines : List Line
  pub poll_id : String

pub data Screen : Type 0 where
  loading_polls : Screen
  no_polls : Screen
  cards : List Card → Screen

-- `percent votes total` is `(votes / total) * 100`, in double precision.
module _ (percent : ℕ → ℕ → Number) where
  unfoldable pub line : (total : ℕ) → PollOption → Line
  line total o = record {
    id = o.id;
    text = o.text;
    votes = o.votes;
    percent = if ltb 0 total then to_fixed1 (percent o.votes total) else "0";
  }

  unfoldable pub card : Poll → Card
  unfolding line
  card p = record {
    badge = if p.is_active then "● Live" else "Closed";
    votes = p.total_votes;
    votes_word = if eqb p.total_votes 1 then "vote" else "votes";
    title = p.title;
    description = if truthy p.description then some p.description else none;
    toggle_label = if p.is_active then "Close Poll" else "Reopen Poll";
    lines = map (line p.total_votes) p.options;
    poll_id = p.id;
  }

  -- the alert above the list, the list, and the poll of the share dialogue
  unfoldable pub render : Page → Option String × Screen × Option (String × String)
  unfolding card
  render p = (
    if truthy p.error then some p.error else none,
    if p.loading
        then loading_polls
        else elim p.polls [ [] ↦ no_polls | x ∷ r ↦ cards (map card (x ∷ r)) ],
    elim p.share_poll [ none ↦ none | some s ↦ some (s.id, s.title) ],
  )
