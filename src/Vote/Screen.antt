-- ===== src/Vote/Screen.antt =====
-- What frontend/src/pages/VotePage.jsx renders, as data: the texts, the sections and the buttons.
use poll.Prelude.{
  ℕ, String, Bool, not, ◌&&◌, ◌||◌, Option, none, some, List, map, ◌==◌, eqb, if◌then◌else◌, truthy,
  is_some,
}
use poll.Models.{Poll, PollOption}
use poll.Vote.State.{Page}

-- one option of the form
pub record Row : Type 0 where
  pub id : String
  pub text : String
  pub selected : Bool

pub data Body : Type 0 where
  closed_notice : Body
  thanks : (voted_for : String) → Body
  voting_form : (rows : List Row) (submit_disabled : Bool) (submit_label : String) → Body

pub record Content : Type 0 where
  pub badge : String
  pub votes : ℕ
  pub votes_word : String
  pub title : String
  pub description : Option String
  pub error : Option String
  pub body : Body
  pub share_open : Bool

pub data Screen : Type 0 where
  loading_poll : Screen
  not_found : (message : String) → Screen
  content : Content → Screen

-- `{text && <p>…</p>}`
abbrev pub shown_if_any : String → Option String
shown_if_any s = if truthy s then some s else none

unfoldable pub row : String → PollOption → Row
row selected o = record { id = o.id; text = o.text; selected = selected == o.id }

-- the three states of the card
unfoldable pub body_of : Page → Poll → Body
body_of p poll =
    if not poll.is_active
    then closed_notice
    else if p.has_voted
    then thanks p.voted_option_text
    else voting_form (map (row p.selected_option) poll.options)
        (p.submitting || not (truthy p.selected_option))
        (if p.submitting then "Submitting Vote..." else "Submit My Vote")

unfoldable pub content_of : Page → Poll → Content
unfolding body_of row
content_of p poll = record {
  badge = if poll.is_active then "● Voting Active" else "Voting Closed";
  votes = poll.total_votes;
  votes_word = if eqb poll.total_votes 1 then "vote" else "votes";
  title = poll.title;
  description = shown_if_any poll.description;
  error = shown_if_any p.error;
  body = body_of p poll;
  share_open = p.share_modal_open;
}

-- The page, or `none` where it would read a property of a poll that is `null`.
unfoldable pub render : Page → Option Screen
unfolding content_of
render p =
    if p.loading
    then some loading_poll
    else if truthy p.error && not (is_some p.poll)
    then some (not_found p.error)
    else elim p.poll [ none ↦ none | some poll ↦ some (content (content_of p poll)) ]
