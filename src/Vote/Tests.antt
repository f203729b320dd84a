-- ===== src/Vote/Tests.antt =====
-- The theorems on frontend/src/pages/VotePage.jsx at an input.
use poll.Prelude.{◌≡◌, refl, true, none, some, [], ◌∷◌, List}
use poll.Models.{Poll, PollOption}
use poll.Api.Request.{ok, err}
use poll.Vote.State.{Ballot, Page, start, vote_settled, chosen_text}
use poll.Vote.Screen.{Screen, thanks, body_of, render}
use poll.Vote.Rendering.{Event, entered, poll_settled, picked, submitted, run, always_renders}
use poll.Vote.Memory.{visit, voted_then_visit}

abbrev tea : PollOption
tea = record {
  id = "o1";
  text = "Tea";
  votes = 0;
  percentage = record { numerator = 0; denominator = 1 };
}

abbrev drinks : Poll
drinks = record {
  id = "7";
  title = "Drinks";
  description = "";
  creator_id = "u1";
  options = tea ∷ [];
  is_active = true;
  total_votes = 0;
}

abbrev ballot : Ballot
ballot = record { poll_id = some "7"; poll = drinks; selected = "o1" }

abbrev events : List Event
events = entered (some "7") ∷ poll_settled (err "") ∷ picked "o1" ∷ submitted (some "7") ∷ []

always_renders_example : (s : Screen) × (render (run events (start, [])).0 ≡ some s)
always_renders_example = always_renders events []

abbrev idle : List Event
idle = entered none ∷ picked "o1" ∷ submitted none ∷ []

voted_then_visit_example :
    body_of (visit "7" drinks (vote_settled (ok tt) ballot (start, [])).1 start) drinks
    ≡ thanks (chosen_text ballot)
unfolding chosen_text
voted_then_visit_example = voted_then_visit "7" ballot drinks start [] refl refl refl

abbrev voted : Page
voted = record start { has_voted = true; voted_option_text = "Coffee" }
