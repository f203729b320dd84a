-- ===== src/Dashboard/Tests.antt =====
-- The theorems on frontend/src/pages/Dashboard.jsx at an input.
use poll.Prelude.{String, true, false, [], ◌∷◌, Bool}
use poll.Models.{Poll}
use poll.Dashboard.{Page, start}

abbrev poll_with : String → Bool → Poll
poll_with id b = record {
  id = id;
  title = "t";
  description = "";
  creator_id = "u1";
  options = [];
  is_active = b;
  total_votes = 0;
}

abbrev page : Page
page = record start { polls = poll_with "a" true ∷ poll_with "b" true ∷ [] }

abbrev closed : String → Poll
closed id = poll_with id false
