-- ===== src/Results/Tests.antt =====
-- The theorems on frontend/src/pages/ResultsPage.jsx at an input.
use poll.Prelude.{ℕ, String, ◌≡◌, ◌≤◌, ◌<◌, ◌↔◌, refl, true, some, [], ◌∷◌, All, arith}
use poll.Models.{PollOption, LivePollResult}
use poll.Results.{max_votes, is_leader}
use poll.Results.Leader.{leader_iff}

abbrev option : String → ℕ → PollOption
option id votes = record {
  id = id;
  text = id;
  votes = votes;
  percentage = record { numerator = votes; denominator = 1 };
}

abbrev live : LivePollResult
live = record {
  poll_id = "7";
  title = "Drinks";
  is_active = true;
  total_votes = 5;
  options = option "a" 2 ∷ option "b" 3 ∷ [];
}

leader_iff_example :
    (is_leader (max_votes (some live)) (option "b" 3) ≡ true)
    ↔ ((0 < 3) × All (λ (q : PollOption). q.votes ≤ 3) live.options)
leader_iff_example = leader_iff live 1 (option "b" 3) (omega arith) refl
