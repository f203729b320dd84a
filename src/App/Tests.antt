-- ===== src/App/Tests.antt =====
-- The theorems on frontend/src/App.jsx and frontend/src/components/ShareModal.jsx at an input.
use poll.Prelude.{◌++◌, All, truthy, true, false, ◌≡◌, ◌≢◌, refl, none, some, [], ◌∷◌}
use poll.Auth.Session.{Session, start}
use poll.App.Router.{App, main_content, dashboard, create_poll}
use poll.App.Laws.{never_unprotected}
use poll.App.Share.{opened, parse_query, vote_query, copied, written, timed_out}
use poll.App.Dialogue.{dialogue, share_modal, copy_link, OpensPage, dialogue_leads}
use poll.App.Pages.{KeepsPromise, vote_bar, dashboard_bar, poll_bar, poll_buttons_lead}
use poll.Models.{Poll}

abbrev app : App
app = record {
  current_view = "dashboard";
  active_poll_id = none;
  query = ("view", "dashboard") ∷ [];
  behind = [];
}

abbrev anonymous : Session
unfolding start
anonymous = start []

never_unprotected_example :
    (main_content anonymous app ≢ dashboard) × (main_content anonymous app ≢ create_poll)
unfolding anonymous
never_unprotected_example = never_unprotected anonymous app refl

abbrev member : Session
member = record {
  user = some (record { id = "u1"; username = "ada"; email = "a@h" });
  token = some "tok";
  loading = false;
  store = [];
}

dialogue_leads_example :
    let d = dialogue "https://p" "abc" "Tea?" false in
    let (now, mark) = copy_link written d "" false in
    (share_modal true "https://p" "abc" "Tea?" false ≡ some d)
    × (truthy d.caption ≡ true)
    × (d.qr_value ≡ "https://p" ++ ("/" ++ vote_query "abc"))
    × (opened (parse_query (λ s. s) (vote_query "abc")) app ≡ ("vote", some "abc"))
    × (now ≡ d.qr_value)
    × ((dialogue "https://p" "abc" "Tea?" mark).copy_label ≡ "Copied")
    × ((dialogue "https://p" "abc" "Tea?" (copied timed_out mark)).copy_label ≡ "Copy")
    × All (OpensPage member "abc" (λ a. a) app) d.buttons
dialogue_leads_example =
    dialogue_leads (λ s. s) "https://p" "abc" "Tea?" "" false member app (λ a. a) refl (λ s h. refl)
      refl refl

abbrev tea : Poll
tea = record {
  id = "7";
  title = "Tea?";
  description = "";
  creator_id = "u1";
  options = [];
  is_active = true;
  total_votes = 0;
}

poll_buttons_lead_example :
    All (KeepsPromise member app "7" "Tea?") (vote_bar "7" "Tea?")
    × All (KeepsPromise member app "7" "Tea?") dashboard_bar
    × All (KeepsPromise member app "7" "Tea?") (poll_bar tea)
poll_buttons_lead_example = poll_buttons_lead member app tea refl refl
