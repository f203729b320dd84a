-- ===== src/App/Pages.antt =====
-- What frontend/src/pages/Home.jsx and the frame of frontend/src/App.jsx show, and the buttons of
-- frontend/src/pages/VotePage.jsx and frontend/src/pages/Dashboard.jsx that lead to other pages.
use poll.Prelude.{
  String, ◌≡◌, refl, Bool, true, false, Option, none, some, List, [], ◌∷◌, All, truthy, trim,
  is_empty, ◌==◌, if◌then◌else◌, ◌⊎◌, inl, inr, Bool-cases,
}
use poll.Models.{Poll}
use poll.Auth.Session.{Session, is_authenticated}
use poll.App.Router.{
  App, Main, home, vote, results, create_poll, navigate, main_content, view_content,
  handle_join_poll,
}
use poll.App.Links.{Button, home_buttons, nav_bar, JoinForm, join}

pub record Card : Type 0 where
  pub heading : String
  pub text : String

abbrev pub card : (heading text : String) → Card
card heading text = record { heading = heading; text = text }

-- `Home`: `error` is below the form, `code` in it.
pub record HomePage : Type 0 where
  pub badge : String
  pub heading : String
  pub lead : String
  pub buttons : List Button
  pub join_heading : String
  pub join_hint : String
  pub placeholder : String
  pub code : String
  pub submit_label : String
  pub error : Option String
  pub cards : List Card

abbrev pub highlights : List Card
highlights =
    card "Instant Live Updates"
      "Redis Pub/Sub powers sub-millisecond broadcasts through WebSockets. No page reloads needed."
    ∷ card "Double-Vote Protection"
        "In-memory Redis sets and backend fingerprint verification prevent participants from voting twice."
    ∷ card "Presentation View"
        "Clean, high-contrast visual display with shareable QR codes, ready for meetings and live events."
    ∷ []

unfoldable pub render_home : (authenticated : Bool) → JoinForm → HomePage
render_home authenticated f = record {
  badge = "Powered by Go, Redis & WebSockets";
  heading = "Live Audience Polling with Zero Refresh";
  lead =
      "Create interactive polls in seconds. Share the link with your audience, and watch votes update live as they arrive.";
  buttons = home_buttons authenticated;
  join_heading = "Have a Poll ID or Code?";
  join_hint = "Enter a poll identifier to jump straight to voting or viewing results";
  placeholder = "e.g. 66ebcd8f...";
  code = f.poll_code;
  submit_label = "Join";
  error = if truthy f.code_error then some f.code_error else none;
  cards = highlights;
}

-- `AppContent`: the text while the session is checked, or the bar, the page and the footer
pub data Shell : Type 0 where
  loading_shell : (text : String) → Shell
  frame : (bar : List Button × Option String) (main : Main) (footer : List String) → Shell

abbrev pub footer_texts : List String
footer_texts =
    "LivePoll — Built with React, Go (Gin), MongoDB & Redis"
    ∷ "HCL • GUVI Developer Internship Project" ∷ []

unfoldable pub app_content : Session → App → Shell
app_content s a =
    if s.loading
    then loading_shell "Loading application..."
    else frame (nav_bar s a) (main_content s a) footer_texts

-- what a button of a page does: `navigate`, or the dialogue of a poll
pub data Act : Type 0 where
  opens : (view : String) (poll_id : Option String) → Act
  shares : (poll_id title : String) → Act

pub record PollButton : Type 0 where
  pub label : String
  pub act : Act

abbrev pub poll_button : String → Act → PollButton
poll_button label act = record { label = label; act = act }

-- above the card of the page for votes
unfoldable pub vote_bar : (poll_id title : String) → List PollButton
vote_bar poll_id title =
    poll_button "Home" (opens "home" none)
    ∷ poll_button "Share" (shares poll_id title)
    ∷ poll_button "Live Results" (opens "results" (some poll_id))
    ∷ []

-- above the list of the dashboard, and below each poll of it
abbrev pub dashboard_bar : List PollButton
dashboard_bar = poll_button "Create New Poll" (opens "create" none) ∷ []

unfoldable pub poll_bar : Poll → List PollButton
poll_bar p =
    poll_button "Share & QR" (shares p.id p.title)
    ∷ poll_button "Vote Page" (opens "vote" (some p.id))
    ∷ poll_button "Live Results" (opens "results" (some p.id))
    ∷ []

-- where one is after a click
pub data Place : Type 0 where
  page : Main → Place
  share_dialogue : (poll_id title : String) → Place

abbrev pub follow : Session → App → Act → Place
follow s a (opens view poll_id) = page (main_content s (navigate view poll_id a))
follow s a (shares poll_id title) = share_dialogue poll_id title

-- What a label promises for a poll.
abbrev pub promised : (label poll_id title : String) → Place
promised label poll_id title =
    if label == "Home"
    then page home
    else if label == "Create New Poll"
    then page create_poll
    else if label == "Vote Page"
    then page (vote (some poll_id))
    else if label == "Live Results"
    then page (results (some poll_id))
    else share_dialogue poll_id title

abbrev pub KeepsPromise : Session → App → (poll_id title : String) → PollButton → Type 0
KeepsPromise s a poll_id title b = follow s a b.act ≡ promised b.label poll_id title

module _ (s : Session) (a : App) (p : Poll) where
  -- The buttons of the page for votes and of the dashboard lead where their labels say, to the pages
  -- and the dialogue of the poll that they stand at. The session is checked; who sees the dashboard is
  -- signed in.
  pub poll_buttons_lead :
      s.loading ≡ false
      → is_authenticated s ≡ true
      → All (KeepsPromise s a p.id p.title) (vote_bar p.id p.title)
        × All (KeepsPromise s a p.id p.title) dashboard_bar
        × All (KeepsPromise s a p.id p.title) (poll_bar p)
  unfolding vote_bar poll_bar main_content view_content navigate
  poll_buttons_lead loaded known =
      rw (loaded, known) ((refl, (refl, (refl, tt))), (refl, tt), (refl, (refl, (refl, tt))))

-- The form of the home page opens the page for votes of the poll whose code is typed, without the
-- blanks around it, for whoever is there; where nothing but blanks is typed, the page stays and shows
-- an error. The session is checked.
pub home_joins :
    (s : Session) (a : App) (f : JoinForm)
    → s.loading ≡ false
    → let (f', a') = join f a in
      ((is_empty (trim f.poll_code) ≡ false) × (main_content s a' ≡ vote (some (trim f.poll_code))))
      ⊎ ((is_empty (trim f.poll_code) ≡ true)
          × (a' ≡ a)
          × ((render_home (is_authenticated s) f').error ≡ some "Please enter a valid Poll ID"))
unfolding join handle_join_poll main_content view_content navigate render_home
home_joins s a f loaded = elim (Bool-cases (is_empty (trim f.poll_code))) [
  | inl e ↦ rw e (inr (refl, refl, refl))
  | inr e ↦ rw e (rw loaded (inl (refl, refl)))
]
