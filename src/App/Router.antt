-- ===== src/App/Router.antt =====
-- The views of frontend/src/App.jsx, `navigate` and `syncStateFromURL`, and the actions of
-- frontend/src/components/Navbar.jsx and frontend/src/pages/Home.jsx that go from one to another.
use poll.Prelude.{
  String, Bool, Option, none, some, List, [], ◌∷◌, ◌==◌, if◌then◌else◌, truthy, or_text, is_empty,
  trim,
}
use poll.Auth.Session.{Session, logout, is_authenticated}
use poll.App.Params.{Params, get_param, set_param, delete_param}

-- The state of `AppContent`, the query of the address, and those that the back button leads to.
pub record App : Type 0 where
  pub current_view : String
  pub active_poll_id : Option String
  pub query : Params
  pub behind : List Params

-- `params.get(…) || 'home'`
abbrev pub view_of : Option String → String
view_of none = "home"
view_of (some v) = or_text v "home"

-- a value as a condition: `null` and the empty text are false
abbrev pub given : Option String → Option String
given none = none
given (some id) = if truthy id then some id else none

unfoldable pub sync_state_from_url : App → App
sync_state_from_url a = record a {
  current_view = view_of (get_param "view" a.query);
  active_poll_id = given (get_param "id" a.query);
}

abbrev pub set_id : Option String → Params → Params
set_id none q = delete_param "id" q
set_id (some id) q = set_param "id" id q

unfoldable pub navigate : String → Option String → App → App
navigate view poll_id a = record {
  current_view = view;
  active_poll_id = poll_id;
  query = set_id (given poll_id) (set_param "view" view a.query);
  behind = a.query ∷ a.behind;
}

-- the back button: the address before, and the event `popstate`
unfoldable pub back : App → App
unfolding sync_state_from_url
back a = elim a.behind [ [] ↦ a | q ∷ r ↦ sync_state_from_url (record a { query = q; behind = r }) ]

-- what stands in `<main>`
pub data Main : Type 0 where
  loading_application home login register dashboard create_poll nothing : Main
  vote results : (poll_id : Option String) → Main

abbrev protect : Bool → Main → Main
protect authenticated m = if authenticated then m else login

unfoldable pub view_content : (authenticated : Bool) → Option String → (view : String) → Main
view_content authenticated poll_id view =
    if view == "home"
    then home
    else if view == "login"
    then login
    else if view == "register"
    then register
    else if view == "dashboard"
    then protect authenticated dashboard
    else if view == "create"
    then protect authenticated create_poll
    else if view == "vote"
    then vote poll_id
    else if view == "results"
    then results poll_id
    else nothing

unfoldable pub main_content : Session → App → Main
main_content s a =
    if s.loading
    then loading_application
    else view_content (is_authenticated s) a.active_poll_id a.current_view

-- the button `Logout` of the navigation bar
unfoldable pub nav_logout : Session × App → Session × App
nav_logout (s, a) = (logout s, navigate "home" none a)

-- `handleJoinPoll` of the home page: the view it goes to, or the error that it shows
unfoldable pub handle_join_poll : (poll_code : String) → App → App × String
handle_join_poll poll_code a =
    let trimmed = trim poll_code in
    if is_empty trimmed
    then (a, "Please enter a valid Poll ID")
    else (navigate "vote" (some trimmed) a, "")
