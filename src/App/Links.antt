-- ===== src/App/Links.antt =====
-- The buttons of frontend/src/components/Navbar.jsx and frontend/src/pages/Home.jsx, and the pages that
-- they lead to in frontend/src/App.jsx.
use poll.Prelude.{
  String, ◌≡◌, refl, sym, Bool, true, false, Option, none, some, List, [], ◌∷◌, ◌==◌, if◌then◌else◌,
  All, truthy, Bool-cases, inl, inr,
}
use mathlib.Core.List.{◌++◌}
use mathlib.Core.Path.{subst}
use poll.Models.{User}
use poll.Auth.Session.{Session, logout, is_authenticated}
use poll.App.Router.{
  App, Main, home, login, register, dashboard, create_poll, navigate, nav_logout, main_content,
  view_content, handle_join_poll,
}

-- what a click does: `navigate` to a view, or the handler of `Logout`
pub data Click : Type 0 where
  goes : (view : String) → Click
  logs_out : Click

-- `is_active` is the class `active` of a link of the bar.
pub record Button : Type 0 where
  pub label : String
  pub is_active : Bool
  pub click : Click

abbrev pub button : (label view : String) → Button
button label view = record { label = label; is_active = false; click = goes view }

abbrev pub link : (current_view label view : String) → Button
link current_view label view = record {
  label = label;
  is_active = current_view == view;
  click = goes view;
}

-- the buttons of the bar; the logo goes where the first of them goes
unfoldable pub nav_buttons : (authenticated : Bool) → (current_view : String) → List Button
nav_buttons true current_view =
    link current_view "Home" "home"
    ∷ link current_view "My Polls" "dashboard"
    ∷ button "Create Poll" "create"
    ∷ record { label = "Logout"; is_active = false; click = logs_out }
    ∷ []
nav_buttons false current_view =
    link current_view "Home" "home" ∷ button "Sign In" "login" ∷ button "Sign Up" "register" ∷ []

-- the user name that the bar shows
abbrev pub shown_name : Option User → Option String
shown_name none = none
shown_name (some u) = some u.username

-- `Navbar`
abbrev pub nav_bar : Session → App → List Button × Option String
nav_bar s a = (nav_buttons (is_authenticated s) a.current_view, shown_name s.user)

-- the buttons of the home page
unfoldable pub home_buttons : (authenticated : Bool) → List Button
home_buttons authenticated =
    button "Create a Live Poll" (if authenticated then "create" else "login")
    ∷ (if authenticated
        then button "Go to My Polls" "dashboard"
        else button "Sign Up Free" "register")
    ∷ []

-- the form of the home page: the code that is typed, and the error below it
pub record JoinForm : Type 0 where
  pub poll_code : String
  pub code_error : String

unfoldable pub type_code : String → JoinForm → JoinForm
type_code text f = record { poll_code = text; code_error = "" }

unfoldable pub join : JoinForm → App → JoinForm × App
unfolding handle_join_poll
join f a =
    let (a', error) = handle_join_poll f.poll_code a in
    (if truthy error then record f { code_error = error } else f, a')

unfoldable pub press : Click → Session × App → Session × App
unfolding nav_logout
press (goes view) (s, a) = (s, navigate view none a)
press logs_out page = nav_logout page

-- What a label promises.
abbrev pub page_named : (authenticated : Bool) → (label : String) → Main
page_named authenticated label =
    if label == "My Polls"
    then dashboard
    else if label == "Go to My Polls"
    then dashboard
    else if label == "Create Poll"
    then create_poll
    else if label == "Create a Live Poll"
    then (if authenticated then create_poll else login)
    else if label == "Sign In"
    then login
    else if label == "Sign Up"
    then register
    else if label == "Sign Up Free"
    then register
    else home

-- A button leads where its label says.
abbrev pub IsTrueTo : Session → App → Button → Type 0
IsTrueTo s a b =
    let (s', a') = press b.click (s, a) in
    main_content s' a' ≡ page_named (is_authenticated s) b.label

module _ (s : Session) (a : App) where
  leads :
      (label view : String) (active : Bool)
      → s.loading ≡ false
      → view_content (is_authenticated s) none view ≡ page_named (is_authenticated s) label
      → IsTrueTo s a (record { label = label; is_active = active; click = goes view })
  unfolding press main_content navigate
  leads label view active loaded e = rw loaded e

  leaves :
      s.loading ≡ false
      → IsTrueTo s a (record { label = "Logout"; is_active = false; click = logs_out })
  unfolding press main_content navigate logout view_content nav_logout
  leaves loaded = rw loaded refl

  signed_in_buttons :
      s.loading ≡ false
      → is_authenticated s ≡ true
      → All (IsTrueTo s a) (nav_buttons true a.current_view ++ home_buttons true)
  unfolding nav_buttons home_buttons view_content
  signed_in_buttons loaded h = (
    leads "Home" "home" (a.current_view == "home") loaded (at "Home" "home" refl),
    (
      leads "My Polls" "dashboard" (a.current_view == "dashboard") loaded
          (at "My Polls" "dashboard" refl),
      (
        leads "Create Poll" "create" false loaded (at "Create Poll" "create" refl),
        (
          leaves loaded,
          (
            leads "Create a Live Poll" "create" false loaded
                (at "Create a Live Poll" "create" refl),
            (
              leads "Go to My Polls" "dashboard" false loaded
                  (at "Go to My Polls" "dashboard" refl),
              tt,
            ),
          ),
        ),
      ),
    ),
  )
    where
      at :
          (label view : String)
          → view_content true none view ≡ page_named true label
          → view_content (is_authenticated s) none view ≡ page_named (is_authenticated s) label
      at label view e = subst (λ b. view_content b none view ≡ page_named b label) (sym h) e

  signed_out_buttons :
      s.loading ≡ false
      → is_authenticated s ≡ false
      → All (IsTrueTo s a) (nav_buttons false a.current_view ++ home_buttons false)
  unfolding nav_buttons home_buttons view_content
  signed_out_buttons loaded h = (
    leads "Home" "home" (a.current_view == "home") loaded (at "Home" "home" refl),
    (
      leads "Sign In" "login" false loaded (at "Sign In" "login" refl),
      (
        leads "Sign Up" "register" false loaded (at "Sign Up" "register" refl),
        (
          leads "Create a Live Poll" "login" false loaded (at "Create a Live Poll" "login" refl),
          (leads "Sign Up Free" "register" false loaded (at "Sign Up Free" "register" refl), tt),
        ),
      ),
    ),
  )
    where
      at :
          (label view : String)
          → view_content false none view ≡ page_named false label
          → view_content (is_authenticated s) none view ≡ page_named (is_authenticated s) label
      at label view e = subst (λ b. view_content b none view ≡ page_named b label) (sym h) e

  -- Each button of the bar and of the home page leads to the page that its label names, for whoever
  -- sees the button: nobody is sent to the form to sign in by a button that names another page, except
  -- by `Create a Live Poll`. The session is checked.
  pub buttons_lead :
      s.loading ≡ false → All (IsTrueTo s a) ((nav_bar s a).0 ++ home_buttons (is_authenticated s))
  buttons_lead loaded = elim (Bool-cases (is_authenticated s)) [
    | inl h ↦
        subst (λ b. All (IsTrueTo s a) (nav_buttons b a.current_view ++ home_buttons b)) (sym h)
          (signed_in_buttons loaded h)
    | inr h ↦
        subst (λ b. All (IsTrueTo s a) (nav_buttons b a.current_view ++ home_buttons b)) (sym h)
          (signed_out_buttons loaded h)
  ]
