-- ===== src/Auth/Forms.antt =====
-- The forms of frontend/src/pages/Login.jsx and frontend/src/pages/Register.jsx.
use poll.Prelude.{
  ◌≤◌, String, ◌≡◌, Bool, true, false, ◌||◌, not, ◌↔◌, is_some, Option, none, some, List, [], ◌∷◌,
  arith, truthy, is_empty, ltb, utf16_length, if◌then◌else◌, or_text, inl, inr, Bool-cases,
}
use poll.Models.{User}
use poll.Api.Request.{Call, login, register, Result, ok, err}

pub record Form : Type 0 where
  pub username : String
  pub email : String
  pub password : String
  pub error : String
  pub loading : Bool

-- `handleSubmit` of the login page up to its wait; it has no user name.
unfoldable pub submit_login : Form → Form × Option Call
submit_login f =
    if is_empty f.email || is_empty f.password
    then (record f { error = "Please fill in both email and password." }, none)
    else (record f { loading = true; error = "" }, some (login f.email f.password))

-- `handleSubmit` of the page for a new account up to its wait
unfoldable pub submit_register : Form → Form × Option Call
submit_register f =
    if is_empty f.username || is_empty f.email || is_empty f.password
    then (record f { error = "Please fill in all fields." }, none)
    else if ltb (utf16_length f.password) 6
    then (record f { error = "Password must be at least 6 characters long." }, none)
    else (record f { loading = true; error = "" }, some (register f.username f.email f.password))

-- The rest of both: the form, and the view that the page goes to.
unfoldable pub login_settled : Result User → Form → Form × Option String
login_settled (ok u) f = (record f { loading = false }, some "dashboard")
login_settled (err m) f = (
  record f { error = or_text m "Login failed. Please check your credentials."; loading = false },
  none,
)

unfoldable pub register_settled : Result User → Form → Form × Option String
register_settled (ok u) f = (record f { loading = false }, some "dashboard")
register_settled (err m) f =
    (record f { error = or_text m "Registration failed. Please try again."; loading = false }, none)

-- The inputs' `onChange`: what is typed takes the place of a field.
abbrev pub set_username : String → Form → Form
set_username text f = record f { username = text }

abbrev pub set_email : String → Form → Form
set_email text f = record f { email = text }

abbrev pub set_password : String → Form → Form
set_password text f = record f { password = text }

-- What a page shows: the heading, the alert, the inputs with their labels, the button of the form with its label, and the button
-- that goes to the other page.
pub record Screen : Type 0 where
  pub heading : String
  pub alert : Option String
  pub inputs : List (String × String)
  pub submit_label : String
  pub is_disabled : Bool
  pub other_label : String
  pub other_view : String

abbrev pub alert_of : String → Option String
alert_of error = if truthy error then some error else none

unfoldable pub render_login : Form → Screen
render_login f = record {
  heading = "Sign In";
  alert = alert_of f.error;
  inputs = ("Email Address", f.email) ∷ ("Password", f.password) ∷ [];
  submit_label = if f.loading then "Signing In..." else "Sign In";
  is_disabled = f.loading;
  other_label = "Create account";
  other_view = "register";
}

unfoldable pub render_register : Form → Screen
render_register f = record {
  heading = "Create Account";
  alert = alert_of f.error;
  inputs =
      ("Username", f.username)
      ∷ ("Email Address", f.email)
      ∷ ("Password (min. 6 characters)", f.password)
      ∷ [];
  submit_label = if f.loading then "Creating Account..." else "Sign Up";
  is_disabled = f.loading;
  other_label = "Sign In";
  other_view = "login";
}

abbrev pub IsFilled : String → Type 0
IsFilled s = is_empty s ≡ false

-- what the page asks of a new account
abbrev pub IsComplete : Form → Type 0
IsComplete f =
    IsFilled f.username × IsFilled f.email × IsFilled f.password × (6 ≤ utf16_length f.password)

-- The form for a new account asks for the account exactly if no field is empty and the password
-- has 6 characters. It says why exactly if it does not ask, and the fields stay.
pub submit_register_iff :
    (f : Form)
    → (((submit_register f).1 ≡ some (register f.username f.email f.password)) ↔ IsComplete f)
      × (truthy (submit_register f).0.error ≡ not (is_some (submit_register f).1))
      × ((submit_register f).0.email ≡ f.email)
      × ((submit_register f).0.password ≡ f.password)
unfolding submit_register
submit_register_iff f = (
  (λ sends. ground arith, λ h. ground arith),
  elim (Bool-cases (is_empty f.username || is_empty f.email || is_empty f.password)) [
    | inl missing ↦ rw missing
    | inr filled ↦ elim (Bool-cases (ltb (utf16_length f.password) 6)) [
      | inl short ↦ rw (filled, short)
      | inr long ↦ rw (filled, long)
    ]
  ],
  ground arith,
  ground arith,
)
