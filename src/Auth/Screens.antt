-- ===== src/Auth/Screens.antt =====
-- What the pages frontend/src/pages/Login.jsx and frontend/src/pages/Register.jsx show while a call goes
-- out and after its answer.
use poll.Prelude.{
  String, ◌≡◌, refl, true, false, not, ◌||◌, Option, none, some, is_some, is_empty, ltb,
  utf16_length, or_text-truthy, if◌then◌else◌, inl, inr, Bool-cases,
}
use poll.Models.{User}
use poll.Api.Request.{Call, Result, ok, err}
use poll.Voting.Casting.{is_ok}
use poll.Auth.Forms.{
  Form, Screen, submit_login, submit_register, login_settled, register_settled, render_login,
  render_register,
}

-- The button is disabled exactly if a call goes out, and an alert is shown exactly if none does.
abbrev pub IsSent : (Form → Screen) → Form × Option Call → Type 0
IsSent render (f, call) =
    ((render f).is_disabled ≡ is_some call) × (is_some (render f).alert ≡ not (is_some call))

-- The button is enabled; an alert is shown exactly if the answer is an error, and otherwise the page
-- goes to the dashboard.
abbrev pub IsSettled : (Form → Screen) → Result User → Form × Option String → Type 0
IsSettled render answer (f, view) =
    ((render f).is_disabled ≡ false)
    × (is_some (render f).alert ≡ not (is_ok answer))
    × (view ≡ (if is_ok answer then some "dashboard" else none))

-- the form while its call is out
abbrev pub waiting : Form → Form
waiting f = record f { loading = true; error = "" }

login-IsSent : (f : Form) → f.loading ≡ false → IsSent render_login (submit_login f)
unfolding render_login submit_login
login-IsSent f h = elim (Bool-cases (is_empty f.email || is_empty f.password)) [
  | inl missing ↦ rw missing (h, refl)
  | inr filled ↦ rw filled (refl, refl)
]

register-IsSent : (f : Form) → f.loading ≡ false → IsSent render_register (submit_register f)
unfolding render_register submit_register
register-IsSent f h =
    elim (Bool-cases (is_empty f.username || is_empty f.email || is_empty f.password)) [
      | inl missing ↦ rw missing (h, refl)
      | inr filled ↦ elim (Bool-cases (ltb (utf16_length f.password) 6)) [
        | inl short ↦ rw (filled, short) (h, refl)
        | inr long ↦ rw (filled, long) (refl, refl)
      ]
    ]

login-IsSettled :
    (f : Form) (answer : Result User)
    → IsSettled render_login answer (login_settled answer (waiting f))
unfolding render_login login_settled
login-IsSettled f (ok u) = (refl, refl, refl)
login-IsSettled f (err m) =
    (refl, rw (or_text-truthy m "Login failed. Please check your credentials." refl) refl, refl)

register-IsSettled :
    (f : Form) (answer : Result User)
    → IsSettled render_register answer (register_settled answer (waiting f))
unfolding render_register register_settled
register-IsSettled f (ok u) = (refl, refl, refl)
register-IsSettled f (err m) =
    (refl, rw (or_text-truthy m "Registration failed. Please try again." refl) refl, refl)

-- Both forms wait for their calls: from a form that does not wait, the button is disabled exactly if a
-- call goes out, and an alert is shown exactly if none does; after the answer the button is enabled
-- again, an alert is shown exactly if the answer is an error, and otherwise the page goes to the
-- dashboard.
pub forms_wait :
    (f : Form) (answer : Result User)
    → f.loading ≡ false
    → IsSent render_login (submit_login f)
      × IsSent render_register (submit_register f)
      × IsSettled render_login answer (login_settled answer (waiting f))
      × IsSettled render_register answer (register_settled answer (waiting f))
forms_wait f answer h =
    (login-IsSent f h, register-IsSent f h, login-IsSettled f answer, register-IsSettled f answer)
