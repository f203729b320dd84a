-- ===== src/Auth/Tests.antt =====
-- The theorems on the session (frontend/src/context/AuthContext.jsx) and on the form for an account
-- (frontend/src/pages/Register.jsx) at an input.
use poll.Prelude.{◌≡◌, false, [], ◌∷◌, List}
use poll.Models.{User, AuthResponse}
use poll.Api.Storage.{Storage, get_item}
use poll.Api.Request.{ok, err}
use poll.Auth.Session.{Session, start, Event, effect, me, answered}
use poll.Auth.Laws.{run, token_stored}
use poll.Auth.Forms.{Form}

abbrev ada : User
ada = record { id = "u1"; username = "ada"; email = "ada@example.org" }

abbrev signed : AuthResponse
signed = record { token = "tok"; user = ada }

abbrev store : Storage
store = ("auth_token", "old") ∷ []

abbrev session : Session
unfolding start get_item
session = start store

abbrev script : List Event
script = effect ∷ me (err "expired") ∷ answered (ok signed) ∷ effect ∷ []

token_stored_example :
    ((run script (start store)).token ≡ get_item "auth_token" (run script (start store)).store)
    × ((start (run script (start store)).store).token ≡ (run script (start store)).token)
token_stored_example = token_stored script store

abbrev form : Form
form = record {
  username = "ada";
  email = "ada@example.org";
  password = "secret";
  error = "";
  loading = false;
}
