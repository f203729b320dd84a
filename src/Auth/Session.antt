-- ===== src/Auth/Session.antt =====
-- The state of frontend/src/context/AuthContext.jsx with the browser's storage, and its operations.
use poll.Prelude.{String, Bool, true, false, Option, none, some, truthy, is_some, if◌then◌else◌}
use poll.Models.{User, AuthResponse}
use poll.Api.Storage.{Storage, get_item, set_item, remove_item}
use poll.Api.Request.{Result, ok, err}

pub record Session : Type 0 where
  pub user : Option User
  pub token : Option String
  pub loading : Bool
  pub store : Storage

-- the first render
unfoldable pub start : Storage → Session
start store = record {
  user = none;
  token = get_item "auth_token" store;
  loading = true;
  store = store;
}

-- a token as a condition: `null` and the empty text are false
abbrev pub has_token : Option String → Bool
has_token none = false
has_token (some t) = truthy t

-- `checkAuth` up to its wait: whether `api.getMe` is called
unfoldable pub check_auth : Session → Session × Bool
check_auth s = if has_token s.token then (s, true) else (record s { loading = false }, false)

unfoldable pub logout : Session → Session
logout s = record s { user = none; token = none; store = remove_item "auth_token" s.store }

-- the rest of `checkAuth`
unfoldable pub auth_checked : Result User → Session → Session
unfolding logout
auth_checked (ok u) s = record s { user = some u; loading = false }
auth_checked (err m) s = record (logout s) { loading = false }

-- The rest of `login` and of `register`: both do the same with the answer. An error is thrown on to
-- the form.
unfoldable pub signed_in : Result AuthResponse → Session → Session × Result User
signed_in (ok d) s = (
  record s {
    user = some d.user;
    token = some d.token;
    store = set_item "auth_token" d.token s.store;
  },
  ok d.user,
)
signed_in (err m) s = (s, err m)

abbrev pub is_authenticated : Session → Bool
is_authenticated s = is_some s.user

-- What may happen; the effect runs again after each change of the token.
pub data Event : Type 0 where
  effect : Event
  me : Result User → Event
  answered : Result AuthResponse → Event
  logs_out : Event

unfoldable pub step : Event → Session → Session
unfolding check_auth auth_checked signed_in logout
step effect s = (check_auth s).0
step (me r) s = auth_checked r s
step (answered r) s = (signed_in r s).0
step logs_out s = logout s
