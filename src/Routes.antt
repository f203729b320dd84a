-- ===== src/Routes.antt =====
-- The routes of backend/cmd/server/main.go, behind backend/internal/middleware/cors_middleware.go and
-- auth_middleware.go. The router itself is a library: which route it finds is a parameter.
pub mod Paths
pub mod Reach
pub mod Guard
pub mod Cors
pub mod Tests
use Prim.Native.Char.{code}
use poll.Prelude.{
  ℕ, String, Bool, true, false, not, ◌&&◌, Option, none, some, List, [], ◌∷◌, ◌==◌, eqb,
  if◌then◌else◌, is_empty,
}
use poll.Api.Request.{Result, ok, err, Headers}
use poll.Accounts.{Libraries, Claims}
use poll.Accounts.Middleware.{auth_middleware}

-- the handlers
pub data Endpoint : Type 0 where
  health register login get_poll cast_vote get_live_results : Endpoint
  handle_web_socket me create_poll list_my_polls set_poll_status delete_poll : Endpoint

pub record Route : Type 0 where
  pub method : String
  pub path : String
  pub handler : Endpoint
  pub is_protected : Bool

abbrev pub public : (method path : String) → Endpoint → Route
public method path handler = record {
  method = method;
  path = path;
  handler = handler;
  is_protected = false;
}

abbrev pub protected : (method path : String) → Endpoint → Route
protected method path handler = record {
  method = method;
  path = path;
  handler = handler;
  is_protected = true;
}

-- The paths are those of the groups and of the routes in them, put together.
abbrev pub routes : List Route
routes =
    public "GET" "/api/health" health
    ∷ public "POST" "/api/auth/register" register
    ∷ public "POST" "/api/auth/login" login
    ∷ public "GET" "/api/polls/:id" get_poll
    ∷ public "POST" "/api/polls/:id/vote" cast_vote
    ∷ public "GET" "/api/polls/:id/results" get_live_results
    ∷ public "GET" "/api/polls/:id/ws" handle_web_socket
    ∷ protected "GET" "/api/auth/me" me
    ∷ protected "POST" "/api/polls" create_poll
    ∷ protected "GET" "/api/polls" list_my_polls
    ∷ protected "PATCH" "/api/polls/:id/status" set_poll_status
    ∷ protected "DELETE" "/api/polls/:id" delete_poll
    ∷ []

-- `CORSMiddleware`: the headers that it sets, and the status of an answer that it gives itself
abbrev pub cors_headers : Headers
cors_headers =
    ("Access-Control-Allow-Origin", "*")
    ∷ ("Access-Control-Allow-Credentials", "true")
    ∷ (
      "Access-Control-Allow-Headers",
      "Content-Type, Content-Length, Accept-Encoding, X-CSRF-Token, Authorization, accept, origin, Cache-Control, X-Requested-With, X-Voter-Fingerprint",
    )
    ∷ ("Access-Control-Allow-Methods", "POST, OPTIONS, GET, PUT, PATCH, DELETE")
    ∷ []

unfoldable pub cors_middleware : (method : String) → Headers × Option ℕ
cors_middleware method = (cors_headers, if method == "OPTIONS" then some 204 else none)

-- What a request comes to: an answer of the middleware for CORS, no route, an error 401 with its
-- message, or a handler with the claims that the middleware for tokens has set.
pub data Outcome : Type 0 where
  answered : (status : ℕ) → Outcome
  not_found : Outcome
  unauthorized : (message : String) → Outcome
  handled : (handler : Endpoint) (claims : Option Claims) → Outcome

module _ (find_route : List Route → (method path : String) → Option Route) (lib : Libraries) where
  abbrev pub admitted : Endpoint → Result Claims → Outcome
  admitted e (err m) = unauthorized m
  admitted e (ok c) = handled e (some c)

  abbrev pub routed : (now : ℕ) → (header : String) → Option Route → Outcome
  routed now header none = not_found
  routed now header (some r) =
      if r.is_protected
      then admitted r.handler (auth_middleware lib now header)
      else handled r.handler none

  abbrev pub unless_answered : Option ℕ → Outcome → Outcome
  unless_answered none o = o
  unless_answered (some status) o = answered status

  -- `header` is the header `Authorization`.
  unfoldable pub serve : (now : ℕ) → (method path header : String) → Outcome
  unfolding cors_middleware
  serve now method path header =
      unless_answered (cors_middleware method).1 (routed now header (find_route routes method path))
