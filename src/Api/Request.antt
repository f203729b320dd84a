-- ===== src/Api/Request.antt =====
-- `request` and the object `api` of frontend/src/services/api.js. A request is what is handed to
-- `fetch`; its answer comes back to `finish`. Bodies are kept as values, not as JSON text.
pub mod Laws
use poll.Prelude.{
  ℕ, String, ◌++◌, Bool, Option, none, some, List, [], ◌∷◌, if◌then◌else◌, truthy, show,
}
use poll.Api.Storage.{Storage, Chance, get_item, set_item, get_voter_fingerprint}

-- the documents that the calls of `api` send
pub data Payload : Type 0 where
  signup : (username email password : String) → Payload
  credentials : (email password : String) → Payload
  new_poll : (title description : String) (options : List String) → Payload
  poll_status : (is_active : Bool) → Payload
  vote : (option_id voter_fingerprint : String) → Payload

-- A JavaScript object with text values.
abbrev pub Headers : Type 0
Headers = List (String × String)

pub record Options : Type 0 where
  pub method : String
  pub headers : Headers
  pub body : Option Payload

pub record HttpRequest : Type 0 where
  pub url : String
  pub method : String
  pub headers : Headers
  pub body : Option Payload

-- `{ ...base, ...extra }`
unfoldable pub spread : Headers → Headers → Headers
spread base [] = base
spread base ((k, v) ∷ extra) = spread (set_item k v base) extra

-- the `Authorization` header of a stored token; a missing token and an empty one are both false
unfoldable pub authorize : Option String → Headers → Headers
authorize none headers = headers
authorize (some token) headers =
    if truthy token then set_item "Authorization" ("Bearer " ++ token) headers else headers

-- `request` up to the call of `fetch`: what is sent, and the storage after it.
unfoldable pub request : String → Chance → Storage → String → Options → HttpRequest × Storage
unfolding spread authorize
request api_base c store endpoint options =
    let token = get_item "auth_token" store in
    let (fp, store') = get_voter_fingerprint c store in
    let base = ("Content-Type", "application/json") ∷ ("X-Voter-Fingerprint", fp) ∷ [] in
    let headers = authorize token (spread base options.headers) in
    (
      record {
        url = api_base ++ endpoint;
        method = options.method;
        headers = headers;
        body = options.body;
      },
      store',
    )

-- What `fetch` comes to. The backend answers a successful request with the document that the call
-- asks for, and a failed one with a document that may have a text `error`.
pub data Response (A : Type 0) : Type 0 where
  success : A → Response A
  failure : (status : ℕ) (error : Option String) → Response A
  network_error : (message : String) → Response A

-- A promise that has settled: its value, or the message of its error.
pub data Result (A : Type 0) : Type 0 where
  ok : A → Result A
  err : String → Result A

abbrev pub failed_with : ℕ → String
failed_with status = "Request failed with status " ++ show status

-- `data.error || ...`
unfoldable pub error_message : ℕ → Option String → String
error_message status none = failed_with status
error_message status (some e) = if truthy e then e else failed_with status

-- the rest of `request`, after `fetch`
unfoldable pub finish : {A : Type 0} → Response A → Result A
unfolding error_message
finish (success a) = ok a
finish (failure status e) = err (error_message status e)
finish (network_error m) = err m

-- The calls of `api`: the endpoint and the options.
abbrev pub Call : Type 0
Call = String × Options

abbrev plain : String → Options
plain method = record { method = method; headers = []; body = none }

abbrev sending : String → Payload → Options
sending method p = record { method = method; headers = []; body = some p }

unfoldable pub register : (username email password : String) → Call
register u e p = ("/api/auth/register", sending "POST" (signup u e p))

unfoldable pub login : (email password : String) → Call
login e p = ("/api/auth/login", sending "POST" (credentials e p))

unfoldable pub get_me : Call
get_me = ("/api/auth/me", plain "GET")

unfoldable pub create_poll : (title description : String) → List String → Call
create_poll t d os = ("/api/polls", sending "POST" (new_poll t d os))

unfoldable pub get_poll : (id : String) → Call
get_poll id = ("/api/polls/" ++ id, plain "GET")

unfoldable pub list_my_polls : Call
list_my_polls = ("/api/polls", plain "GET")

unfoldable pub set_poll_status : (id : String) → Bool → Call
set_poll_status id b = ("/api/polls/" ++ (id ++ "/status"), sending "PATCH" (poll_status b))

unfoldable pub delete_poll : (id : String) → Call
delete_poll id = ("/api/polls/" ++ id, plain "DELETE")

unfoldable pub get_live_results : (id : String) → Call
get_live_results id = ("/api/polls/" ++ (id ++ "/results"), plain "GET")

-- `castVote` takes the fingerprint once for the body, and `request` once more for the header.
unfoldable pub cast_vote :
    String → Chance → Chance → Storage → (poll_id option_id : String) → HttpRequest × Storage
unfolding request
cast_vote api_base c d store poll_id option_id =
    let (fp, store') = get_voter_fingerprint c store in
    request api_base d store' ("/api/polls/" ++ (poll_id ++ "/vote"))
      (sending "POST" (vote option_id fp))
