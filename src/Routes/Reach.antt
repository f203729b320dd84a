-- ===== src/Routes/Reach.antt =====
-- Each call of frontend/src/services/api.js reaches the handler of backend/cmd/server/main.go that it
-- is meant for.
use poll.Prelude.{
  String, ◌++◌, ◌≡◌, refl, ap, sym, ◌∙◌, Bool, true, false, ◌&&◌, Option, none, some, List, [], ◌∷◌,
  keep_if, All, ◌==◌, is_empty, expand, starts_with, if◌then◌else◌,
}
use text.Mathlib.TextLemmas.{append_assoc}
use poll.Api.Storage.{Storage, Chance}
use poll.Live.Url.{ws_url, strip_scheme}
use poll.Api.Request.{
  cast_vote, request, Call, register, login, get_me, create_poll, get_poll, list_my_polls,
  set_poll_status, delete_poll, get_live_results,
}
use poll.Routes.{Endpoint, Route, routes}
use poll.Routes as Server
use poll.Routes.Paths.{fits, segments, fits_all, is_segment, segments_one, segments_then}

-- the calls of `api`, with the handlers that they are meant for and whether these ask for a token
abbrev pub calls :
    (username email password title description : String)
    → List String
    → (id : String) → (is_active : Bool) → List (Call × Endpoint × Bool)
calls u e p t d os id b =
    (register u e p, Server.register, false)
    ∷ (login e p, Server.login, false)
    ∷ (get_me, Server.me, true)
    ∷ (create_poll t d os, Server.create_poll, true)
    ∷ (get_poll id, Server.get_poll, false)
    ∷ (list_my_polls, Server.list_my_polls, true)
    ∷ (set_poll_status id b, Server.set_poll_status, true)
    ∷ (delete_poll id, Server.delete_poll, true)
    ∷ (get_live_results id, Server.get_live_results, false)
    ∷ []

-- the segments of the paths that name a poll
module _ (id : String) (plain : is_segment id ≡ true) where
  poll_segments : segments ("/api/polls/" ++ id) ≡ "" ∷ "api" ∷ "polls" ∷ id ∷ []
  unfolding segments
  poll_segments = rw (expand "/api/polls/" id, segments_one id plain) refl

  below_segments :
      (s : String)
      → is_segment s ≡ true
      → segments ("/api/polls/" ++ (id ++ ("/" ++ s))) ≡ "" ∷ "api" ∷ "polls" ∷ id ∷ s ∷ []
  unfolding segments
  below_segments s h =
      rw (expand "/" s)
        (rw (expand "/api/polls/" (id ++ _), segments_then id s plain, segments_one s h) refl)

  module _ (nonempty : is_empty id ≡ false) where
    found_poll :
        (keep_if (fits "GET" ("/api/polls/" ++ id)) routes
          ≡ Server.public "GET" "/api/polls/:id" Server.get_poll ∷ [])
        × (keep_if (fits "DELETE" ("/api/polls/" ++ id)) routes
            ≡ Server.protected "DELETE" "/api/polls/:id" Server.delete_poll ∷ [])
    unfolding fits
    found_poll = (rw (poll_segments, nonempty) refl, rw (poll_segments, nonempty) refl)

    found_below :
        (method s : String) (r : Route)
        → is_segment s ≡ true
        → keep_if
            (λ (t : Route).
              t.method == method && fits_all (segments t.path) ("" ∷ "api" ∷ "polls" ∷ id ∷ s ∷ []))
            routes
          ≡ r ∷ []
        → keep_if (fits method ("/api/polls/" ++ (id ++ ("/" ++ s)))) routes ≡ r ∷ []
    unfolding fits
    found_below method s r h e = rw (below_segments s h) e

-- the address of the socket: what goes before the path
socket_address :
    (ws_base id : String)
    → (origin : String) × (ws_url ws_base id ≡ origin ++ ("/api/polls/" ++ (id ++ "/ws")))
unfolding ws_url
socket_address ws_base id =
    let scheme = if starts_with ws_base "https" then "wss" else "ws" in
    let host = strip_scheme "ws" (strip_scheme "http" ws_base) in
    let path = "/api/polls/" ++ (id ++ "/ws") in
    (
      scheme ++ ("://" ++ host),
      sym (
          append_assoc scheme ("://" ++ host) path
          ∙ ap (λ t. scheme ++ t) (append_assoc "://" host path)),
    )

-- the handler of a route, and whether it asks for a token
abbrev pub served : Option Route → Option (Endpoint × Bool)
served none = none
served (some r) = some (r.handler, r.is_protected)

-- The router finds the route that a request fits, if there is only one.
abbrev pub FindsOne : (List Route → (method path : String) → Option Route) → Type 0
FindsOne find_route =
    (rs : List Route) (method path : String) (r : Route)
    → keep_if (fits method path) rs ≡ r ∷ []
    → find_route rs method path ≡ some r

module _ (find_route : List Route → (method path : String) → Option Route)
    (finds_one : FindsOne find_route) where
  -- A call reaches the handler that it is meant for.
  abbrev pub Reaches : Call × Endpoint × Bool → Type 0
  Reaches (c, e, b) = served (find_route routes c.1.method c.0) ≡ some (e, b)

  reaches :
      (method path : String) (r : Route)
      → keep_if (fits method path) routes ≡ r ∷ []
      → served (find_route routes method path) ≡ some (r.handler, r.is_protected)
  reaches method path r h = ap served (finds_one routes method path r h)

  module _ (id : String) (plain : is_segment id ≡ true) (nonempty : is_empty id ≡ false) where
    -- a path below that of the poll
    below_reaches :
        (method s : String) (r : Route)
        → is_segment s ≡ true
        → keep_if
            (λ (t : Route).
              t.method == method && fits_all (segments t.path) ("" ∷ "api" ∷ "polls" ∷ id ∷ s ∷ []))
            routes
          ≡ r ∷ []
        → served (find_route routes method ("/api/polls/" ++ (id ++ ("/" ++ s))))
          ≡ some (r.handler, r.is_protected)
    below_reaches method s r h e = reaches method _ r (found_below id plain nonempty method s r h e)

    status_reaches_owner :
        served (find_route routes "PATCH" ("/api/polls/" ++ (id ++ "/status")))
        ≡ some (Server.set_poll_status, true)
    unfolding segments fits_all is_segment
    status_reaches_owner =
        below_reaches "PATCH" "status"
          (Server.protected "PATCH" "/api/polls/:id/status" Server.set_poll_status) refl
          (rw nonempty refl)

    results_reach :
        served (find_route routes "GET" ("/api/polls/" ++ (id ++ "/results")))
        ≡ some (Server.get_live_results, false)
    unfolding segments fits_all is_segment
    results_reach =
        below_reaches "GET" "results"
          (Server.public "GET" "/api/polls/:id/results" Server.get_live_results) refl
          (rw nonempty refl)

    voting_reaches :
        served (find_route routes "POST" ("/api/polls/" ++ (id ++ "/vote")))
        ≡ some (Server.cast_vote, false)
    unfolding segments fits_all is_segment
    voting_reaches =
        below_reaches "POST" "vote" (Server.public "POST" "/api/polls/:id/vote" Server.cast_vote)
          refl (rw nonempty refl)

    socket_reaches :
        served (find_route routes "GET" ("/api/polls/" ++ (id ++ "/ws")))
        ≡ some (Server.handle_web_socket, false)
    unfolding segments fits_all is_segment
    socket_reaches =
        below_reaches "GET" "ws" (Server.public "GET" "/api/polls/:id/ws" Server.handle_web_socket)
          refl (rw nonempty refl)

    list-Reaches :
        (u e p t d : String) (os : List String) (b : Bool) → All Reaches (calls u e p t d os id b)
    unfolding register login get_me create_poll get_poll list_my_polls set_poll_status delete_poll
        get_live_results fits segments fits_all
    list-Reaches u e p t d os b = (
      reaches "POST" "/api/auth/register" _ refl,
      (
        reaches "POST" "/api/auth/login" _ refl,
        (
          reaches "GET" "/api/auth/me" _ refl,
          (
            reaches "POST" "/api/polls" _ refl,
            (
              reaches "GET" _ _ (found_poll id plain nonempty).0,
              (
                reaches "GET" "/api/polls" _ refl,
                (
                  status_reaches_owner,
                  (reaches "DELETE" _ _ (found_poll id plain nonempty).1, (results_reach, tt)),
                ),
              ),
            ),
          ),
        ),
      ),
    )

    -- Each call of the client reaches the handler of the server that it is meant for, and exactly the
    -- calls of a poll's owner and the one for the user need a token; so does a vote, and the address
    -- of the socket, after the host, is the path of the handler for sockets. The identifier of the poll
    -- is not empty and has no slash; of the router it is known that it finds the route that a request
    -- fits, if there is only one.
    pub calls_reach :
        (u e p t d : String) (os : List String) (b : Bool) (base ws_base option_id : String)
        (c c' : Chance) (store : Storage)
        → let (sent, store') = cast_vote base c c' store id option_id in
          let voting = "/api/polls/" ++ (id ++ "/vote") in
          let socket = "/api/polls/" ++ (id ++ "/ws") in
          All Reaches (calls u e p t d os id b)
          × (sent.url ≡ base ++ voting)
          × (served (find_route routes sent.method voting) ≡ some (Server.cast_vote, false))
          × (origin : String) × (ws_url ws_base id ≡ origin ++ socket)
          × (served (find_route routes "GET" socket) ≡ some (Server.handle_web_socket, false))
    unfolding cast_vote request
    calls_reach u e p t d os b base ws_base option_id c c' store =
        let (origin, same) = socket_address ws_base id in
        (list-Reaches u e p t d os b, refl, voting_reaches, origin, same, socket_reaches)
