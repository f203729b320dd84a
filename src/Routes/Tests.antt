-- ===== src/Routes/Tests.antt =====
-- The theorems on the routes of backend/cmd/server/main.go at an input.
use poll.Prelude.{
  ℕ, zero, suc, String, ◌++◌, ◌≡◌, refl, true, false, Bool, Option, some, List, [], ◌∷◌, All,
  keep_if, find_first, get_elem?, Bool-cases, inl, inr,
}
use poll.Api.Request.{ok, cast_vote}
use poll.Api.Storage.{Chance}
use poll.Accounts.{Libraries, Claims}
use poll.Accounts.Middleware.{auth_middleware}
use poll.Live.Url.{ws_url}
use poll.Routes as Server
use poll.Routes.{Route, Endpoint, routes, serve, Outcome, handled}
use poll.Routes.Paths.{fits, segments, is_segment}
use poll.Routes.Reach.{calls, served, FindsOne, Reaches, calls_reach}
use poll.Routes.Guard.{FindsListed, owners_need_tokens}

-- a router that takes the first route that fits
abbrev find : List Route → (method path : String) → Option Route
find rs method path = find_first (fits method path) rs

find_first_one :
    (test : Route → Bool) (rs : List Route) (r : Route)
    → keep_if test rs ≡ r ∷ []
    → find_first test rs ≡ some r
find_first_one test [] r h = cc
find_first_one test (x ∷ rs) r h = elim (Bool-cases (test x)) [
  | inl e ↦ rw e (let same : x ∷ keep_if test rs ≡ r ∷ [] = rw e at h in cc)
  | inr e ↦ rw e (find_first_one test rs r (rw e at h))
]

find_first_listed :
    (test : Route → Bool) (rs : List Route) (r : Route)
    → find_first test rs ≡ some r
    → (i : ℕ) × (get_elem? rs i ≡ some r)
find_first_listed test [] r h = cc
find_first_listed test (x ∷ rs) r h = elim (Bool-cases (test x)) [
  | inl e ↦ (zero, rw e at h)
  | inr e ↦ let (i, at) = find_first_listed test rs r (rw e at h) in (suc i, at)
]

find-FindsOne : FindsOne find
find-FindsOne rs method path r h = find_first_one (fits method path) rs r h

find-FindsListed : FindsListed find
find-FindsListed rs method path r h = find_first_listed (fits method path) rs r h

abbrev chance : Chance
chance = record { random36 = "0.abcdefghijkl"; now36 = "m1" }

calls_reach_example :
    let (sent, store) = cast_vote "https://h" chance chance [] "7" "a" in
    All
      (Reaches find find-FindsOne)
      (calls "ann" "a@h" "secret" "Tea?" "" ("yes" ∷ "no" ∷ []) "7" true)
    × (sent.url ≡ "https://h" ++ "/api/polls/7/vote")
    × (served (find routes sent.method "/api/polls/7/vote") ≡ some (Server.cast_vote, false))
    × (origin : String) × (ws_url "wss://h" "7" ≡ origin ++ "/api/polls/7/ws")
    × (served (find routes "GET" "/api/polls/7/ws") ≡ some (Server.handle_web_socket, false))
unfolding is_segment
calls_reach_example =
    calls_reach find find-FindsOne "7" refl refl "ann" "a@h" "secret" "Tea?" "" ("yes" ∷ "no" ∷ [])
      true "https://h" "wss://h" "a" chance chance []

abbrev claims : Claims
claims = record { sub = "u1"; username = "ada"; email = "a@h"; exp = 9; iat = 0 }

abbrev lib : Libraries
lib = record {
  hash = λ salt password. some password;
  matches = λ hashed password. true;
  sign = λ c. ok "tok";
  parse = λ now token. some claims;
}

owners_need_tokens_example :
    (k : Claims) × (auth_middleware lib 5 "Bearer tok" ≡ ok k)
    × (◌≡◌ {A = Option Claims} (some claims) (some k))
unfolding serve fits segments auth_middleware
owners_need_tokens_example =
    owners_need_tokens find find-FindsListed lib 5 "DELETE" "/api/polls/7" "Bearer tok"
      Server.delete_poll (some claims) refl refl
