-- ===== src/Api/Tests.antt =====
-- The theorems on frontend/src/services/api.js at an input.
use poll.Prelude.{Bool, none, some, [], ◌∷◌}
use poll.Api.Base.{Env}
use poll.Api.Storage.{Storage, Chance}
use poll.Api.Request.{HttpRequest, Response, failure, credentials, request}

abbrev env : Env
env = record { vite_api_url = some " https://live.example/api// "; vite_ws_url = none }

abbrev refused : Response Bool
refused = failure 404 (some "")

abbrev first : Chance
first = record { random36 = "0.abcdefghijkl"; now36 = "m1" }

abbrev second : Chance
second = record { random36 = "0.zzzzzzzzzzzz"; now36 = "m2" }

abbrev signed_in : Storage
signed_in = ("auth_token", "tok") ∷ ("voter_fingerprint", "voter_1") ∷ []

abbrev sent_login : HttpRequest
sent_login =
    (request "https://live.example" first signed_in "/api/auth/login"
      (record { method = "POST"; headers = []; body = some (credentials "a@b" "secret") })).0
