-- ===== src/Routes/Cors.antt =====
-- What a browser asks before it sends a request of frontend/src/services/api.js to another origin, and
-- what backend/internal/middleware/cors_middleware.go answers.
use Prim.Native.Char.{Char, code}
use Prim.Native.String.{[], ◌∷◌}
use mathlib.Core.List.{List}
use poll.Prelude.{String, ◌≡◌, Bool, true, false, ◌||◌, none, some, ◌==◌, eqb, if◌then◌else◌}
use poll.Api.Storage.{Storage, get_item}
use poll.Api.Request.{Call, Headers}
use poll.Routes.{Endpoint}

-- The words of a list that commas divide, without the blanks.
abbrev pub extend_word : Char → List String → List String
extend_word c List.[] = List.◌∷◌ (c ∷ []) List.[]
extend_word c (List.◌∷◌ x xs) = List.◌∷◌ (c ∷ x) xs

unfoldable pub words : String → List String
words [] = List.◌∷◌ [] List.[]
words (c ∷ s) =
    let rest = words s in
    if eqb (code c) 44
    then List.◌∷◌ [] rest
    else if eqb (code c) 32
    then rest
    else extend_word c rest

abbrev pub lists : String → List String → Bool
lists w List.[] = false
lists w (List.◌∷◌ x xs) = x == w || lists w xs

-- the words of a header of the answer
abbrev pub header_words : String → Headers → List String
header_words name headers = elim (get_item name headers) [ none ↦ List.[] | some v ↦ words v ]

-- whether the answer lets a page of another origin send the method, and a header
abbrev pub allows_method : Headers → String → Bool
allows_method headers method = lists method (header_words "Access-Control-Allow-Methods" headers)

abbrev pub AllowsHeader : Headers → String × String → Type 0
AllowsHeader headers (name, v) =
    lists name (header_words "Access-Control-Allow-Headers" headers) ≡ true

abbrev pub AllowsCall : Headers → Call × Endpoint × Bool → Type 0
AllowsCall headers (c, e, b) = allows_method headers c.1.method ≡ true

-- the headers of every request
abbrev fixed_headers : String → Headers
fixed_headers fp =
    List.◌∷◌ ("Content-Type", "application/json") (List.◌∷◌ ("X-Voter-Fingerprint", fp) List.[])
