-- ===== src/Accounts/Middleware.antt =====
-- backend/internal/middleware/auth_middleware.go: who a request comes from.
use Prim.Native.Char.{Char, code}
use Prim.Native.String.{[], ◌∷◌}
use poll.Prelude.{
  ℕ, ◌+◌, String, Bool, false, ◌||◌, ◌&&◌, Option, none, some, List, eqb, if◌then◌else◌, is_empty,
}
use poll.Models.{User}
use poll.Api.Request.{Result, ok, err, Response, success, failure}
use poll.Accounts.{Libraries, Claims}

-- `strings.Split(s, " ")`
abbrev pub extend : Char → List String → List String
extend c List.[] = List.◌∷◌ (c ∷ []) List.[]
extend c (List.◌∷◌ x xs) = List.◌∷◌ (c ∷ x) xs

unfoldable pub split_spaces : String → List String
split_spaces [] = List.◌∷◌ [] List.[]
split_spaces (c ∷ s) =
    let rest = split_spaces s in if eqb (code c) 32 then List.◌∷◌ [] rest else extend c rest

-- `strings.ToLower(s) == word` for a word of small ASCII letters, given by their codes: no other
-- character has one of `b`, `e`, `a`, `r` as its lower case.
abbrev is_letter : ℕ → Char → Bool
is_letter k c = eqb (code c) k || eqb (code c + 32) k

unfoldable pub is_bearer : String → Bool
is_bearer (b ∷ e ∷ a ∷ r ∷ e' ∷ r' ∷ []) =
    is_letter b'b' b
    && is_letter b'e' e
    && is_letter b'a' a
    && is_letter b'r' r
    && is_letter b'e' e'
    && is_letter b'r' r'
is_bearer _ = false

-- The two parts of `Bearer <token>`.
unfoldable pub token_of : List String → Option String
unfolding is_bearer
token_of (List.◌∷◌ scheme (List.◌∷◌ token List.[])) = if is_bearer scheme then some token else none
token_of _ = none

module _ (lib : Libraries) where
  abbrev pub parsed : Option Claims → Result Claims
  parsed none = err "Invalid or expired authorization token"
  parsed (some c) = ok c

  abbrev pub checked : (now : ℕ) → Option String → Result Claims
  checked now none = err "Authorization header must be Bearer <token>"
  checked now (some token) = parsed (lib.parse now token)

  -- The claims that are set for the handlers, or the error of the answer 401. A missing header is
  -- empty.
  unfoldable pub auth_middleware : (now : ℕ) → String → Result Claims
  unfolding token_of split_spaces
  auth_middleware now header =
      if is_empty header
      then err "Authorization header required"
      else checked now (token_of (split_spaces header))

  -- `Me`
  abbrev pub handle_me : Claims → Response User
  handle_me c = success (record { id = c.sub; username = c.username; email = c.email })

  -- `GET /api/auth/me`, behind the middleware
  abbrev pub me_after : Result Claims → Response User
  me_after (err m) = failure 401 (some m)
  me_after (ok c) = handle_me c

  unfoldable pub serve_me : (now : ℕ) → (header : String) → Response User
  unfolding auth_middleware
  serve_me now header = me_after (auth_middleware now header)
