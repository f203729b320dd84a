-- ===== src/Auth/Races.antt =====
-- Answers of `getMe` that come after the session has changed
-- (frontend/src/context/AuthContext.jsx): nothing ties an answer to the token that it was asked for.
use poll.Prelude.{String, ◌≡◌, refl, true, none}
use poll.Models.{User, AuthResponse}
use poll.Api.Storage.{get_item}
use poll.Api.Storage.Laws.{get_item-remove_item}
use poll.Api.Request.{ok, err}
use poll.Auth.Session.{Session, me, answered, logs_out, step, is_authenticated}

-- The user logs out while `getMe` is under way, and it then answers with the user: the page is
-- authenticated again, with no token.
pub late_user :
    (s : Session) (u : User)
    → let s' = step (me (ok u)) (step logs_out s) in
      (is_authenticated s' ≡ true) × (s'.token ≡ none) × (get_item "auth_token" s'.store ≡ none)
unfolding step
late_user s u = (refl, refl, get_item-remove_item "auth_token" "auth_token" s.store)

-- A failure of `getMe` that comes after a new sign-in ends the new session and removes its token.
pub late_failure :
    (s : Session) (d : AuthResponse) (m : String)
    → let s' = step (me (err m)) (step (answered (ok d)) s) in
      (s'.user ≡ none) × (s'.token ≡ none) × (get_item "auth_token" s'.store ≡ none)
unfolding step
late_failure s d m =
    (refl, refl, get_item-remove_item "auth_token" "auth_token" (step (answered (ok d)) s).store)
