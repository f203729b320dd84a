-- ===== src/Auth/Laws.antt =====
-- The session and the browser's storage agree (frontend/src/context/AuthContext.jsx).
use poll.Prelude.{
  String, ◌≡◌, refl, sym, ◌&&◌, false, Option, none, some, List, [], ◌∷◌, arith, ◌==◌,
  if◌then◌else◌,
}
use poll.Models.{User, AuthResponse}
use poll.Api.Storage.{Storage, get_item, set_item, remove_item}
use poll.Api.Storage.Laws.{get_item-set_item, get_item-remove_item}
use poll.Api.Request.{Result, ok, err}
use poll.Auth.Session.{
  Session, start, has_token, check_auth, auth_checked, Event, effect, me, answered, logs_out, step,
}

unfoldable pub run : List Event → Session → Session
run [] s = s
run (e ∷ es) s = run es (step e s)

abbrev IsStored : Session → Type 0
IsStored s = s.token ≡ get_item "auth_token" s.store

module _ (t : String) (m : Storage) where
  stored_self : get_item "auth_token" (set_item "auth_token" t m) ≡ some t
  stored_self = get_item-set_item "auth_token" "auth_token" t m

  removed_self : get_item "auth_token" (remove_item "auth_token" m) ≡ none
  removed_self = get_item-remove_item "auth_token" "auth_token" m

step-IsStored : (e : Event) (s : Session) → IsStored s → IsStored (step e s)
unfolding step
step-IsStored effect s h = ground arith
step-IsStored (me (ok u)) s h = h
step-IsStored (me (err m)) s h = sym (removed_self "" s.store)
step-IsStored (answered (ok d)) s h = sym (stored_self d.token s.store)
step-IsStored (answered (err m)) s h = h
step-IsStored logs_out s h = sym (removed_self "" s.store)

run-IsStored : (es : List Event) (s : Session) → IsStored s → IsStored (run es s)
unfolding run
run-IsStored [] s h = h
run-IsStored (e ∷ es) s h = run-IsStored es (step e s) (step-IsStored e s h)

-- After any events the token of the session is the one in the storage, so that a reload of the page
-- starts from the same token.
pub token_stored :
    (es : List Event) (store : Storage)
    → let s = run es (start store) in
      (s.token ≡ get_item "auth_token" s.store) × ((start s.store).token ≡ s.token)
unfolding start
token_stored es store = let h = run-IsStored es (start store) refl in (h, sym h)

-- Signing in and out again leaves no user and no token, in the session as in the storage, and every
-- other key as it was.
pub sign_in_out :
    (d : AuthResponse) (s : Session) (k : String)
    → let s' = step logs_out (step (answered (ok d)) s) in
      (s'.user ≡ none)
      × (s'.token ≡ none)
      × (get_item k s'.store ≡ (if "auth_token" == k then none else get_item k s.store))
unfolding step
sign_in_out d s k = (
  refl,
  refl,
  ground (
    arith,
    get_item-set_item "auth_token" k d.token s.store,
    get_item-remove_item "auth_token" k (set_item "auth_token" d.token s.store),
  ),
)

-- the user that an answer of `getMe` gives
abbrev pub answer_user : Result User → Option User
answer_user (ok u) = some u
answer_user (err m) = none

-- The check of the session always comes to an end: without a token at once, with one when `getMe`
-- answers, whatever the answer; and then the user is the one of the answer.
pub check_ends :
    (s : Session) (r : Result User)
    → ((check_auth s).1 ≡ has_token s.token)
      × ((check_auth s).0.loading ≡ (has_token s.token && s.loading))
      × ((auth_checked r (check_auth s).0).loading ≡ false)
      × ((auth_checked r (check_auth s).0).user ≡ answer_user r)
unfolding check_auth auth_checked
check_ends s (ok v) = (ground arith, ground arith, refl, refl)
check_ends s (err n) = (ground arith, ground arith, refl, refl)
