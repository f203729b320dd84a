-- ===== src/App/Laws.antt =====
-- The address of the page and its state agree, and the protected views are protected
-- (frontend/src/App.jsx).
use poll.Prelude.{
  String, ◌≡◌, ◌≢◌, refl, ap, false, Option, none, some, arith, if◌then◌else◌, or_text, ◌⊎◌, inl,
  inr,
}
use poll.Auth.Session.{Session, is_authenticated}
use poll.App.Params.{Params, get_param, set_param, get_param-set_param, get_param-delete_param}
use poll.App.Router.{
  App, given, sync_state_from_url, navigate, back, loading_application, dashboard, create_poll,
  login, main_content, view_content, set_id,
}

-- The view and the poll that the address of the page says.
abbrev pub addressed : App → String × Option String
addressed a = let a' = sync_state_from_url a in (a'.current_view, a'.active_poll_id)

set_id-view :
    (id : Option String) (q : Params) → get_param "view" (set_id id q) ≡ get_param "view" q
set_id-view none q = get_param-delete_param "id" "view" q
set_id-view (some id) q = get_param-set_param "id" "view" id q

set_id-id : (id : Option String) (q : Params) → get_param "id" (set_id id q) ≡ id
set_id-id none q = get_param-delete_param "id" "id" q
set_id-id (some id) q = get_param-set_param "id" "id" id q

given-given : (id : Option String) → given (given id) ≡ given id
given-given none = refl
given-given (some id) = ground arith

-- After `navigate` the address says the view and the poll that the page shows: the page that a
-- reload shows. An empty view is read as the home view, an empty poll as none.
pub navigate_address :
    (view : String) (poll_id : Option String) (a : App)
    → addressed (navigate view poll_id a) ≡ (or_text view "home", given poll_id)
unfolding sync_state_from_url navigate
navigate_address view poll_id a =
    let q = set_param "view" view a.query in
    rw (
      set_id-view (given poll_id) q,
      get_param-set_param "view" "view" view a.query,
      set_id-id (given poll_id) q,
      given-given poll_id,
    )

-- A page whose state is the one of its address comes back by the back button, wherever it went.
pub back-navigate :
    (view : String) (poll_id : Option String) (a : App)
    → sync_state_from_url a ≡ a
    → back (navigate view poll_id a) ≡ a
unfolding back navigate
back-navigate view poll_id a synced = synced

module _ (poll_id : Option String) (view : String) where
  anonymous_login :
      (view ≡ "dashboard") ⊎ (view ≡ "create") → view_content false poll_id view ≡ login
  unfolding view_content
  anonymous_login (inl e) = ap (view_content false poll_id) e
  anonymous_login (inr e) = ap (view_content false poll_id) e

  anonymous_never :
      (view_content false poll_id view ≢ dashboard)
      × (view_content false poll_id view ≢ create_poll)
  unfolding view_content
  anonymous_never = (λ e. ground arith, λ e. ground arith)

-- Without a user who is signed in neither the dashboard nor the form for polls is shown, whatever
-- the view is.
pub never_unprotected :
    (s : Session) (a : App)
    → is_authenticated s ≡ false
    → (main_content s a ≢ dashboard) × (main_content s a ≢ create_poll)
unfolding main_content
never_unprotected s a anonymous =
    let never = anonymous_never a.active_poll_id a.current_view in
    (λ e. ground (arith, never.0), λ e. ground (arith, never.1))

-- Instead of those two the form to sign in is shown, once the session is checked.
pub protected_views :
    (s : Session) (a : App)
    → (a.current_view ≡ "dashboard") ⊎ (a.current_view ≡ "create")
    → is_authenticated s ≡ false
    → main_content s a ≡ (if s.loading then loading_application else login)
unfolding main_content
protected_views s a h anonymous = rw anonymous (
    ap (λ m. if s.loading then loading_application else m)
      (anonymous_login a.active_poll_id a.current_view h))
