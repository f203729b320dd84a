-- ===== src/Accounts/Signin.antt =====
-- From a sign-in to the next request: the token that the service gives (backend/internal/services/
-- auth_service.go) is the one that the client stores and sends (frontend/src/services/api.js), and the
-- middleware reads the same user from it.
use mathlib.Core.Path.{subst}
use poll.Prelude.{
  ◌≢◌, ◌<◌, ◌+◌, ℕ, String, ◌≡◌, refl, ap, ◌∙◌, true, Option, none, some, [], ◌∷◌, ◌⊎◌, inl, inr,
  truthy, expand, Bool-cases,
}
use poll.Models.{User, AuthResponse}
use poll.Api.Storage.{Chance, get_item, set_item}
use poll.Api.Storage.Laws.{get_item-set_item}
use poll.Api.Request.{Result, ok, err, finish, get_me, request, HttpRequest}
use poll.Api.Request.Laws.{request_headers, bearer}
use poll.Auth.Session.{Session, signed_in}
use poll.Voting.{or_else}
use poll.Accounts.{
  week, Account, Accounts, Claims, Libraries, Draw, generate_token, respond_with, add_account,
  account_of, register_hashed, register, login_found, login, find_email,
}
use poll.Accounts.Middleware.{
  split_spaces, token_of, is_bearer, auth_middleware, me_after, serve_me,
}

abbrev pub claims_for : (now : ℕ) → User → Claims
claims_for now u = record {
  sub = u.id;
  username = u.username;
  email = u.email;
  exp = now + week;
  iat = now;
}

-- What the client and the services rely on in the libraries: a token reads back as it was signed
-- until it expires, and is a text without spaces that is not empty; a password matches its hash.
pub record IsSound (lib : Libraries) : Type 0 where
  pub parse_sign :
      (now : ℕ) (c : Claims) (t : String)
      → lib.sign c ≡ ok t
      → now < c.exp
      → lib.parse now t ≡ some c
  pub one_word : (c : Claims) (t : String) → lib.sign c ≡ ok t → split_spaces t ≡ t ∷ []
  pub full_token : (c : Claims) (t : String) → lib.sign c ≡ ok t → truthy t ≡ true
  pub matches_hash : (salt p h : String) → lib.hash salt p ≡ some h → lib.matches h p ≡ true

module _ (lib : Libraries) (issued : ℕ) where
  -- the token of an answer is signed for its user
  abbrev IsSigned : AuthResponse → Type 0
  IsSigned d = lib.sign (claims_for issued d.user) ≡ ok d.token

  ok_inj : {A : Type 0} (a b : A) → ◌≡◌ {A = Result A} (ok a) (ok b) → a ≡ b
  ok_inj {A} a b e = ap value e
    where
      value : Result A → A
      value (ok x) = x
      value (err m) = a

  err_not_ok : {A : Type 0} (m : String) (a : A) → ◌≢◌ {A = Result A} (err m) (ok a)
  err_not_ok m a e = cc

  respond-IsSigned :
      (a : Account) (r : Result String) (d : AuthResponse)
      → generate_token lib issued a ≡ r
      → respond_with lib a r ≡ ok d
      → IsSigned d
  unfolding generate_token
  respond-IsSigned a (ok t) d h e = subst IsSigned (ok_inj _ d e) h
  respond-IsSigned a (err m) d h e = cc

  found-IsSigned :
      (password : String) (o : Option Account) (d : AuthResponse)
      → login_found lib issued password o ≡ ok d
      → IsSigned d
  unfolding login_found
  found-IsSigned password none d e = cc
  found-IsSigned password (some a) d e = elim (Bool-cases (lib.matches a.password password)) [
    | inl right ↦ respond-IsSigned a (generate_token lib issued a) d refl (rw right at e)
    | inr wrong ↦ absurd (err_not_ok _ d (rw wrong at e))
  ]

  login-IsSigned :
      (email password : String) (users : Accounts) (d : AuthResponse)
      → login lib issued email password users ≡ ok d
      → IsSigned d
  unfolding login
  login-IsSigned email password users d e = found-IsSigned password (find_email email users) d e

  added-IsSigned :
      (a : Account) (users : Accounts) (o : Option Account) (d : AuthResponse)
      → (add_account lib issued a users o).0 ≡ ok d
      → IsSigned d
  unfolding add_account
  added-IsSigned a users none d e = respond-IsSigned a (generate_token lib issued a) d refl e
  added-IsSigned a users (some b) d e = cc

  hashed-IsSigned :
      (draw : Draw) (username email : String) (users : Accounts) (h : Option String)
      (d : AuthResponse)
      → (register_hashed lib issued draw username email users h).0 ≡ ok d
      → IsSigned d
  unfolding register_hashed add_account
  hashed-IsSigned draw username email users none d e = cc
  hashed-IsSigned draw username email users (some h) d e =
      added-IsSigned (account_of lib draw username email h) users (find_email email users) d e

  register-IsSigned :
      (draw : Draw) (username email password : String) (users : Accounts) (d : AuthResponse)
      → (register lib issued draw username email password users).0 ≡ ok d
      → IsSigned d
  unfolding register
  register-IsSigned draw username email password users d e =
      hashed-IsSigned draw username email users (lib.hash draw.salt password) d e

  -- the header that the client sends for a token, as the middleware reads it
  middleware_reads :
      (sound : IsSound lib) (now : ℕ) (d : AuthResponse)
      → IsSigned d
      → now < issued + week
      → auth_middleware lib now (or_else "" (bearer (some d.token))) ≡ ok (claims_for issued d.user)
  unfolding auth_middleware token_of is_bearer split_spaces
  middleware_reads sound now d h fresh = rw (sound.full_token _ d.token h) (
      rw (expand "Bearer " d.token)
        (rw (sound.one_word _ d.token h) (rw (sound.parse_sign now _ d.token h fresh) refl)))

  module _ (api_base : String) (c : Chance) (s : Session) (d : AuthResponse) (draw : Draw)
      (username email password : String) (users : Accounts) (now : ℕ) where
    -- the request of `getMe` after a sign-in
    abbrev pub me_request : HttpRequest
    me_request = (request api_base c (signed_in (ok d) s).0.store (get_me).0 (get_me).1).0

    known :
        IsSound lib
        → IsSigned d
        → now < issued + week
        → finish (serve_me lib now (or_else "" (get_item "Authorization" me_request.headers)))
          ≡ ok d.user
    unfolding serve_me signed_in get_me finish
    known sound h fresh =
        ap (λ r. finish (me_after lib r))
          (ap (λ o. auth_middleware lib now (or_else "" o))
              ((request_headers api_base c (set_item "auth_token" d.token s.store) "/api/auth/me"
                  "GET" none).2
                ∙ ap bearer (get_item-set_item "auth_token" "auth_token" d.token s.store))
            ∙ middleware_reads sound now d h fresh)

    -- Whoever has signed up or signed in is known to the requests of the next week: with the token that the client
    -- stores and sends, `getMe` comes back with the user of the answer.
    pub signed_in_is_known :
        IsSound lib
        → ((register lib issued draw username email password users).0 ≡ ok d)
          ⊎ (login lib issued email password users ≡ ok d)
        → now < issued + week
        → finish (serve_me lib now (or_else "" (get_item "Authorization" me_request.headers)))
          ≡ ok d.user
    signed_in_is_known sound (inl e) fresh =
        known sound (register-IsSigned draw username email password users d e) fresh
    signed_in_is_known sound (inr e) fresh =
        known sound (login-IsSigned email password users d e) fresh
