-- ===== src/Accounts/Return.antt =====
-- Signing in again: `Register` and `Login` of backend/internal/services/auth_service.go, with other
-- requests before, between and after.
use mathlib.Core.Path.{subst}
use poll.Prelude.{
  ℕ, String, ◌≡◌, ◌≢◌, refl, ap, sym, ◌∙◌, Bool, true, Option, none, some, List, [], arith, All,
  Bool-cases, inl, inr,
}
use poll.Models.{User, AuthResponse}
use poll.Api.Request.{
  Payload, signup, credentials, Result, ok, err, Response, success, failure, network_error,
}
use poll.Accounts.{
  Account, Accounts, Libraries, Draw, find_email, user_of, generate_token, respond_with, account_of,
  add_account, register_hashed, register, login_found, login, answer, invalid, handle_register,
  login_valid, handle_login, is_signup, is_login,
}
use poll.Accounts.Signin.{claims_for, IsSound}
use poll.Accounts.Keeping.{Event, registers, step, run, DrawsOther, run-Holds, run_from}
use poll.Accounts.Emails.{IsKeyed, put-IsKeyed, find_email-put_self}

-- The account that a sign-up with the answer `d` has made.
record IsMade (lib : Libraries) (email password : String) (d : AuthResponse) (users : Accounts)
    (a : Account) : Type 0 where
  email_of : a.email ≡ email
  secret : lib.matches a.password password ≡ true
  user : user_of a ≡ d.user
  held : IsKeyed users × (find_email a.email users ≡ some a)

module _ (lib : Libraries) (sound : IsSound lib) where
  respond_user :
      (a : Account) (r : Result String) (d : AuthResponse)
      → respond_with lib a r ≡ ok d
      → user_of a ≡ d.user
  respond_user a (ok t) d e = ap value e
    where
      value : Result AuthResponse → User
      value (ok x) = x.user
      value (err m) = user_of a
  respond_user a (err m) d e = cc

  added-IsMade :
      (now : ℕ) (a : Account) (email password : String) (users : Accounts) (found : Option Account)
      (d : AuthResponse)
      → find_email a.email users ≡ found
      → IsKeyed users
      → a.email ≡ email
      → lib.matches a.password password ≡ true
      → (add_account lib now a users found).0 ≡ ok d
      → IsMade lib email password d (add_account lib now a users found).1 a
  unfolding add_account
  added-IsMade now a email password users none d free keyed same secret e = record {
    email_of = same;
    secret = secret;
    user = respond_user a (generate_token lib now a) d e;
    held = (put-IsKeyed a users keyed, find_email-put_self a users free);
  }
  added-IsMade now a email password users (some b) d found keyed same secret e = cc

  hashed-IsMade :
      (now : ℕ) (draw : Draw) (username email password : String) (users : Accounts)
      (h : Option String) (d : AuthResponse)
      → lib.hash draw.salt password ≡ h
      → IsKeyed users
      → (register_hashed lib now draw username email users h).0 ≡ ok d
      → (a : Account) × IsMade lib email password d
          (register_hashed lib now draw username email users h).1
          a
  unfolding register_hashed add_account
  hashed-IsMade now draw username email password users none d eh keyed e = cc
  hashed-IsMade now draw username email password users (some h) d eh keyed e =
      let a = account_of lib draw username email h in
      (
        a,
        added-IsMade now a email password users (find_email email users) d refl keyed refl
            (sound.matches_hash draw.salt password h eh) e,
      )

  login-IsMade :
      (later : ℕ) (email password t : String) (users : Accounts) (d : AuthResponse) (a : Account)
      → IsMade lib email password d users a
      → lib.sign (claims_for later d.user) ≡ ok t
      → login lib later email password users ≡ ok (record { token = t; user = d.user })
  unfolding login login_found generate_token
  login-IsMade later email password t users d a made signed =
      ap (login_found lib later password)
        (ap (λ m. find_email m users) (sym made.email_of) ∙ made.held.1)
      ∙ rw made.secret (
          ap (respond_with lib a) (ap (λ u. lib.sign (claims_for later u)) made.user ∙ signed)
          ∙ ap (λ (u : User). ok (record { token = t; user = u })) made.user)

  module _ (is_email : String → Bool) (bind_error : Option Payload → String) where
    success_ok :
        (status : ℕ) (r : Result AuthResponse × Accounts) (d : AuthResponse)
        → (answer lib is_email bind_error status r).0 ≡ success d
        → r.0 ≡ ok d
    success_ok status (ok x, users) d e = ap ok (ap value e)
      where
        value : Response AuthResponse → AuthResponse
        value (success y) = y
        value (failure n m) = x
        value (network_error m) = x
    success_ok status (err m, users) d e = cc

    answer_state :
        (status : ℕ) (r : Result AuthResponse × Accounts)
        → (answer lib is_email bind_error status r).1 ≡ r.1
    answer_state status (ok d, users) = refl
    answer_state status (err m, users) = refl

    invalid_not_success :
        (body : Option Payload) (users : Accounts) (d : AuthResponse)
        → (invalid lib is_email bind_error body users).0 ≢ success d
    invalid_not_success body users d e = cc

    registered-IsMade :
        (now : ℕ) (draw : Draw) (username email password : String) (users : Accounts)
        (d : AuthResponse)
        → IsKeyed users
        → (answer lib is_email bind_error 400
            (register lib now draw username email password users)).0
          ≡ success d
        → (a : Account) × IsMade lib email password d
            (answer lib is_email bind_error 400
              (register lib now draw username email password users)).1
            a
    unfolding register
    registered-IsMade now draw username email password users d keyed e =
        let r = register_hashed lib now draw username email users (lib.hash draw.salt password) in
        let (a, made) =
          hashed-IsMade now draw username email password users (lib.hash draw.salt password) d refl
            keyed (success_ok 400 r d e) in
        (a, subst (λ m. IsMade lib email password d m a) (sym (answer_state 400 r)) made)

    enough :
        (username email password : String)
        → is_signup lib is_email bind_error username email password ≡ true
        → is_login lib is_email bind_error email password ≡ true
    enough username email password h = ground arith

    handled-IsMade :
        (now : ℕ) (draw : Draw) (username email password : String) (users : Accounts)
        (d : AuthResponse)
        → IsKeyed users
        → (handle_register lib is_email bind_error now draw
            (some (signup username email password))
            users).0
          ≡ success d
        → (is_signup lib is_email bind_error username email password ≡ true)
          × ((a : Account) × IsMade lib email password d
                (handle_register lib is_email bind_error now draw
                  (some (signup username email password))
                  users).1
                a)
    unfolding handle_register
    handled-IsMade now draw username email password users d keyed e =
        elim (Bool-cases (is_signup lib is_email bind_error username email password)) [
          | inr other ↦ absurd (invalid_not_success _ users d (rw (other, handle_register) at e))
          | inl valid ↦ (
            valid,
            rw (valid, handle_register)
                (registered-IsMade now draw username email password users d keyed
                  (rw (valid, handle_register) at e)),
          )
        ]

    module _ (before after : List Event) (now later : ℕ) (draw : Draw)
        (username email password t : String) (d : AuthResponse) where
      -- the accounts when the user comes back
      abbrev pub met : Accounts
      met = run lib is_email bind_error after (
          step lib is_email bind_error (registers now draw (some (signup username email password)))
            (run lib is_email bind_error before []))

      -- Whoever has signed up can sign in with the same address and password, whatever requests came
      -- before and come between: the answer has the same user and a token signed for it. Later
      -- accounts get identifiers of their own.
      pub sign_up_then_in :
          (handle_register lib is_email bind_error now draw
              (some (signup username email password))
              (run lib is_email bind_error before [])).0
            ≡ success d
          → All (DrawsOther lib is_email bind_error d.user.id) after
          → lib.sign (claims_for later d.user) ≡ ok t
          → handle_login lib is_email bind_error later (some (credentials email password)) met
            ≡ (success (record { token = t; user = d.user }), met)
      unfolding handle_login login_valid step
      sign_up_then_in e fresh signed =
          let (valid, (a, made)) =
            handled-IsMade now draw username email password (run lib is_email bind_error before [])
              d (run_from lib is_email bind_error before [] (tt, tt)).0 e in
          let kept =
            run-Holds lib is_email bind_error a after _
              (subst (λ i. All (DrawsOther lib is_email bind_error i) after)
                (sym (ap (λ (u : User). u.id) made.user)) fresh)
              made.held in
          rw (enough username email password valid) (
            ap (λ r. answer lib is_email bind_error 401 (r, met))
              (login-IsMade later email password t met d a
                (record {
                  email_of = made.email_of;
                  secret = made.secret;
                  user = made.user;
                  held = kept;
                })
                signed))
