-- ===== src/Accounts/Keeping.antt =====
-- What the accounts of backend/internal/services/auth_service.go go through: requests to the handlers
-- of backend/internal/handlers/auth_handler.go, one after the other.
use mathlib.Core.Option.{none-ne-some}
use mathlib.Core.Path.{subst}
use poll.Prelude.{
  ℕ, String, ◌≡◌, ◌≢◌, refl, ap, sym, ◌∙◌, Bool, false, Option, none, some, List, [], ◌∷◌, arith,
  ◌==◌, eq_iff, All, put, Bool-cases, inl, inr,
}
use poll.Models.{AuthResponse}
use poll.Api.Request.{Payload, signup, credentials, Result, ok, err}
use poll.Accounts.{
  Account, Accounts, Libraries, Draw, find_email, account_of, add_account, register_hashed,
  register, login, answer, handle_register, login_valid, handle_login, is_signup,
}
use poll.Accounts.Emails.{
  IsKeyed, HaveOwnEmails, put-HaveOwnEmails, put-IsKeyed, find_email-put_other,
}

-- A request to the handlers at a time.
pub data Event : Type 0 where
  registers : (now : ℕ) → Draw → Option Payload → Event
  logs_in : (now : ℕ) → Option Payload → Event

module _ (lib : Libraries) (is_email : String → Bool) (bind_error : Option Payload → String) where
  unfoldable pub step : Event → Accounts → Accounts
  step (registers now draw body) users =
      (handle_register lib is_email bind_error now draw body users).1
  step (logs_in now body) users = (handle_login lib is_email bind_error now body users).1

  unfoldable pub run : List Event → Accounts → Accounts
  unfolding step
  run [] users = users
  run (e ∷ es) users = run es (step e users)

  answer_state :
      (status : ℕ) (r : Result AuthResponse × Accounts)
      → (answer lib is_email bind_error status r).1 ≡ r.1
  answer_state status (ok d, users) = refl
  answer_state status (err m, users) = refl

  -- What a sign-up does to the accounts, for a property that a refused one keeps.
  added-Keeps :
      (P : Accounts → Type 0) (now : ℕ) (a : Account) (users : Accounts) (found : Option Account)
      → find_email a.email users ≡ found
      → P users
      → (find_email a.email users ≡ none → P (put a.id a users))
      → P (add_account lib now a users found).1
  unfolding add_account
  added-Keeps P now a users none e h f = f e
  added-Keeps P now a users (some b) e h f = h

  hashed-Keeps :
      (P : Accounts → Type 0) (now : ℕ) (draw : Draw) (username email : String) (users : Accounts)
      (hashed : Option String)
      → P users
      → ((a : Account) → a.id ≡ draw.id → find_email a.email users ≡ none → P (put a.id a users))
      → P (register_hashed lib now draw username email users hashed).1
  unfolding register_hashed
  hashed-Keeps P now draw username email users none h f = h
  hashed-Keeps P now draw username email users (some hashed) h f =
      let a = account_of lib draw username email hashed in
      added-Keeps P now a users (find_email email users) refl h (f a refl)

  -- the identifier that a request may give to a new account
  abbrev pub DrawsOther : String → Event → Type 0
  DrawsOther id (registers now draw body) = draw.id ≢ id
  DrawsOther id (logs_in now body) = Unit

  register-Keeps :
      (P : Accounts → Type 0) (now : ℕ) (draw : Draw) (body : Option Payload) (users : Accounts)
      → P users
      → ((a : Account) → a.id ≡ draw.id → find_email a.email users ≡ none → P (put a.id a users))
      → P (handle_register lib is_email bind_error now draw body users).1
  unfolding handle_register register
  register-Keeps P now draw (some (signup username email password)) users h f =
      elim (Bool-cases (is_signup lib is_email bind_error username email password)) [
        | inl valid ↦
            rw (valid, handle_register)
              (subst P (sym (answer_state 400 _))
                (hashed-Keeps P now draw username email users (lib.hash draw.salt password) h f))
        | inr other ↦ rw (other, handle_register) h
      ]
  register-Keeps P now draw _ users h f = h

  login-state :
      (now : ℕ) (body : Option Payload) (users : Accounts)
      → (handle_login lib is_email bind_error now body users).1 ≡ users
  unfolding handle_login login_valid
  login-state now none users = refl
  login-state now (some (credentials email password)) users =
      ground (arith, answer_state 401 (login lib now email password users, users))
  login-state now (some (signup username email password)) users =
      ground (arith, answer_state 401 (login lib now email password users, users))
  login-state now (some _) users = refl

  -- The accounts stand under their identifiers, and each has an e-mail address of its own.
  abbrev pub AreSound : Accounts → Type 0
  AreSound users = IsKeyed users × HaveOwnEmails users

  step-AreSound : (e : Event) (users : Accounts) → AreSound users → AreSound (step e users)
  unfolding step
  step-AreSound (registers now draw body) users (keyed, own) =
      register-Keeps AreSound now draw body users (keyed, own)
        (λ a e h. (put-IsKeyed a users keyed, put-HaveOwnEmails a users h own))
  step-AreSound (logs_in now body) users h = subst AreSound (sym (login-state now body users)) h

  pub run_from : (es : List Event) (users : Accounts) → AreSound users → AreSound (run es users)
  unfolding run
  run_from [] users h = h
  run_from (e ∷ es) users h = run_from es (step e users) (step-AreSound e users h)

  -- However many requests come, in whatever order, no two accounts have the same e-mail address, and
  -- each account stands under its identifier.
  pub own_emails : (es : List Event) → IsKeyed (run es []) × HaveOwnEmails (run es [])
  own_emails es = run_from es [] (tt, tt)

  -- The account that a sign-in with the address of `a` finds.
  abbrev pub Holds : Account → Accounts → Type 0
  Holds a users = IsKeyed users × (find_email a.email users ≡ some a)

  step-Holds :
      (a : Account) (e : Event) (users : Accounts)
      → DrawsOther a.id e
      → Holds a users
      → Holds a (step e users)
  unfolding step
  step-Holds a (registers now draw body) users fresh (keyed, at) =
      register-Keeps (Holds a) now draw body users (keyed, at)
        (λ b i h. (
          put-IsKeyed b users keyed,
          find_email-put_other a b users keyed (λ e. fresh (sym i ∙ e)) (not_found a b users at h)
              at,
        ))
    where
      not_found :
          (a b : Account) (users : Accounts)
          → find_email a.email users ≡ some a
          → find_email b.email users ≡ none
          → b.email == a.email ≡ false
      not_found a b users at h = elim (Bool-cases (b.email == a.email)) [
        | inl e ↦ absurd (
            none-ne-some a
              (sym h ∙ ap (λ m. find_email m users) ((eq_iff b.email a.email).0 e) ∙ at))
        | inr e ↦ e
      ]
  step-Holds a (logs_in now body) users fresh h =
      subst (Holds a) (sym (login-state now body users)) h

  pub run-Holds :
      (a : Account) (es : List Event) (users : Accounts)
      → All (DrawsOther a.id) es
      → Holds a users
      → Holds a (run es users)
  unfolding run
  run-Holds a [] users f h = h
  run-Holds a (e ∷ es) users (f, fs) h = run-Holds a es (step e users) fs (step-Holds a e users f h)
