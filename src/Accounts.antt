-- ===== src/Accounts.antt =====
-- backend/internal/services/auth_service.go in a server without MongoDB, with the handlers of
-- backend/internal/handlers/auth_handler.go. Password hashes and tokens are made by libraries.
pub mod Middleware
pub mod Signin
pub mod Emails
pub mod Keeping
pub mod Return
pub mod Mongo
pub mod Tests
use poll.Prelude.{
  ℕ, ◌+◌, ◌*◌, String, ◌++◌, Bool, true, false, ◌||◌, ◌&&◌, Option, none, some, List, [], ◌∷◌, ◌==◌,
  if◌then◌else◌, Assoc, put, leb, is_empty,
}
use poll.Models.{User, AuthResponse}
use poll.Api.Request.{Payload, signup, credentials, Result, ok, err, Response, success, failure}
use poll.Polls.Space.{rune_count}

-- `models.User`, without the date
pub record Account : Type 0 where
  pub id : String
  pub username : String
  pub email : String
  pub password : String

-- The claims of a token; times are seconds.
pub record Claims : Type 0 where
  pub sub : String
  pub username : String
  pub email : String
  pub exp : ℕ
  pub iat : ℕ

-- What the libraries do: `bcrypt.GenerateFromPassword` with a salt, `bcrypt.CompareHashAndPassword`,
-- the signature of `jwt`, and `jwt.Parse` at a time, with the check of the method and of the validity.
pub record Libraries : Type 0 where
  pub hash : (salt password : String) → Option String
  pub matches : (hashed password : String) → Bool
  pub sign : Claims → Result String
  pub parse : (now : ℕ) → String → Option Claims

-- the new identifier and the salt of a call of `Register`
pub record Draw : Type 0 where
  pub id : String
  pub salt : String

abbrev pub Accounts : Type 0
Accounts = Assoc Account

-- The account with an e-mail address. Go ranges over its map in no order of its own: the first one
-- that it meets.
unfoldable pub find_email : String → Accounts → Option Account
find_email email [] = none
find_email email (entry ∷ rest) =
    if entry.1.email == email then some entry.1 else find_email email rest

-- a week, in seconds
abbrev pub week : ℕ
week = 7 * 24 * 3600

abbrev pub claims_of : (now : ℕ) → Account → Claims
claims_of now a = record {
  sub = a.id;
  username = a.username;
  email = a.email;
  exp = now + week;
  iat = now;
}

abbrev pub user_of : Account → User
user_of a = record { id = a.id; username = a.username; email = a.email }

module _ (lib : Libraries) where
  -- `generateToken`
  unfoldable pub generate_token : (now : ℕ) → Account → Result String
  generate_token now a = lib.sign (claims_of now a)

  -- the answer with a token, or the error of the signature
  abbrev pub respond_with : Account → Result String → Result AuthResponse
  respond_with a (ok t) = ok (record { token = t; user = user_of a })
  respond_with a (err m) = err m

  abbrev pub account_of : Draw → (username email hashed : String) → Account
  account_of draw username email hashed = record {
    id = draw.id;
    username = username;
    email = email;
    password = hashed;
  }

  -- `Register` after the password is hashed
  unfoldable pub add_account :
      (now : ℕ) → Account → Accounts → Option Account → Result AuthResponse × Accounts
  unfolding generate_token
  add_account now a users (some taken) = (err "user with this email already exists", users)
  add_account now a users none = (respond_with a (generate_token now a), put a.id a users)

  unfoldable pub register_hashed :
      (now : ℕ)
      → Draw
      → (username email : String) → Accounts
      → Option String
      → Result AuthResponse × Accounts
  unfolding add_account find_email
  register_hashed now draw username email users none = (err "failed to hash password", users)
  register_hashed now draw username email users (some hashed) =
      add_account now (account_of draw username email hashed) users (find_email email users)

  unfoldable pub register :
      (now : ℕ)
      → Draw
      → (username email password : String) → Accounts
      → Result AuthResponse × Accounts
  unfolding register_hashed
  register now draw username email password users =
      register_hashed now draw username email users (lib.hash draw.salt password)

  -- `Login` after the look for the account
  unfoldable pub login_found :
      (now : ℕ) → (password : String) → Option Account → Result AuthResponse
  unfolding generate_token
  login_found now password none = err "invalid email or password"
  login_found now password (some a) =
      if lib.matches a.password password
      then respond_with a (generate_token now a)
      else err "invalid email or password"

  unfoldable pub login : (now : ℕ) → (email password : String) → Accounts → Result AuthResponse
  unfolding login_found find_email
  login now email password users = login_found now password (find_email email users)

  -- The handlers. `is_email` is the validator's test of an address, and `bind_error` its message.
  module _ (is_email : String → Bool) (bind_error : Option Payload → String) where
    abbrev pub is_signup : (username email password : String) → Bool
    is_signup username email password =
        leb 3 (rune_count username)
        && leb (rune_count username) 50
        && is_email email
        && leb 6 (rune_count password)
        && leb (rune_count password) 100

    abbrev pub answer : ℕ → Result AuthResponse × Accounts → Response AuthResponse × Accounts
    answer status (ok d, users) = (success d, users)
    answer status (err m, users) = (failure status (some m), users)

    abbrev pub invalid : Option Payload → Accounts → Response AuthResponse × Accounts
    invalid body users = (failure 400 (some ("Validation failed: " ++ bind_error body)), users)

    unfoldable pub handle_register :
        (now : ℕ) → Draw → Option Payload → Accounts → Response AuthResponse × Accounts
    unfolding register
    handle_register now draw (some (signup username email password)) users =
        if is_signup username email password
        then answer 400 (register now draw username email password users)
        else invalid (some (signup username email password)) users
    handle_register now draw body users = invalid body users

    unfoldable pub login_valid :
        (now : ℕ) → (email password : String) → Accounts → Response AuthResponse × Accounts
    unfolding login
    login_valid now email password users = answer 401 (login now email password users, users)

    abbrev pub is_login : (email password : String) → Bool
    is_login email password = is_email email && leb 1 (rune_count password)

    -- A body of the other kind has the fields of a login, too.
    unfoldable pub handle_login :
        (now : ℕ) → Option Payload → Accounts → Response AuthResponse × Accounts
    unfolding login_valid
    handle_login now (some (credentials email password)) users =
        if is_login email password
        then login_valid now email password users
        else invalid (some (credentials email password)) users
    handle_login now (some (signup username email password)) users =
        if is_login email password
        then login_valid now email password users
        else invalid (some (signup username email password)) users
    handle_login now body users = invalid body users
