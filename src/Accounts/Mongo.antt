-- ===== src/Accounts/Mongo.antt =====
-- `Register` and `Login` of backend/internal/services/auth_service.go in a server with MongoDB. The
-- collection `users` is outside: its calls are those of a record. `Register` looks for the address and
-- then inserts, two calls with whatever other requests do in between.
pub mod Racing
pub mod Store
use poll.Prelude.{ℕ, String, ◌≡◌, Bool, true, false, Option, none, some}
use poll.Models.{AuthResponse}
use poll.Api.Request.{Result, ok, err}
use poll.Accounts.{Libraries, Account, Draw, account_of, generate_token, respond_with, login_found}

-- The calls by the state `D` of the database; `insert_one` says whether it succeeds.
pub record Users (D : Type 0) : Type 0 where
  pub find_one : (email : String) → D → Option Account
  pub insert_one : Account → D → Bool × D

-- What the service relies on: the index on `email` is unique (`initMongoIndexes` of
-- backend/internal/database/db.go), so that an address that is taken cannot be inserted again.
pub record IsUnique {D : Type 0} (db : Users D) : Type 0 where
  pub taken_fails :
      (a b : Account) (d : D) → db.find_one a.email d ≡ some b → db.insert_one a d ≡ (false, d)
  pub inserted_found :
      (a : Account) (d : D)
      → (db.insert_one a d).0 ≡ true
      → db.find_one a.email (db.insert_one a d).1 ≡ some a
  pub others_stay :
      (a b : Account) (email : String) (d : D)
      → db.find_one email d ≡ some b
      → db.find_one email (db.insert_one a d).1 ≡ some b

module _ (lib : Libraries) {D : Type 0} (db : Users D) where
  -- a registration whose address was free when it looked
  abbrev pub created : (now : ℕ) → Account → Bool × D → Result AuthResponse × D
  created now a (false, d) = (err "failed to create user account", d)
  created now a (true, d) = (respond_with lib a (generate_token lib now a), d)

  unfoldable pub insert_user : (now : ℕ) → Account → D → Result AuthResponse × D
  insert_user now a d = created now a (db.insert_one a d)

  abbrev pub insert_if_free : (now : ℕ) → Account → Option Account → D → Result AuthResponse × D
  insert_if_free now a (some existing) d = (err "user with this email already exists", d)
  insert_if_free now a none d = insert_user now a d

  unfoldable pub register_hashed :
      (now : ℕ) → Draw → (username email : String) → Option String → D → Result AuthResponse × D
  unfolding insert_user
  register_hashed now draw username email none d = (err "failed to hash password", d)
  register_hashed now draw username email (some hashed) d =
      insert_if_free now (account_of lib draw username email hashed) (db.find_one email d) d

  unfoldable pub register :
      (now : ℕ) → Draw → (username email password : String) → D → Result AuthResponse × D
  unfolding register_hashed
  register now draw username email password d =
      register_hashed now draw username email (lib.hash draw.salt password) d

  unfoldable pub login : (now : ℕ) → (email password : String) → D → Result AuthResponse
  unfolding login_found
  login now email password d = login_found lib now password (db.find_one email d)
