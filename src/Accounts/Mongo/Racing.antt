-- ===== src/Accounts/Mongo/Racing.antt =====
-- Registrations with one address at the same time (backend/internal/services/auth_service.go with
-- MongoDB).
use poll.Prelude.{ℕ, String, ◌≡◌, refl, ap, ◌∙◌, Bool, true, false, some, List, [], ◌∷◌}
use poll.Api.Request.{err}
use poll.Accounts.{Libraries, Account, login_found}
use poll.Accounts.Mongo.{Users, IsUnique, insert_user, created, login}

-- What the other requests do between the look of a registration and its insertion: registrations that
-- insert accounts.
module _ (lib : Libraries) {D : Type 0} (db : Users D) where
  unfoldable pub insert_all : (now : ℕ) → List Account → D → D
  insert_all now [] d = d
  insert_all now (a ∷ accounts) d = insert_all now accounts (insert_user lib db now a d).1

module _ (lib : Libraries) {D : Type 0} (db : Users D) (unique : IsUnique db) (now : ℕ) where
  created_store : (a : Account) (r : Bool × D) → (created lib db now a r).1 ≡ r.1
  created_store a (true, d) = refl
  created_store a (false, d) = refl

  insert-find_one :
      (a b : Account) (email : String) (d : D)
      → db.find_one email d ≡ some b
      → db.find_one email (insert_user lib db now a d).1 ≡ some b
  unfolding insert_user
  insert-find_one a b email d h =
      ap (db.find_one email) (created_store a (db.insert_one a d))
      ∙ unique.others_stay a b email d h

  insert_all-find_one :
      (accounts : List Account) (b : Account) (email : String) (d : D)
      → db.find_one email d ≡ some b
      → db.find_one email (insert_all lib db now accounts d) ≡ some b
  unfolding insert_all
  insert_all-find_one [] b email d h = h
  insert_all-find_one (a ∷ accounts) b email d h =
      insert_all-find_one accounts b email (insert_user lib db now a d).1
        (insert-find_one a b email d h)

  insert_store : (a : Account) (e : D) → (insert_user lib db now a e).1 ≡ (db.insert_one a e).1
  unfolding insert_user
  insert_store a e = created_store a (db.insert_one a e)

  insert_taken :
      (a b : Account) (e : D)
      → db.find_one a.email e ≡ some b
      → insert_user lib db now a e ≡ (err "failed to create user account", e)
  unfolding insert_user
  insert_taken a b e h = ap (created lib db now a) (unique.taken_fails a b e h)

  -- Of the registrations with one address that have all found it free, the first that inserts its
  -- account keeps it: whatever the others insert in between, a later one is refused and changes
  -- nothing, and whoever signs in with the address is asked for the password of the first. The index
  -- on the addresses is unique.
  pub first_wins :
      (first later : Account) (others : List Account) (password : String) (d : D)
      → later.email ≡ first.email
      → (db.insert_one first d).0 ≡ true
      → let between = insert_all lib db now others (insert_user lib db now first d).1 in
        (insert_user lib db now later between ≡ (err "failed to create user account", between))
        × (login lib db now first.email password between
            ≡ login_found lib now password (some first))
  unfolding login
  first_wins first later others password d same inserted =
      let between = insert_all lib db now others (insert_user lib db now first d).1 in
      let kept = insert_all-find_one others first first.email (insert_user lib db now first d).1 (
        ap (db.find_one first.email) (insert_store first d)
        ∙ unique.inserted_found first d inserted) in
      (
        insert_taken later first between (ap (λ e. db.find_one e between) same ∙ kept),
        ap (login_found lib now password) kept,
      )
