-- ===== src/Polls/Mongo.antt =====
-- backend/internal/services/poll_service.go in a server with MongoDB. The collection `polls` is
-- outside: its calls are those of a record. `mem_polls` is only looked at for an identifier that is
-- none of MongoDB's.
pub mod Alike
pub mod Agreement
pub mod Races
pub mod Store
use poll.Prelude.{
  ℕ, String, ◌++◌, Bool, true, false, not, Option, none, some, List, [], ◌∷◌, map, ◌==◌, ltb,
  length, if◌then◌else◌, Assoc,
}
use poll.Models.{Number, PollOption, Poll}
use poll.Api.Request.{Result, ok, err}
use poll.Voting
use poll.Voting.{Server, and_then, or_else, calculate_percentages, with_votes}
use poll.Polls.{Draw, new_poll_of, sanitize}
use poll.Polls.Binding.{CreatePollRequest}

-- The calls that the service makes, by the state `D` of the database. Documents are found by their
-- identifiers in hexadecimal; a call that fails gives its error.
pub record Collection (D : Type 0) : Type 0 where
  pub find_one : (id : String) → D → Option Poll
  pub find_by_creator : (creator_id : String) → D → Result (List Poll)
  pub insert_one : Poll → D → Option String × D
  pub update_status : (id : String) → Bool → D → Option String × D
  pub delete_one : (id : String) → D → Option String × D
  pub replace_one : (id : String) → Poll → D → Option String × D

-- the memory of the service, and the database
pub record Depot (D : Type 0) : Type 0 where
  pub memory : Server
  pub store : D

-- a value, unless a call has failed
abbrev pub unless_failed : {A D : Type 0} → A → Server → Option String × D → Result A × Depot D
unless_failed a s (none, d) = (ok a, record { memory = s; store = d })
unless_failed a s (some m, d) = (err m, record { memory = s; store = d })

-- the counts of `UpdateVotesInDB`
abbrev pub with_counts : Assoc ℕ → ℕ → Poll → Poll
with_counts option_votes total_votes p = record p {
  options = map (with_votes option_votes) p.options;
  total_votes = total_votes;
}

-- `object_id` is `primitive.ObjectIDFromHex`, as the hexadecimal text of what it gives; with an error
-- it gives the identifier `nil_id`.
module _ {D : Type 0} (db : Collection D) (percent : ℕ → ℕ → Number)
    (object_id : String → Option String) (nil_id : String) where
  abbrev pub id_of : String → String
  id_of text = or_else nil_id (object_id text)

  abbrev pub in_memory : String → Depot D → Result Poll × Depot D
  in_memory poll_id x =
      let (a, s) = Voting.get_poll percent (λ i. false) poll_id x.memory in
      (a, record x { memory = s })

  abbrev pub found_or_not : Option Poll → Depot D → Result Poll × Depot D
  found_or_not none x = (err "poll not found", x)
  found_or_not (some p) x = (ok (calculate_percentages percent p), x)

  unfoldable pub get_poll : String → Depot D → Result Poll × Depot D
  get_poll poll_id x = elim (object_id poll_id) [
    | none ↦ in_memory poll_id x
    | some id ↦ found_or_not (db.find_one id x.store) x
  ]

  abbrev pub all_calculated : Result (List Poll) → Result (List Poll)
  all_calculated (ok ps) = ok (map (calculate_percentages percent) ps)
  all_calculated (err m) = err m

  unfoldable pub list_user_polls : String → Depot D → Result (List Poll)
  list_user_polls user_id x = elim (object_id user_id) [
    | none ↦ ok []
    | some id ↦ all_calculated (db.find_by_creator id x.store)
  ]

  unfoldable pub set_status_of :
      (poll_id creator_id : String) → Bool → Poll → Depot D → Result Poll × Depot D
  set_status_of poll_id creator_id is_active p x =
      if not (p.creator_id == creator_id)
      then (err "unauthorized: you do not own this poll", x)
      else unless_failed (calculate_percentages percent (record p { is_active = is_active }))
          x.memory (db.update_status (id_of poll_id) is_active x.store)

  unfoldable pub set_poll_status :
      (poll_id creator_id : String) → Bool → Depot D → Result Poll × Depot D
  unfolding get_poll set_status_of
  set_poll_status poll_id creator_id is_active x =
      and_then (set_status_of poll_id creator_id is_active) (get_poll poll_id x)

  unfoldable pub delete_of :
      (poll_id creator_id : String) → Poll → Depot D → Result (Unit {0}) × Depot D
  delete_of poll_id creator_id p x =
      if not (p.creator_id == creator_id)
      then (err "unauthorized: you do not own this poll", x)
      else unless_failed tt x.memory (db.delete_one (id_of poll_id) x.store)

  unfoldable pub delete_poll : (poll_id creator_id : String) → Depot D → Result (Unit {0}) × Depot D
  unfolding get_poll delete_of
  delete_poll poll_id creator_id x = and_then (delete_of poll_id creator_id) (get_poll poll_id x)

  -- the rest of `CreatePoll`, after its loop
  abbrev pub save_failed : Result Poll × Depot D → Result Poll × Depot D
  save_failed (ok p, x) = (ok p, x)
  save_failed (err m, x) = (err ("failed to save poll: " ++ m), x)

  unfoldable pub save_poll :
      Draw
      → (creator_id : String) → CreatePollRequest
      → List PollOption
      → Depot D
      → Result Poll × Depot D
  save_poll draw creator_id req options x =
      if ltb (length options) 2
      then (err "a poll must have at least 2 distinct non-empty options", x)
      else let p = new_poll_of draw creator_id req options in
        save_failed (unless_failed p x.memory (db.insert_one p x.store))

  unfoldable pub create_poll :
      (String → String)
      → Draw
      → (creator_id : String) → CreatePollRequest
      → Depot D
      → Result Poll × Depot D
  unfolding sanitize save_poll
  create_poll lower draw creator_id req x =
      and_then (save_poll draw (or_else draw.spare_creator (object_id creator_id)) req)
        (sanitize lower draw 0 [] req.options, x)

  -- `UpdateVotesInDB` reads the poll, and replaces it by one with the counts; its error is not looked
  -- at.
  unfoldable pub replace_votes : (id : String) → Assoc ℕ → ℕ → Poll → Depot D → Depot D
  replace_votes id option_votes total_votes p x = record x {
    store = (db.replace_one id (with_counts option_votes total_votes p) x.store).1;
  }

  abbrev pub update_found : (id : String) → Assoc ℕ → ℕ → Option Poll → Depot D → Depot D
  update_found id option_votes total_votes none x = x
  update_found id option_votes total_votes (some p) x =
      replace_votes id option_votes total_votes p x

  unfoldable pub update_votes_in_db : (poll_id : String) → Assoc ℕ → ℕ → Depot D → Depot D
  unfolding replace_votes
  update_votes_in_db poll_id option_votes total_votes x = elim (object_id poll_id) [
    | none ↦ x
    | some id ↦ update_found id option_votes total_votes (db.find_one id x.store) x
  ]
