-- ===== src/Polls/Mongo/Alike.antt =====
-- A server with MongoDB answers what is asked of a poll as a server without it does
-- (backend/internal/services/poll_service.go).
use poll.Prelude.{
  ℕ, String, ◌≡◌, refl, ap, Bool, Option, none, some, List, [], ◌∷◌, map, Assoc, value_at,
}
use poll.Models.{Number, PollOption, Poll}
use poll.Api.Request.{Result}
use poll.Voting
use poll.Voting.{Server, Sync, and_then, calculate_percentages, with_votes, or_else}
use poll.Polls
use poll.Polls.{zero_percent}
use poll.Polls.Mongo as Mongo
use poll.Polls.Mongo.{Collection, Depot, with_counts}

-- a document as it is stored: `percentage` has the tag `bson:"-"`
unfoldable pub as_stored : Poll → Poll
as_stored p = record p {
  options = map (λ (o : PollOption). record o { percentage = zero_percent }) p.options;
}

abbrev pub with_status : Bool → Option Poll → Option Poll
with_status b none = none
with_status b (some p) = some (record p { is_active = b })

abbrev pub replaced : Poll → Option Poll → Option Poll
replaced p none = none
replaced p (some q) = some (as_stored p)

-- What the service relies on of a database that answers.
pub record Answers {D : Type 0} (db : Collection D) : Type 0 where
  pub update_answers : (id : String) (b : Bool) (d : D) → (db.update_status id b d).0 ≡ none
  pub find_updated :
      (id : String) (b : Bool) (d : D)
      → db.find_one id (db.update_status id b d).1 ≡ with_status b (db.find_one id d)
  pub delete_answers : (id : String) (d : D) → (db.delete_one id d).0 ≡ none
  pub find_deleted : (id : String) (d : D) → db.find_one id (db.delete_one id d).1 ≡ none
  pub find_replaced :
      (id : String) (p : Poll) (d : D)
      → db.find_one id (db.replace_one id p d).1 ≡ replaced p (db.find_one id d)

-- what is asked of a poll
pub data Event : Type 0 where
  looks : Event
  sets : (user : String) (is_active : Bool) → Event
  deletes : (user : String) → Event
  syncs : (option_votes : Assoc ℕ) (total_votes : ℕ) → Event

pub data Answer : Type 0 where
  shows : Result Poll → Answer
  deleted : Result (Unit {0}) → Answer
  silent : Answer

abbrev pub showing : {S : Type 0} → Result Poll × S → Answer × S
showing (a, s) = (shows a, s)

abbrev pub deleting : {S : Type 0} → Result (Unit {0}) × S → Answer × S
deleting (a, s) = (deleted a, s)

-- with MongoDB
module _ {D : Type 0} (db : Collection D) (percent : ℕ → ℕ → Number)
    (object_id : String → Option String) (nil_id q : String) where
  unfoldable pub mongo_step : Event → Depot D → Answer × Depot D
  mongo_step looks x = showing (Mongo.get_poll db percent object_id nil_id q x)
  mongo_step (sets user b) x =
      showing (Mongo.set_poll_status db percent object_id nil_id q user b x)
  mongo_step (deletes user) x = deleting (Mongo.delete_poll db percent object_id nil_id q user x)
  mongo_step (syncs v t) x = (silent, Mongo.update_votes_in_db db percent object_id nil_id q v t x)

  unfoldable pub mongo_answers : List Event → Depot D → List Answer
  unfolding mongo_step
  mongo_answers [] x = []
  mongo_answers (e ∷ es) x = (mongo_step e x).0 ∷ mongo_answers es (mongo_step e x).1

-- without it
module _ (percent : ℕ → ℕ → Number) (is_object_id : String → Bool) (q : String) where
  unfoldable pub memory_step : Event → Server → Answer × Server
  memory_step looks s = showing (Voting.get_poll percent is_object_id q s)
  memory_step (sets user b) s = showing (Polls.set_poll_status percent is_object_id q user b s)
  memory_step (deletes user) s = deleting (Polls.delete_poll percent is_object_id q user s)
  memory_step (syncs v t) s = (
    silent,
    Voting.update_votes_in_db (record { poll_id = q; option_votes = v; total_votes = t }) s,
  )

  unfoldable pub memory_answers : List Event → Server → List Answer
  unfolding memory_step
  memory_answers [] s = []
  memory_answers (e ∷ es) s = (memory_step e s).0 ∷ memory_answers es (memory_step e s).1

-- Percentages are computed from the votes alone.
module _ (percent : ℕ → ℕ → Number) where
  abbrev pub calc : Poll → Poll
  calc p = calculate_percentages percent p

  recalculated :
      (f : PollOption → Number) (g : PollOption → Number) (os : List PollOption)
      → ((o : PollOption) → g (record o { percentage = f o }) ≡ g o)
      → map
          (λ (o : PollOption). record o { percentage = g o })
          (map (λ (o : PollOption). record o { percentage = f o }) os)
        ≡ map (λ (o : PollOption). record o { percentage = g o }) os
  recalculated f g [] same = refl
  recalculated f g (o ∷ os) same = rw (same o, recalculated f g os same) refl

  pub calc-calc : (p : Poll) → calc (calc p) ≡ calc p
  unfolding calculate_percentages
  calc-calc p = ap (λ os. record p { options = os }) (recalculated _ _ p.options (λ o. refl))

  pub calc-as_stored : (p : Poll) → calc (as_stored p) ≡ calc p
  unfolding calculate_percentages as_stored
  calc-as_stored p = ap (λ os. record p { options = os }) (recalculated _ _ p.options (λ o. refl))

  pub calc-status :
      (b : Bool) (p : Poll)
      → calc (record (calc p) { is_active = b }) ≡ calc (record p { is_active = b })
  unfolding calculate_percentages
  calc-status b p =
      ap (λ os. record p { is_active = b; options = os }) (recalculated _ _ p.options (λ o. refl))

  votes_recalculated :
      (v : Assoc ℕ) (f : PollOption → Number) (g : PollOption → Number) (os : List PollOption)
      → ((o : PollOption) (n : ℕ)
          → g (record o { percentage = f o; votes = n }) ≡ g (record o { votes = n }))
      → map
          (λ (o : PollOption). record o { percentage = g o })
          (map (with_votes v) (map (λ (o : PollOption). record o { percentage = f o }) os))
        ≡ map (λ (o : PollOption). record o { percentage = g o }) (map (with_votes v) os)
  votes_recalculated v f g [] same = refl
  votes_recalculated v f g (o ∷ os) same =
      rw (same o (or_else o.votes (value_at o.id v)), votes_recalculated v f g os same) refl

  pub calc-with_counts :
      (v : Assoc ℕ) (t : ℕ) (p : Poll) → calc (with_counts v t (calc p)) ≡ calc (with_counts v t p)
  unfolding calculate_percentages
  calc-with_counts v t p =
      ap (λ os. record p { options = os; total_votes = t })
        (votes_recalculated v _ _ p.options (λ o n. refl))
