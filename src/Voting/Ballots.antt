-- ===== src/Voting/Ballots.antt =====
-- What the service of votes promises for a poll, without its maps, channels and goroutines: a box of
-- ballots, one for each voter. `CastVote` of backend/internal/services/vote_service.go puts a ballot
-- into it, and nothing else changes it.
use poll.Prelude.{
  ℕ, String, ◌≡◌, refl, ap, ◌∙◌, Bool, false, not, ◌&&◌, ◌||◌, some, List, [], ◌∷◌, arith, ◌==◌,
  if◌then◌else◌, Assoc, value_at, value_at-put_other, inl, inr, Bool-cases, Option-cases, get_elem?,
}
use poll.Models.{Number, PollOption}
use poll.Voting.{
  Server, add64, voters_of, is_member, voter_key, has_option, or_else, get_poll, get_live_results,
  update_votes_in_db,
}
use poll.Voting.Casting.{casting, is_taken, refused, Counts, get_poll_found, get_poll_missing}
use poll.Voting.Tally.{taken, taken_votes}
use poll.Voting.Voters.{Event, casts, writes, step}
use poll.Polls.Core.{Core, core_at, texts_of, core-update}

pub record Ballot : Type 0 where
  pub voter : String
  pub choice : String

abbrev pub voters : List Ballot → List String
voters [] = []
voters (b ∷ box) = b.voter ∷ voters box

-- the votes for an option, on top of those that it had before
abbrev pub count : ℕ → String → List Ballot → ℕ
count base o [] = base
count base o (b ∷ box) = if b.choice == o then add64 (count base o box) 1 else count base o box

abbrev pub offers : String → List (String × String) → Bool
offers id [] = false
offers id (o ∷ os) = o.0 == id || offers id os

-- The box takes a ballot for an option of an open poll from a voter who has none in it.
abbrev pub accepts : Core → (option_id key : String) → List Ballot → Bool
accepts k option_id key box = k.3 && offers option_id k.4 && not (is_member key (voters box))

abbrev pub box_step : String → Core → Event → List Ballot → List Ballot
box_step q k (casts poll_id option_id fp ip) box =
    if poll_id == q && accepts k option_id (voter_key fp ip) box
    then record { voter = voter_key fp ip; choice = option_id } ∷ box
    else box
box_step q k _ box = box

abbrev pub box_run : String → Core → List Event → List Ballot → List Ballot
box_run q k [] box = box
box_run q k (e ∷ es) box = box_run q k es (box_step q k e box)

-- The server holds the box of the poll `q`: the poll is the one that its creator made, the voters of
-- the ballots are known, and the counter of the option `o` shows its ballots.
abbrev pub Holds : (q o : String) → ℕ → Core → List Ballot → Server → Type 0
Holds q o base k box s =
    (core_at q s.mem_polls ≡ some k)
    × (voters_of q s ≡ voters box)
    × ((m : Assoc ℕ) × (value_at q s.mem_votes ≡ some m)
        × (or_else 0 (value_at o m) ≡ count base o box))

pub has_option-texts :
    (id : String) (os : List PollOption) → has_option id os ≡ offers id (texts_of os)
has_option-texts id [] = refl
has_option-texts id (o ∷ os) = ground (arith, has_option-texts id os)

module _ (percent : ℕ → ℕ → Number) (is_object_id : String → Bool) where
  pub get_poll_votes :
      (poll_id : String) (s : Server)
      → (get_poll percent is_object_id poll_id s).1.mem_votes ≡ s.mem_votes
  get_poll_votes poll_id s = elim (Option-cases (value_at poll_id s.mem_polls)) [
    | inl e ↦ rw (get_poll_missing percent is_object_id poll_id s e) refl
    | inr (p, e) ↦ rw (get_poll_found percent is_object_id poll_id s p e) refl
  ]

  pub live_votes :
      (poll_id : String) (s : Server)
      → (get_live_results percent is_object_id poll_id s).1.mem_votes ≡ s.mem_votes
  unfolding get_live_results
  live_votes poll_id s = elim (Option-cases (value_at poll_id s.mem_polls)) [
    | inl e ↦ rw (get_poll_missing percent is_object_id poll_id s e) refl
    | inr (p, e) ↦ rw (get_poll_found percent is_object_id poll_id s p e) refl
  ]

  pub writes_votes :
      (n : ℕ) (s : Server) → (step percent is_object_id (writes n) s).mem_votes ≡ s.mem_votes
  unfolding step update_votes_in_db
  writes_votes n s = elim (Option-cases (get_elem? s.syncs n)) [
    | inl e ↦ rw (e, step) refl
    | inr (y, e) ↦ elim (Option-cases (value_at y.poll_id s.mem_polls)) [
      | inl f ↦ rw (e, step) (rw (f, update_votes_in_db) refl)
      | inr (p, f) ↦ rw (e, step) (rw (f, update_votes_in_db) refl)
    ]
  ]

  pub writes_core :
      (q : String) (n : ℕ) (s : Server)
      → core_at q (step percent is_object_id (writes n) s).mem_polls ≡ core_at q s.mem_polls
  unfolding step
  writes_core q n s = elim (Option-cases (get_elem? s.syncs n)) [
    | inl e ↦ rw (e, step) refl
    | inr (y, e) ↦ rw (e, step) (core-update q y s)
  ]

  -- A vote in another poll leaves the counts and the voters of `q` alone.
  pub cast_elsewhere :
      (q poll_id option_id fp ip : String) (s : Server)
      → poll_id == q ≡ false
      → let s' = (casting percent is_object_id poll_id option_id fp ip s).1 in
        (value_at q s'.mem_votes ≡ value_at q s.mem_votes)
        × (value_at q s'.mem_voters ≡ value_at q s.mem_voters)
  cast_elsewhere q poll_id option_id fp ip s other =
      elim (Bool-cases (is_taken percent is_object_id poll_id option_id fp ip s)) [
        | inr f ↦
            let same = (refused percent is_object_id poll_id option_id fp ip s f).1 in
            (ap (λ (c : Counts). value_at q c.0) same, ap (λ (c : Counts). value_at q c.1) same)
        | inl t ↦ elim (Option-cases (value_at poll_id s.mem_polls)) [
          | inl e ↦ absurd (ground arith)
          | inr (p, e) ↦ (
            ap (value_at q) (taken_votes percent is_object_id poll_id option_id fp ip s p e t)
                ∙ value_at-put_other poll_id q _ s.mem_votes other,
            ap (value_at q) (taken percent is_object_id poll_id option_id fp ip s p e t).1
                ∙ value_at-put_other poll_id q _ s.mem_voters other,
          )
        ]
      ]
