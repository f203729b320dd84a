-- ===== src/Polls/Boxes.antt =====
-- What the services promise for a poll (backend/internal/services/{poll,vote}_service.go): a box of
-- ballots with what its creator decides, whatever requests come.
use poll.Prelude.{
  ℕ, String, ◌≡◌, refl, ap, sym, ◌∙◌, Bool, false, Option, none, some, List, [], ◌∷◌, ◌==◌, eq_iff,
  eq_refl, if◌then◌else◌, Assoc, value_at, value_at-put_self, value_at-put_other, value_at-delete,
  inl, inr, Bool-cases, Option-cases,
}
use poll.Models.{Number, Poll}
use poll.Voting.{Server, voters_of, or_else, get_poll, calculate_percentages}
use poll.Voting.Casting.{get_poll_found, get_poll_missing}
use poll.Voting.Voters.{Event as VoteEvent}
use poll.Voting.Ballots.{Ballot, voters, count, accepts, box_step}
use poll.Polls.{set_poll_status, set_status_of, delete_poll, delete_of}
use poll.Polls.Handler.{bind_status}
use poll.Polls.Core.{
  Core, core, core_at, core_if, core-calculate, and_then-Keeps, get_poll-Keeps, Keeps,
}
use poll.Polls.Requests.{Event, sets, deletes, voting}

-- The box of a poll: what its creator decides, unless it is deleted, and the ballots.
abbrev pub Box : Type 0
Box = Option Core × List Ballot

-- a change of status, and a deletion, which the creator alone may make
abbrev pub set_core : (user : String) → Bool → Option Core → Option Core
set_core user b none = none
set_core user b (some k) = some (if k.2 == user then (k.0, k.1, k.2, b, k.4) else k)

abbrev pub set_by : (user : Option String) → Option Bool → Option Core → Option Core
set_by (some user) (some b) c = set_core user b c
set_by none b c = c
set_by (some user) none c = c

abbrev pub delete_core : (user : String) → Option Core → Option Core
delete_core user none = none
delete_core user (some k) = if k.2 == user then none else some k

abbrev pub delete_by : (user : Option String) → Option Core → Option Core
delete_by none c = c
delete_by (some user) c = delete_core user c

abbrev pub vote_in : String → VoteEvent → Box → Box
vote_in q e (none, box) = (none, box)
vote_in q e (some k, box) = (some k, box_step q k e box)

abbrev pub request_step : String → Event → Box → Box
request_step q (voting e) b = vote_in q e b
request_step q (sets poll_id user body) (c, box) =
    (if poll_id == q then set_by user (bind_status body) c else c, box)
request_step q (deletes poll_id user) (c, box) = (if poll_id == q then delete_by user c else c, box)
request_step q _ b = b

abbrev pub request_run : String → List Event → Box → Box
request_run q [] b = b
request_run q (e ∷ es) b = request_run q es (request_step q e b)

abbrev pub box_accepts : (option_id key : String) → Box → Bool
box_accepts option_id key (none, box) = false
box_accepts option_id key (some k, box) = accepts k option_id key box

-- The server holds the box of the poll `q`: what the creator decides, the voters of the ballots, and
-- the counter of the option `o`, which had `base` votes before.
abbrev pub HoldsBox : (q o : String) → ℕ → Box → Server → Type 0
HoldsBox q o base (c, box) s =
    (core_at q s.mem_polls ≡ c)
    × (voters_of q s ≡ voters box)
    × ((m : Assoc ℕ) × (value_at q s.mem_votes ≡ some m)
        × (or_else 0 (value_at o m) ≡ count base o box))

module _ (percent : ℕ → ℕ → Number) (is_object_id : String → Bool) (q : String) where
  core_with :
      (p : Poll) (b : Bool)
      → core (
          calculate_percentages percent
            (record (calculate_percentages percent p) { is_active = b }))
        ≡ (p.title, p.description, p.creator_id, b, (core p).4)
  core_with p b =
      core-calculate percent (record (calculate_percentages percent p) { is_active = b })
      ∙ ap (λ (c : Core). (c.0, c.1, c.2, b, c.4)) (core-calculate percent p)

  set_found :
      (p : Poll) (user : String) (b : Bool) (s : Server)
      → value_at q s.mem_polls ≡ some p
      → core_at q (set_poll_status percent is_object_id q user b s).1.mem_polls
        ≡ set_core user b (some (core p))
  unfolding set_poll_status set_status_of calculate_percentages
  set_found p user b s h = elim (Bool-cases (p.creator_id == user)) [
    | inl own ↦
        rw (get_poll_found percent is_object_id q s p h)
          (rw own (ap core_if (value_at-put_self q _ _) ∙ ap some (core_with p b)))
    | inr theirs ↦
        rw (get_poll_found percent is_object_id q s p h)
          (rw theirs (ap core_if (value_at-put_self q _ _) ∙ ap some (core-calculate percent p)))
  ]

  set_here :
      (user : String) (b : Bool) (s : Server)
      → core_at q (set_poll_status percent is_object_id q user b s).1.mem_polls
        ≡ set_core user b (core_at q s.mem_polls)
  unfolding set_poll_status
  set_here user b s = elim (Option-cases (value_at q s.mem_polls)) [
    | inl e ↦ rw (get_poll_missing percent is_object_id q s e) (rw e refl)
    | inr (p, e) ↦ set_found p user b s e ∙ ap (set_core user b) (ap core_if (sym e))
  ]

  delete_found :
      (p : Poll) (user : String) (s : Server)
      → value_at q s.mem_polls ≡ some p
      → core_at q (delete_poll percent is_object_id q user s).1.mem_polls
        ≡ delete_core user (some (core p))
  unfolding delete_poll delete_of calculate_percentages
  delete_found p user s h = elim (Bool-cases (p.creator_id == user)) [
    | inl own ↦
        rw (get_poll_found percent is_object_id q s p h)
          (rw own (ap core_if (value_at-delete q q _) ∙ rw (eq_refl q) refl))
    | inr theirs ↦
        rw (get_poll_found percent is_object_id q s p h)
          (rw theirs (ap core_if (value_at-put_self q _ _) ∙ ap some (core-calculate percent p)))
  ]

  delete_here :
      (user : String) (s : Server)
      → core_at q (delete_poll percent is_object_id q user s).1.mem_polls
        ≡ delete_core user (core_at q s.mem_polls)
  unfolding delete_poll
  delete_here user s = elim (Option-cases (value_at q s.mem_polls)) [
    | inl e ↦ rw (get_poll_missing percent is_object_id q s e) (rw e refl)
    | inr (p, e) ↦ delete_found p user s e ∙ ap (delete_core user) (ap core_if (sym e))
  ]

  set_elsewhere :
      (poll_id user : String) (b : Bool) (s : Server)
      → poll_id == q ≡ false
      → Keeps q s (set_poll_status percent is_object_id poll_id user b s)
  unfolding set_poll_status set_status_of
  set_elsewhere poll_id user b s other =
      and_then-Keeps q s (set_status_of percent is_object_id poll_id user b)
        (get_poll percent is_object_id poll_id s) (get_poll-Keeps percent is_object_id q poll_id s)
        (λ p t. elim (Bool-cases (p.creator_id == user)) [
          | inl own ↦ rw own (ap core_if (value_at-put_other poll_id q _ t.mem_polls other))
          | inr theirs ↦ rw theirs refl
        ])

  delete_elsewhere :
      (poll_id user : String) (s : Server)
      → poll_id == q ≡ false
      → Keeps q s (delete_poll percent is_object_id poll_id user s)
  unfolding delete_poll delete_of
  delete_elsewhere poll_id user s other =
      and_then-Keeps q s (delete_of percent is_object_id poll_id user)
        (get_poll percent is_object_id poll_id s) (get_poll-Keeps percent is_object_id q poll_id s)
        (λ p t. elim (Bool-cases (p.creator_id == user)) [
          | inl own ↦ rw own (ap core_if (value_at-delete poll_id q t.mem_polls ∙ rw other refl))
          | inr theirs ↦ rw theirs refl
        ])

  -- what a change of status, and a deletion, make of the poll
  pub set_anywhere :
      (poll_id user : String) (b : Bool) (s : Server)
      → core_at q (set_poll_status percent is_object_id poll_id user b s).1.mem_polls
        ≡ (if poll_id == q then set_core user b (core_at q s.mem_polls) else core_at q s.mem_polls)
  set_anywhere poll_id user b s = elim (Bool-cases (poll_id == q)) [
    | inr other ↦ rw other (set_elsewhere poll_id user b s other)
    | inl same ↦ rw same (
        ap (λ j. core_at q (set_poll_status percent is_object_id j user b s).1.mem_polls)
          ((eq_iff poll_id q).0 same)
        ∙ set_here user b s)
  ]

  pub delete_anywhere :
      (poll_id user : String) (s : Server)
      → core_at q (delete_poll percent is_object_id poll_id user s).1.mem_polls
        ≡ (if poll_id == q then delete_core user (core_at q s.mem_polls) else core_at q s.mem_polls)
  delete_anywhere poll_id user s = elim (Bool-cases (poll_id == q)) [
    | inr other ↦ rw other (delete_elsewhere poll_id user s other)
    | inl same ↦ rw same (
        ap (λ j. core_at q (delete_poll percent is_object_id j user s).1.mem_polls)
          ((eq_iff poll_id q).0 same)
        ∙ delete_here user s)
  ]
