-- ===== src/Polls/Core.antt =====
-- What every operation of the services but two leaves alone in the polls: the core of a poll is what
-- its creator decides, without the counts and the percentages.
use poll.Prelude.{
  ℕ, String, ◌≡◌, refl, ap, sym, ◌∙◌, Bool, Option, none, some, List, [], ◌∷◌, map, arith, ◌==◌,
  eq_iff, Assoc, value_at, put, value_at-put_same, value_at-put_other, inl, inr, Bool-cases,
  Option-cases,
}
use poll.Models.{Number, PollOption, Poll, LivePollResult}
use poll.Api.Request.{Result, ok, err}
use poll.Voting.{
  Server, Sync, and_then, calculate_percentages, get_poll, get_live_results, publish, cast_on,
  cast_vote, record_vote, broadcast_local, start_sync, update_votes_in_db, with_votes, voter_key,
}
use poll.Voting.Casting.{get_poll_found, get_poll_missing}
use poll.Polls.{recalculate}

abbrev pub texts_of : List PollOption → List (String × String)
texts_of [] = []
texts_of (o ∷ os) = (o.id, o.text) ∷ texts_of os

abbrev pub Core : Type 0
Core = String × String × String × Bool × List (String × String)

abbrev pub core : Poll → Core
core p = (p.title, p.description, p.creator_id, p.is_active, texts_of p.options)

abbrev pub core_if : Option Poll → Option Core
core_if none = none
core_if (some p) = some (core p)

-- the core of a stored poll
abbrev pub core_at : String → Assoc Poll → Option Core
core_at id polls = core_if (value_at id polls)

pub core-put :
    (id at : String) (p q : Poll) (polls : Assoc Poll)
    → value_at at polls ≡ some p
    → core q ≡ core p
    → core_at id (put at q polls) ≡ core_at id polls
core-put id at p q polls h e = elim (Bool-cases (at == id)) [
  | inl same ↦
      ap core_if (value_at-put_same at id q polls same)
      ∙ ap some e
      ∙ sym (ap core_if h)
      ∙ ap (λ k. core_at k polls) ((eq_iff at id).0 same)
  | inr other ↦ ap core_if (value_at-put_other at id q polls other)
]

module _ (percent : ℕ → ℕ → Number) where
  texts-percentages :
      (f : PollOption → Number) (os : List PollOption)
      → texts_of (map (λ (o : PollOption). record o { percentage = f o }) os) ≡ texts_of os
  texts-percentages f [] = refl
  texts-percentages f (o ∷ os) = ground (arith, texts-percentages f os)

  pub core-calculate : (p : Poll) → core (calculate_percentages percent p) ≡ core p
  unfolding calculate_percentages
  core-calculate p =
      ap (λ t. (p.title, p.description, p.creator_id, p.is_active, t))
        (texts-percentages _ p.options)

  pub core-recalculate :
      (id : String) (test : Poll → Bool) (is_object_id : String → Bool) (polls : Assoc Poll)
      → core_at id (recalculate percent is_object_id test polls) ≡ core_at id polls
  unfolding value_at
  core-recalculate id test is_object_id [] = refl
  core-recalculate id test is_object_id (entry ∷ rest) = elim (Bool-cases (entry.0 == id)) [
    | inl same ↦ elim (Bool-cases (test entry.1)) [
      | inl hit ↦ rw (same, hit) (ap some (core-calculate entry.1))
      | inr other ↦ rw (same, other) refl
    ]
    | inr differ ↦ rw differ (core-recalculate id test is_object_id rest)
  ]

texts-votes : (m : Assoc ℕ) (os : List PollOption) → texts_of (map (with_votes m) os) ≡ texts_of os
texts-votes m [] = refl
texts-votes m (o ∷ os) = ground (arith, texts-votes m os)

pub core-update :
    (id : String) (y : Sync) (s : Server)
    → core_at id (update_votes_in_db y s).mem_polls ≡ core_at id s.mem_polls
unfolding update_votes_in_db
core-update id y s = elim (Option-cases (value_at y.poll_id s.mem_polls)) [
  | inl e ↦ rw (e, update_votes_in_db) refl
  | inr (p, e) ↦
      rw (e, update_votes_in_db)
        (core-put id y.poll_id p _ s.mem_polls e (
          ap (λ t. (p.title, p.description, p.creator_id, p.is_active, t))
            (texts-votes y.option_votes p.options)))
]

-- An operation that leaves the core of a poll alone, and one that goes on after it.
abbrev pub Keeps : String → {A : Type 0} → Server → Result A × Server → Type 0
Keeps id s r = core_at id r.1.mem_polls ≡ core_at id s.mem_polls

pub and_then-Keeps :
    (id : String) {A B : Type 0} (s : Server) (f : A → Server → Result B × Server)
    (r : Result A × Server)
    → Keeps id s r
    → ((a : A) (t : Server) → Keeps id t (f a t))
    → Keeps id s (and_then f r)
and_then-Keeps id s f (ok a, t) h keeps = keeps a t ∙ h
and_then-Keeps id s f (err m, t) h keeps = h

pub broadcast_polls :
    (poll_id : String) (live : LivePollResult) (s : Server)
    → (broadcast_local poll_id live s).mem_polls ≡ s.mem_polls
unfolding broadcast_local
broadcast_polls poll_id live s = elim (Option-cases (value_at poll_id s.subscribers)) [
  | inl e ↦ rw (e, broadcast_local) refl
  | inr (chs, e) ↦ rw (e, broadcast_local) refl
]

module _ (percent : ℕ → ℕ → Number) (is_object_id : String → Bool) (id : String) where
  pub get_poll-Keeps :
      (poll_id : String) (s : Server) → Keeps id s (get_poll percent is_object_id poll_id s)
  get_poll-Keeps poll_id s = elim (Option-cases (value_at poll_id s.mem_polls)) [
    | inl e ↦ rw (get_poll_missing percent is_object_id poll_id s e) refl
    | inr (p, e) ↦
        rw (get_poll_found percent is_object_id poll_id s p e)
          (core-put id poll_id p _ s.mem_polls e (core-calculate percent p))
  ]

  pub live-Keeps :
      (poll_id : String) (s : Server) → Keeps id s (get_live_results percent is_object_id poll_id s)
  unfolding get_live_results
  live-Keeps poll_id s = and_then-Keeps id s _ _ (get_poll-Keeps poll_id s) (λ p t. refl)

  publish-Keeps :
      (poll_id : String) (s : Server) → Keeps id s (publish percent is_object_id poll_id s)
  unfolding publish start_sync
  publish-Keeps poll_id s =
      and_then-Keeps id s _ _ (live-Keeps poll_id s)
        (λ live t. ap (core_at id) (broadcast_polls poll_id live t))

  cast_on-Keeps :
      (p : Poll) (poll_id option_id key : String) (s : Server)
      → Keeps id s (cast_on percent is_object_id p poll_id option_id key s)
  unfolding cast_on record_vote
  cast_on-Keeps p poll_id option_id key s =
      ground (arith, publish-Keeps poll_id (record_vote poll_id option_id key p s))

  pub cast_vote-Keeps :
      (poll_id option_id fp ip : String) (s : Server)
      → Keeps id s (cast_vote percent is_object_id poll_id option_id fp ip s)
  unfolding cast_vote
  cast_vote-Keeps poll_id option_id fp ip s =
      and_then-Keeps id s _ _ (get_poll-Keeps poll_id s)
        (λ p t. cast_on-Keeps p poll_id option_id (voter_key fp ip) t)
