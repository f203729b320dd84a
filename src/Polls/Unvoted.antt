-- ===== src/Polls/Unvoted.antt =====
-- The requests of backend/internal/handlers/poll_handler.go leave what the service of votes keeps alone:
-- the counts and the voters.
use poll.Prelude.{
  ℕ, String, ◌≡◌, ◌⊎◌, refl, ap, ◌∙◌, Bool, true, false, Option, none, some, List, [], Assoc, ltb,
  length, ◌==◌, is_empty, if◌then◌else◌, inl, inr, Bool-cases,
}
use poll.Models.{Number, Poll, PollOption}
use poll.Api.Request.{Payload, Result, ok, err}
use poll.Voting.{Server, and_then, get_poll}
use poll.Voting.Voters.{Event as VoteEvent, get_poll_voters}
use poll.Voting.Ballots.{get_poll_votes}
use poll.Polls.{
  Draw, create_poll, save_poll, sanitize, set_poll_status, set_status_of, delete_poll, delete_of,
  list_user_polls,
}
use poll.Polls.Binding.{CreatePollRequest, bind_create_poll}
use poll.Polls.Handler.{
  answer, create_bound, handle_create_poll, handle_get_poll, handle_list_my_polls, bind_status,
  set_bound, handle_set_poll_status, handle_delete_poll,
}
use poll.Polls.Requests.{Event, creates, opens, lists, sets, deletes, voting, step}
use poll.Polls.Owner.{answer_state, broadcast_state}

-- the counts and the voters
abbrev pub kept : Server → Assoc (Assoc ℕ) × Assoc (List String)
kept s = (s.mem_votes, s.mem_voters)

abbrev pub Spares : {A : Type 0} → Server → Result A × Server → Type 0
Spares s r = kept r.1 ≡ kept s

and_then-Spares :
    {A B : Type 0} (s : Server) (f : A → Server → Result B × Server) (r : Result A × Server)
    → Spares s r
    → ((a : A) (t : Server) → Spares t (f a t))
    → Spares s (and_then f r)
and_then-Spares s f (ok a, t) h spares = spares a t ∙ h
and_then-Spares s f (err m, t) h spares = h

module _ (percent : ℕ → ℕ → Number) (is_object_id : String → Bool) (go_lower : String → String)
    (bind_error : Option Payload → String) where
  get_poll-Spares :
      (poll_id : String) (s : Server) → Spares s (get_poll percent is_object_id poll_id s)
  get_poll-Spares poll_id s =
      let votes = get_poll_votes percent is_object_id poll_id s in
      let voters = get_poll_voters percent is_object_id poll_id s in rw (votes, voters) refl

  set-Spares :
      (poll_id user : String) (b : Bool) (s : Server)
      → Spares s (set_poll_status percent is_object_id poll_id user b s)
  unfolding set_poll_status set_status_of
  set-Spares poll_id user b s =
      and_then-Spares s (set_status_of percent is_object_id poll_id user b)
        (get_poll percent is_object_id poll_id s) (get_poll-Spares poll_id s)
        (λ p t. elim (Bool-cases (p.creator_id == user)) [
          | inl own ↦ rw own refl
          | inr theirs ↦ rw theirs refl
        ])

  delete-Spares :
      (poll_id user : String) (s : Server)
      → Spares s (delete_poll percent is_object_id poll_id user s)
  unfolding delete_poll delete_of
  delete-Spares poll_id user s =
      and_then-Spares s (delete_of percent is_object_id poll_id user)
        (get_poll percent is_object_id poll_id s) (get_poll-Spares poll_id s)
        (λ p t. elim (Bool-cases (p.creator_id == user)) [
          | inl own ↦ rw own refl
          | inr theirs ↦ rw theirs refl
        ])

  create-Spares :
      (draw : Draw) (creator : String) (req : CreatePollRequest) (s : Server)
      → Spares s (create_poll percent is_object_id go_lower draw creator req s)
  unfolding create_poll save_poll
  create-Spares draw creator req s =
      and_then-Spares {A = List PollOption} {B = Poll} s
        (save_poll draw (if is_object_id creator then go_lower creator else draw.spare_creator) req)
        (sanitize go_lower draw 0 [] req.options, s) refl
        (λ options t. elim (Bool-cases (ltb (length options) 2)) [
          | inl few ↦ rw few refl
          | inr enough ↦ rw enough refl
        ])

  kept-create_bound :
      (draw : Draw) (user : String) (body : Option Payload) (o : Option CreatePollRequest)
      (s : Server)
      → kept (create_bound percent is_object_id go_lower bind_error draw user body o s).1 ≡ kept s
  unfolding create_bound
  kept-create_bound draw user body none s = refl
  kept-create_bound draw user body (some req) s =
      ap kept (
        answer_state percent is_object_id go_lower bind_error "" 400
          (create_poll percent is_object_id go_lower draw user req s))
      ∙ create-Spares draw user req s

  kept-set_bound :
      (poll_id user : String) (o : Option Bool) (s : Server)
      → kept (set_bound percent is_object_id go_lower bind_error poll_id user o s).1 ≡ kept s
  unfolding set_bound
  kept-set_bound poll_id user none s = refl
  kept-set_bound poll_id user (some b) s =
      ap kept (
        broadcast_state percent is_object_id go_lower bind_error "" poll_id b
          (answer 400 (set_poll_status percent is_object_id poll_id user b s))
        ∙ answer_state percent is_object_id go_lower bind_error "" 400
            (set_poll_status percent is_object_id poll_id user b s))
      ∙ set-Spares poll_id user b s

  -- An event is one of the service of votes, or it leaves the counts and the voters alone.
  pub step-kept :
      (e : Event) (s : Server)
      → ((d : VoteEvent) × (e ≡ voting d))
        ⊎ (kept (step percent is_object_id go_lower bind_error e s) ≡ kept s)
  unfolding step handle_create_poll handle_get_poll handle_list_my_polls list_user_polls
      handle_set_poll_status handle_delete_poll
  step-kept (creates draw none body) s = inr refl
  step-kept (creates draw (some user) body) s =
      inr (kept-create_bound draw user body (bind_create_poll body) s)
  step-kept (opens poll_id) s = inr (elim (Bool-cases (is_empty poll_id)) [
    | inl e ↦ rw (e, step) refl
    | inr e ↦
        rw (e, step)
          (ap kept (
              answer_state percent is_object_id go_lower bind_error "" 404
                (get_poll percent is_object_id poll_id s))
            ∙ get_poll-Spares poll_id s)
  ])
  step-kept (lists none) s = inr refl
  step-kept (lists (some user)) s = inr refl
  step-kept (sets poll_id none body) s = inr refl
  step-kept (sets poll_id (some user) body) s =
      inr (kept-set_bound poll_id user (bind_status body) s)
  step-kept (deletes poll_id none) s = inr refl
  step-kept (deletes poll_id (some user)) s = inr (
      ap kept (
        answer_state percent is_object_id go_lower bind_error "" 400
          (delete_poll percent is_object_id poll_id user s))
      ∙ delete-Spares poll_id user s)
  step-kept (voting e) s = inl (e, refl)

  abbrev pub is_vote : Event → Bool
  is_vote (voting e) = true
  is_vote _ = false

  pub spared :
      (e : Event) (s : Server)
      → is_vote e ≡ false
      → kept (step percent is_object_id go_lower bind_error e s) ≡ kept s
  spared e s h = elim (step-kept e s) [
    | inl (d, is) ↦ absurd (let v : is_vote e ≡ true = ap is_vote is in cc)
    | inr same ↦ same
  ]
