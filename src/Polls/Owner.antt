-- ===== src/Polls/Owner.antt =====
-- A poll belongs to who made it: what other users and the voters do, in whatever order, changes
-- neither its texts nor whether it is open (backend/internal/handlers/poll_handler.go and the services
-- behind it).
use mathlib.Core.Option.{none-ne-some, some-injective}
use poll.Prelude.{
  ℕ, String, ◌≡◌, ◌≢◌, refl, ap, sym, ◌∙◌, Bool, false, Option, none, some, List, [], ◌∷◌, arith,
  ◌==◌, eq_iff, if◌then◌else◌, All, value_at, value_at-put_other, value_at-delete, ltb, length,
  is_empty, get_elem?, inl, inr, Bool-cases, Option-cases,
}
use poll.Models.{Number, PollOption, Poll}
use poll.Api.Request.{Payload, Result, ok, err, Response, success, failure, network_error}
use poll.Voting.{Server, and_then, get_poll, calculate_percentages}
use poll.Voting.Voters.{Event as VoteEvent, casts, looks, results_asked, writes, step as vote_step}
use poll.Polls.{
  Draw, is_own, create_poll, save_poll, list_user_polls, set_poll_status, set_status_of,
  delete_poll, delete_of, sanitize,
}
use poll.Polls.Binding.{CreatePollRequest, bind_create_poll}
use poll.Polls.Handler.{
  answer, create_bound, handle_create_poll, handle_get_poll, handle_list_my_polls, bind_status,
  set_bound, broadcast_of, handle_set_poll_status, handle_delete_poll,
}
use poll.Polls.Core.{
  Core, core, core_at, core_if, core-put, core-recalculate, Keeps, and_then-Keeps, get_poll-Keeps,
  core-calculate, live-Keeps, cast_vote-Keeps, core-update,
}
use poll.Voting.Casting.{get_poll_found, looked}
use poll.Polls.Requests.{Event, creates, opens, lists, sets, deletes, voting, step, run, IsForeign}

differ_eqb : (a b : String) → a ≢ b → a == b ≡ false
differ_eqb a b h = ground (arith, eq_iff a b)

module _ (percent : ℕ → ℕ → Number) (is_object_id : String → Bool) (go_lower : String → String)
    (bind_error : Option Payload → String) where
  module _ (id : String) where
    pub found_core :
        (k : Core) (s : Server)
        → core_at id s.mem_polls ≡ some k
        → (p : Poll) × (value_at id s.mem_polls ≡ some p) × (core p ≡ k)
    found_core k s h = elim (Option-cases (value_at id s.mem_polls)) [
      | inl e ↦ absurd (none-ne-some k (sym (ap core_if e) ∙ h))
      | inr (p, e) ↦ (p, e, some-injective (core p) k (sym (ap core_if e) ∙ h))
    ]

    -- An operation on a poll that is found keeps the core of `id` if it writes at its own poll only,
    -- and nothing where the user is not the creator.
    guarded-Keeps :
        {B : Type 0} (poll_id user : String) (f : Poll → Server → Result B × Server) (k : Core)
        (s : Server)
        → core_at id s.mem_polls ≡ some k
        → k.2 ≢ user
        → (poll_id == id ≡ false → (p : Poll) (t : Server) → Keeps id t (f p t))
        → ((p : Poll) (t : Server) → p.creator_id ≢ user → (f p t).1 ≡ t)
        → Keeps id s (and_then f (get_poll percent is_object_id poll_id s))
    guarded-Keeps poll_id user f k s h foreign elsewhere refused =
        elim (Bool-cases (poll_id == id)) [
          | inr other ↦
              and_then-Keeps id s f _ (get_poll-Keeps percent is_object_id id poll_id s)
                (elsewhere other)
          | inl same ↦
              let (p, at, same_core) = found_core k s h in
              let e : value_at poll_id s.mem_polls ≡ some p =
                ap (λ j. value_at j s.mem_polls) ((eq_iff poll_id id).0 same) ∙ at in
              let q = calculate_percentages percent p in
              let t = looked percent is_object_id poll_id p s in
              let theirs : q.creator_id ≢ user = λ c.
                foreign (sym (ap (λ (c : Core). c.2) (core-calculate percent p ∙ same_core)) ∙ c) in
              rw (get_poll_found percent is_object_id poll_id s p e) (
                ap (λ (r : Server). core_at id r.mem_polls) (refused q t theirs)
                ∙ core-put id poll_id p q s.mem_polls e (core-calculate percent p))
        ]

    set-Keeps :
        (poll_id user : String) (b : Bool) (k : Core) (s : Server)
        → core_at id s.mem_polls ≡ some k
        → k.2 ≢ user
        → Keeps id s (set_poll_status percent is_object_id poll_id user b s)
    unfolding set_poll_status set_status_of
    set-Keeps poll_id user b k s h foreign =
        guarded-Keeps poll_id user _ k s h foreign
          (λ other p t. elim (Bool-cases (p.creator_id == user)) [
            | inl own ↦ rw own (ap core_if (value_at-put_other poll_id id _ t.mem_polls other))
            | inr theirs ↦ rw theirs refl
          ])
          (λ p t differ. rw (differ_eqb p.creator_id user differ) refl)

    delete-Keeps :
        (poll_id user : String) (k : Core) (s : Server)
        → core_at id s.mem_polls ≡ some k
        → k.2 ≢ user
        → Keeps id s (delete_poll percent is_object_id poll_id user s)
    unfolding delete_poll delete_of
    delete-Keeps poll_id user k s h foreign =
        guarded-Keeps poll_id user _ k s h foreign
          (λ other p t. elim (Bool-cases (p.creator_id == user)) [
            | inl own ↦ rw own (ap core_if (value_at-delete poll_id id t.mem_polls ∙ rw other refl))
            | inr theirs ↦ rw theirs refl
          ])
          (λ p t differ. rw (differ_eqb p.creator_id user differ) refl)

    pub create-Keeps :
        (draw : Draw) (creator : String) (req : CreatePollRequest) (s : Server)
        → draw.poll_id ≢ id
        → Keeps id s (create_poll percent is_object_id go_lower draw creator req s)
    unfolding create_poll save_poll
    create-Keeps draw creator req s fresh =
        and_then-Keeps id {A = List PollOption} {B = Poll} s
          (save_poll draw (if is_object_id creator then go_lower creator else draw.spare_creator)
            req)
          (sanitize go_lower draw 0 [] req.options, s) refl
          (λ options t. elim (Bool-cases (ltb (length options) 2)) [
            | inl few ↦ rw few refl
            | inr enough ↦ rw enough (
                ap core_if (
                  value_at-put_other draw.poll_id id _ t.mem_polls
                    (differ_eqb draw.poll_id id fresh)))
          ])

    -- what a request does to the state is what its service does
    pub answer_state : {A : Type 0} (status : ℕ) (r : Result A × Server) → (answer status r).1 ≡ r.1
    answer_state status (ok a, s) = refl
    answer_state status (err m, s) = refl

    pub broadcast_state :
        (poll_id : String) (b : Bool) (r : Response Poll × Server)
        → (broadcast_of percent is_object_id go_lower bind_error poll_id b r).1 ≡ r.1
    broadcast_state poll_id b (success p, s) = refl
    broadcast_state poll_id b (failure n m, s) = refl
    broadcast_state poll_id b (network_error m, s) = refl

    pub vote_step-Keeps :
        (e : VoteEvent) (s : Server)
        → core_at id (vote_step percent is_object_id e s).mem_polls ≡ core_at id s.mem_polls
    unfolding vote_step
    vote_step-Keeps (casts poll_id option_id fp ip) s =
        cast_vote-Keeps percent is_object_id id poll_id option_id fp ip s
    vote_step-Keeps (looks poll_id) s = get_poll-Keeps percent is_object_id id poll_id s
    vote_step-Keeps (results_asked poll_id) s = live-Keeps percent is_object_id id poll_id s
    vote_step-Keeps (writes n) s = elim (Option-cases (get_elem? s.syncs n)) [
      | inl e ↦ rw (e, vote_step) refl
      | inr (y, e) ↦ rw (e, vote_step) (core-update id y s)
    ]

    create_bound_core :
        (k : Core) (draw : Draw) (user : String) (body : Option Payload)
        (o : Option CreatePollRequest) (s : Server)
        → draw.poll_id ≢ id
        → core_at id s.mem_polls ≡ some k
        → core_at id
            (create_bound percent is_object_id go_lower bind_error draw user body o s).1.mem_polls
          ≡ some k
    unfolding create_bound
    create_bound_core k draw user body none s fresh h = h
    create_bound_core k draw user body (some req) s fresh h =
        ap (λ (t : Server). core_at id t.mem_polls)
          (answer_state 400 (create_poll percent is_object_id go_lower draw user req s))
        ∙ create-Keeps draw user req s fresh
        ∙ h

    set_bound_core :
        (k : Core) (poll_id user : String) (o : Option Bool) (s : Server)
        → k.2 ≢ user
        → core_at id s.mem_polls ≡ some k
        → core_at id
            (set_bound percent is_object_id go_lower bind_error poll_id user o s).1.mem_polls
          ≡ some k
    unfolding set_bound
    set_bound_core k poll_id user none s f h = h
    set_bound_core k poll_id user (some b) s f h =
        ap (λ (t : Server). core_at id t.mem_polls)
          (broadcast_state poll_id b
              (answer 400 (set_poll_status percent is_object_id poll_id user b s))
            ∙ answer_state 400 (set_poll_status percent is_object_id poll_id user b s))
        ∙ set-Keeps poll_id user b k s h f
        ∙ h

    step_core :
        (k : Core) (e : Event) (s : Server)
        → IsForeign percent is_object_id go_lower bind_error id k.2 e
        → core_at id s.mem_polls ≡ some k
        → core_at id (step percent is_object_id go_lower bind_error e s).mem_polls ≡ some k
    unfolding step handle_create_poll create_bound handle_get_poll handle_list_my_polls
        list_user_polls handle_set_poll_status set_bound handle_delete_poll
    step_core k (creates draw none body) s fresh h = h
    step_core k (creates draw (some user) body) s fresh h =
        create_bound_core k draw user body (bind_create_poll body) s fresh h
    step_core k (opens poll_id) s f h = elim (Bool-cases (is_empty poll_id)) [
      | inl e ↦ rw (e, step) h
      | inr e ↦
          rw (e, step)
            (ap (λ (t : Server). core_at id t.mem_polls)
                (answer_state 404 (get_poll percent is_object_id poll_id s))
              ∙ get_poll-Keeps percent is_object_id id poll_id s
              ∙ h)
    ]
    step_core k (lists none) s f h = h
    step_core k (lists (some user)) s f h =
        core-recalculate percent id (is_own percent is_object_id user) is_object_id s.mem_polls ∙ h
    step_core k (sets poll_id none body) s f h = h
    step_core k (sets poll_id (some user) body) s f h =
        set_bound_core k poll_id user (bind_status body) s (λ e. f (ap some (sym e))) h
    step_core k (deletes poll_id none) s f h = h
    step_core k (deletes poll_id (some user)) s f h =
        ap (λ (t : Server). core_at id t.mem_polls)
          (answer_state 400 (delete_poll percent is_object_id poll_id user s))
        ∙ delete-Keeps poll_id user k s h (λ e. f (ap some (sym e)))
        ∙ h
    step_core k (voting e) s f h = vote_step-Keeps e s ∙ h

    pub run_core :
        (k : Core) (es : List Event) (s : Server)
        → All (IsForeign percent is_object_id go_lower bind_error id k.2) es
        → core_at id s.mem_polls ≡ some k
        → core_at id (run percent is_object_id go_lower bind_error es s).mem_polls ≡ some k
    unfolding run
    run_core k [] s f h = h
    run_core k (e ∷ es) s (f, fs) h =
        run_core k es (step percent is_object_id go_lower bind_error e s) fs (step_core k e s f h)

    -- A poll belongs to who made it: whatever the other users and the voters do, in whatever order,
    -- it keeps its title, its description, its options, its creator and its status, and is not
    -- deleted. A new poll gets an identifier of its own.
    pub poll_belongs :
        (p : Poll) (es : List Event) (s : Server)
        → value_at id s.mem_polls ≡ some p
        → All (IsForeign percent is_object_id go_lower bind_error id p.creator_id) es
        → core_at id (run percent is_object_id go_lower bind_error es s).mem_polls ≡ some (core p)
    poll_belongs p es s h f = run_core (core p) es s f (ap core_if h)
