-- ===== src/Polls/Refinement.antt =====
-- The services of polls and votes (backend/internal/services/{poll,vote}_service.go) implement the box of
-- a poll, with its creator's changes of status and its deletion.
use mathlib.Core.Path.{subst}
use mathlib.Core.Option.{none-ne-some}
use poll.Prelude.{
  ℕ, String, ◌≡◌, ◌≢◌, refl, ap, sym, ◌∙◌, Bool, true, false, Option, none, some, List, [], ◌∷◌,
  ◌==◌, eq_iff, if◌then◌else◌, All, Assoc, value_at, inl, inr, Bool-cases, is_empty,
}
use poll.Models.{Number, Poll}
use poll.Api.Request.{Payload}
use poll.Voting.{Server, voters_of, voter_key, or_else, get_poll}
use poll.Voting.Casting.{casting, is_taken, is_ok, takes, vote_taken, refused, Counts}
use poll.Voting.Tally.{votes_for}
use poll.Voting.Voters.{
  Event as VoteEvent, casts, looks, results_asked, writes, step as vote_step, run as vote_run,
  get_poll_voters, live_voters, writes_voters,
}
use poll.Voting.Ballots.{Ballot, get_poll_votes, live_votes, writes_votes, cast_elsewhere}
use poll.Voting.Refinement.{step-Holds, taken_accepts, votes_refine}
use poll.Polls.{Draw, create_poll, set_poll_status, delete_poll, list_user_polls, is_own}
use poll.Polls.Binding.{CreatePollRequest, bind_create_poll}
use poll.Polls.Handler.{
  answer, bind_status, create_bound, set_bound, handle_create_poll, handle_get_poll,
  handle_list_my_polls, handle_set_poll_status, handle_delete_poll,
}
use poll.Polls.Core.{Core, core, core_at, core_if, core-recalculate, get_poll-Keeps}
use poll.Polls.Requests.{Event, creates, opens, lists, sets, deletes, voting, step, run}
use poll.Polls.Owner.{answer_state, broadcast_state, create-Keeps, vote_step-Keeps}
use poll.Polls.Unvoted.{is_vote, spared}
use poll.Polls.Boxes.{
  Box, HoldsBox, set_by, request_step, request_run, box_accepts, set_anywhere, delete_anywhere,
}

same_if : {A : Type 0} (b : Bool) (c : A) → c ≡ (if b then c else c)
same_if true c = refl
same_if false c = refl

no_poll : (o : Option Poll) → core_if o ≡ none → o ≡ none
no_poll none h = refl
no_poll (some p) h = absurd (none-ne-some (core p) (sym h))

module _ (percent : ℕ → ℕ → Number) (is_object_id : String → Bool) (go_lower : String → String)
    (bind_error : Option Payload → String) (q : String) where
  -- a new poll gets an identifier of its own
  abbrev pub IsOther : Event → Type 0
  IsOther (creates draw user body) = draw.poll_id ≢ q
  IsOther _ = Unit

  abbrev after : Event → Server → Server
  after e s = step percent is_object_id go_lower bind_error e s

  core_created :
      (draw : Draw) (user : String) (body : Option Payload) (o : Option CreatePollRequest)
      (s : Server)
      → draw.poll_id ≢ q
      → core_at q
          (create_bound percent is_object_id go_lower bind_error draw user body o s).1.mem_polls
        ≡ core_at q s.mem_polls
  unfolding create_bound
  core_created draw user body none s fresh = refl
  core_created draw user body (some req) s fresh =
      ap (λ (t : Server). core_at q t.mem_polls)
        (answer_state percent is_object_id go_lower bind_error q 400
          (create_poll percent is_object_id go_lower draw user req s))
      ∙ create-Keeps percent is_object_id go_lower bind_error q draw user req s fresh

  core_set :
      (poll_id user : String) (o : Option Bool) (s : Server)
      → core_at q (set_bound percent is_object_id go_lower bind_error poll_id user o s).1.mem_polls
        ≡ (if poll_id == q
            then set_by (some user) o (core_at q s.mem_polls)
            else core_at q s.mem_polls)
  unfolding set_bound
  core_set poll_id user none s = same_if (poll_id == q) (core_at q s.mem_polls)
  core_set poll_id user (some b) s =
      let r = set_poll_status percent is_object_id poll_id user b s in
      ap (λ (t : Server). core_at q t.mem_polls)
        (broadcast_state percent is_object_id go_lower bind_error q poll_id b (answer 400 r)
          ∙ answer_state percent is_object_id go_lower bind_error q 400 r)
      ∙ set_anywhere percent is_object_id q poll_id user b s

  -- what the creator decides, after each event
  core_after :
      (e : Event) (box : List Ballot) (s : Server)
      → IsOther e
      → is_vote percent is_object_id go_lower bind_error e ≡ false
      → core_at q (after e s).mem_polls ≡ (request_step q e (core_at q s.mem_polls, box)).0
  unfolding step handle_create_poll handle_get_poll handle_list_my_polls list_user_polls
      handle_set_poll_status handle_delete_poll
  core_after (creates draw none body) box s fresh v = refl
  core_after (creates draw (some user) body) box s fresh v =
      core_created draw user body (bind_create_poll body) s fresh
  core_after (opens poll_id) box s fresh v = elim (Bool-cases (is_empty poll_id)) [
    | inl e ↦ rw (e, step) refl
    | inr e ↦
        rw (e, step)
          (ap (λ (t : Server). core_at q t.mem_polls)
              (answer_state percent is_object_id go_lower bind_error q 404
                (get_poll percent is_object_id poll_id s))
            ∙ get_poll-Keeps percent is_object_id q poll_id s)
  ]
  core_after (lists none) box s fresh v = refl
  core_after (lists (some user)) box s fresh v =
      core-recalculate percent q (is_own percent is_object_id user) is_object_id s.mem_polls
  core_after (sets poll_id none body) box s fresh v = same_if (poll_id == q) (core_at q s.mem_polls)
  core_after (sets poll_id (some user) body) box s fresh v =
      core_set poll_id user (bind_status body) s
  core_after (deletes poll_id none) box s fresh v = same_if (poll_id == q) (core_at q s.mem_polls)
  core_after (deletes poll_id (some user)) box s fresh v =
      ap (λ (t : Server). core_at q t.mem_polls)
        (answer_state percent is_object_id go_lower bind_error q 400
          (delete_poll percent is_object_id poll_id user s))
      ∙ delete_anywhere percent is_object_id q poll_id user s
  core_after (voting e) box s fresh v = cc

  box_after :
      (e : Event) (b : Box)
      → is_vote percent is_object_id go_lower bind_error e ≡ false
      → (request_step q e b).1 ≡ b.1
  box_after (creates draw user body) b v = refl
  box_after (opens poll_id) b v = refl
  box_after (lists user) b v = refl
  box_after (sets poll_id user body) b v = refl
  box_after (deletes poll_id user) b v = refl
  box_after (voting e) b v = cc

  -- A vote and what goes with it, for a poll that is not there.
  missing_votes :
      (e : VoteEvent) (s : Server)
      → value_at q s.mem_polls ≡ none
      → let t = vote_step percent is_object_id e s in
        (value_at q t.mem_voters ≡ value_at q s.mem_voters)
        × (value_at q t.mem_votes ≡ value_at q s.mem_votes)
  unfolding vote_step
  missing_votes (casts poll_id option_id fp ip) s h = elim (Bool-cases (poll_id == q)) [
    | inr other ↦
        let (votes, known) =
          cast_elsewhere percent is_object_id q poll_id option_id fp ip s other in
        (known, votes)
    | inl same ↦
        let e = (eq_iff poll_id q).0 same in
        let nothing : is_taken percent is_object_id poll_id option_id fp ip s ≡ false =
          ap (takes option_id (voter_key fp ip) (voters_of poll_id s))
            (ap (λ j. value_at j s.mem_polls) e ∙ h) in
        let kept_all = (refused percent is_object_id poll_id option_id fp ip s nothing).1 in
        (ap (λ (c : Counts). value_at q c.1) kept_all, ap (λ (c : Counts). value_at q c.0) kept_all)
  ]
  missing_votes (looks poll_id) s h = (
    ap (value_at q) (get_poll_voters percent is_object_id poll_id s),
    ap (value_at q) (get_poll_votes percent is_object_id poll_id s),
  )
  missing_votes (results_asked poll_id) s h = (
    ap (value_at q) (live_voters percent is_object_id poll_id s),
    ap (value_at q) (live_votes percent is_object_id poll_id s),
  )
  missing_votes (writes n) s h = (
    ap (value_at q) (writes_voters percent is_object_id n s),
    ap (value_at q) (writes_votes percent is_object_id n s),
  )

  module _ (o : String) (base : ℕ) where
    carry :
        (c c' : Option Core) (box : List Ballot) (s t : Server)
        → core_at q t.mem_polls ≡ c'
        → value_at q t.mem_voters ≡ value_at q s.mem_voters
        → value_at q t.mem_votes ≡ value_at q s.mem_votes
        → HoldsBox q o base (c, box) s
        → HoldsBox q o base (c', box) t
    carry c c' box s t now same_voters same_votes (at, known, (m, here, shown)) =
        (now, ap (or_else []) same_voters ∙ known, (m, same_votes ∙ here, shown))

    vote-HoldsBox :
        (e : VoteEvent) (b : Box) (s : Server)
        → HoldsBox q o base b s
        → HoldsBox q o base (request_step q (voting e) b) (vote_step percent is_object_id e s)
    vote-HoldsBox e (some k, box) s h = step-Holds percent is_object_id q o base k e box s h
    vote-HoldsBox e (none, box) s h =
        let same = missing_votes e s (no_poll (value_at q s.mem_polls) h.0) in
        carry none none box s (vote_step percent is_object_id e s)
          (vote_step-Keeps percent is_object_id go_lower bind_error q e s ∙ h.0) same.0 same.1 h

    other-HoldsBox :
        (e : Event) (b : Box) (s : Server)
        → IsOther e
        → is_vote percent is_object_id go_lower bind_error e ≡ false
        → HoldsBox q o base b s
        → HoldsBox q o base (request_step q e b) (after e s)
    other-HoldsBox e (c, box) s fresh v h =
        let same = spared percent is_object_id go_lower bind_error e s v in
        let now : core_at q (after e s).mem_polls ≡ (request_step q e (c, box)).0 =
          core_after e box s fresh v ∙ ap (λ k. (request_step q e (k, box)).0) h.0 in
        subst (λ bs. HoldsBox q o base ((request_step q e (c, box)).0, bs) (after e s))
          (sym (box_after e (c, box) v))
          (carry c (request_step q e (c, box)).0 box s (after e s) now
            (ap (λ (k : Assoc (Assoc ℕ) × Assoc (List String)). value_at q k.1) same)
            (ap (λ (k : Assoc (Assoc ℕ) × Assoc (List String)). value_at q k.0) same) h)

    step-HoldsBox :
        (e : Event) (b : Box) (s : Server)
        → IsOther e
        → HoldsBox q o base b s
        → HoldsBox q o base (request_step q e b) (after e s)
    unfolding step
    step-HoldsBox (voting e) b s fresh h = vote-HoldsBox e b s h
    step-HoldsBox (creates draw user body) b s fresh h =
        other-HoldsBox (creates draw user body) b s fresh refl h
    step-HoldsBox (opens poll_id) b s fresh h = other-HoldsBox (opens poll_id) b s fresh refl h
    step-HoldsBox (lists user) b s fresh h = other-HoldsBox (lists user) b s fresh refl h
    step-HoldsBox (sets poll_id user body) b s fresh h =
        other-HoldsBox (sets poll_id user body) b s fresh refl h
    step-HoldsBox (deletes poll_id user) b s fresh h =
        other-HoldsBox (deletes poll_id user) b s fresh refl h

    run-HoldsBox :
        (es : List Event) (b : Box) (s : Server)
        → All IsOther es
        → HoldsBox q o base b s
        → HoldsBox q o base (request_run q es b) (run percent is_object_id go_lower bind_error es s)
    unfolding run
    run-HoldsBox [] b s fresh h = h
    run-HoldsBox (e ∷ es) b s (f, fs) h =
        run-HoldsBox es (request_step q e b) (after e s) fs (step-HoldsBox e b s f h)

    -- the services and the box take the same votes
    accepted :
        (b : Box) (s : Server) (option_id fp ip : String)
        → HoldsBox q o base b s
        → is_ok (casting percent is_object_id q option_id fp ip s).0
          ≡ box_accepts option_id (voter_key fp ip) b
    accepted (some k, box) s option_id fp ip h =
        (vote_taken percent is_object_id q option_id fp ip s).0
        ∙ taken_accepts percent is_object_id q o base k option_id fp ip box s h
    accepted (none, box) s option_id fp ip h =
        (vote_taken percent is_object_id q option_id fp ip s).0
        ∙ ap (takes option_id (voter_key fp ip) (voters_of q s))
            (no_poll (value_at q s.mem_polls) h.0)

  module _ (o : String) (p : Poll) (s : Server) (option_id fp ip : String) (es : List Event) where
    -- the box and the server after a first vote and any requests
    abbrev pub box_later : Box
    box_later =
        request_run q es
          (some (core p), record { voter = voter_key fp ip; choice = option_id } ∷ [])

    abbrev pub server_later : Server
    server_later =
        run percent is_object_id go_lower bind_error es
          (casting percent is_object_id q option_id fp ip s).1

    -- In a server without Redis and MongoDB, from the first vote of a poll on, the services implement
    -- a box with one ballot for each voter, whatever votes, looks, goroutines of votes and requests to
    -- make, list, close, open and delete polls come, from anybody: the poll is as its creator's
    -- changes of status have left it, and gone if the creator has deleted it; the voters it knows are
    -- those of the ballots; the counter of each option shows what the option had before and its
    -- ballots; and the next vote is taken exactly if the box takes its ballot. A new poll gets an
    -- identifier of its own.
    pub polls_refine :
        (next_option next_fp next_ip : String)
        → value_at q s.mem_polls ≡ some p
        → voters_of q s ≡ []
        → is_taken percent is_object_id q option_id fp ip s ≡ true
        → All IsOther es
        → HoldsBox q o (votes_for q o p s) box_later server_later
          × (is_ok (casting percent is_object_id q next_option next_fp next_ip server_later).0
              ≡ box_accepts next_option (voter_key next_fp next_ip) box_later)
    unfolding vote_run
    polls_refine next_option next_fp next_ip found fresh t others =
        let base = votes_for q o p s in
        let first =
          (votes_refine percent is_object_id q o p s option_id fp ip [] next_option next_fp next_ip
            found fresh t).0 in
        let h = run-HoldsBox o base es _ _ others first in
        (h, accepted o base box_later server_later next_option next_fp next_ip h)
