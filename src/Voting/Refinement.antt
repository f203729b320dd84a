-- ===== src/Voting/Refinement.antt =====
-- The service of votes (backend/internal/services/vote_service.go) implements a box of ballots.
use mathlib.Core.Option.{some-injective, none-ne-some}
use mathlib.Core.Path.{subst}
use poll.Prelude.{
  ℕ, String, ◌≡◌, refl, ap, sym, ◌∙◌, Bool, true, false, not, ◌&&◌, Option, none, some, List, [],
  ◌∷◌, ◌==◌, eq_iff, eq_refl, if◌then◌else◌, Assoc, value_at, value_at-put_self, inl, inr,
  Bool-cases, Option-cases,
}
use poll.Models.{Number, Poll}
use poll.Voting.{Server, add64, voters_of, is_member, voter_key, tally, or_else}
use poll.Voting.Casting.{casting, is_taken, is_ok, takes, vote_taken, refused, Counts}
use poll.Voting.Sums.{count-increment}
use poll.Voting.Tally.{taken, tally-some, votes_for, counts_after}
use poll.Voting.Voters.{
  Event, casts, looks, results_asked, writes, step, run, get_poll_voters, live_voters,
  writes_voters,
}
use poll.Voting.Ballots.{
  Ballot, voters, count, offers, accepts, box_step, box_run, Holds, has_option-texts,
  get_poll_votes, live_votes, writes_votes, writes_core, cast_elsewhere,
}
use poll.Polls.Core.{Core, core, core_at, core_if, get_poll-Keeps, live-Keeps, cast_vote-Keeps}

-- Whether a vote is taken, read from the core of the poll.
pub takes_core :
    (option_id key : String) (known : List String) (o : Option Poll) (k : Core)
    → core_if o ≡ some k
    → takes option_id key known o ≡ (k.3 && offers option_id k.4 && not (is_member key known))
takes_core option_id key known none k h = absurd (none-ne-some k h)
takes_core option_id key known (some p) k h =
    ap (λ b. p.is_active && b && not (is_member key known)) (has_option-texts option_id p.options)
    ∙ ap (λ (c : Core). c.3 && offers option_id c.4 && not (is_member key known))
        (some-injective (core p) k h)

module _ (percent : ℕ → ℕ → Number) (is_object_id : String → Bool) (q o : String) (base : ℕ)
    (k : Core) where
  -- what does not touch the counts, the voters and the core of the poll
  unchanged :
      (box : List Ballot) (s t : Server)
      → core_at q t.mem_polls ≡ core_at q s.mem_polls
      → value_at q t.mem_voters ≡ value_at q s.mem_voters
      → value_at q t.mem_votes ≡ value_at q s.mem_votes
      → Holds q o base k box s
      → Holds q o base k box t
  unchanged box s t same same_voters same_votes (at, known, (m, here, shown)) =
      (same ∙ at, ap (or_else []) same_voters ∙ known, (m, same_votes ∙ here, shown))

  module _ (option_id fp ip : String) (box : List Ballot) (s : Server) where
    abbrev after : Server
    after = (casting percent is_object_id q option_id fp ip s).1

    -- the service and the box take the same votes
    pub taken_accepts :
        Holds q o base k box s
        → is_taken percent is_object_id q option_id fp ip s
          ≡ accepts k option_id (voter_key fp ip) box
    taken_accepts (at, known, held) =
        takes_core option_id (voter_key fp ip) (voters_of q s) (value_at q s.mem_polls) k at
        ∙ ap (λ v. k.3 && offers option_id k.4 && not (is_member (voter_key fp ip) v)) known

    cast_refused :
        Holds q o base k box s
        → is_taken percent is_object_id q option_id fp ip s ≡ false
        → Holds q o base k box after
    cast_refused h t =
        let same = (refused percent is_object_id q option_id fp ip s t).1 in
        unchanged box s after (cast_vote-Keeps percent is_object_id q q option_id fp ip s)
          (ap (λ (c : Counts). value_at q c.1) same) (ap (λ (c : Counts). value_at q c.0) same) h

    -- A vote that is taken is counted on top of what the counter shows.
    pub cast_taken :
        (p : Poll)
        → core_at q s.mem_polls ≡ some k
        → voters_of q s ≡ voters box
        → votes_for q o p s ≡ count base o box
        → value_at q s.mem_polls ≡ some p
        → is_taken percent is_object_id q option_id fp ip s ≡ true
        → Holds q o base k (record { voter = voter_key fp ip; choice = option_id } ∷ box) after
    cast_taken p at known shown found t =
        let (votes, new_voters, total) = taken percent is_object_id q option_id fp ip s p found t in
        (
          cast_vote-Keeps percent is_object_id q q option_id fp ip s ∙ at,
          ap (λ m. or_else [] (value_at q m)) new_voters
              ∙ ap (or_else []) (value_at-put_self q _ s.mem_voters)
              ∙ ap (λ v. voter_key fp ip ∷ v) known,
          (
            counts_after percent is_object_id q option_id fp ip s p,
            votes,
            count-increment option_id o (tally q p s).0
                ∙ ap (λ n. if option_id == o then add64 n 1 else n) shown,
          ),
        )

    cast-Holds :
        Holds q o base k box s → Holds q o base k (box_step q k (casts q option_id fp ip) box) after
    cast-Holds h = elim (Bool-cases (is_taken percent is_object_id q option_id fp ip s)) [
      | inr t ↦ rw (eq_refl q, sym (taken_accepts h) ∙ t) (cast_refused h t)
      | inl t ↦ elim (Option-cases (value_at q s.mem_polls)) [
        | inl e ↦ absurd (none-ne-some k (sym (ap core_if e) ∙ h.0))
        | inr (p, e) ↦
            let (m, here, shown) = h.2 in
            rw (eq_refl q, sym (taken_accepts h) ∙ t)
              (cast_taken p h.0 h.1
                (ap (λ (c : Assoc ℕ × ℕ). or_else 0 (value_at o c.0))
                    (tally-some percent is_object_id q p m s here)
                  ∙ shown)
                e t)
      ]
    ]

  pub step-Holds :
      (e : Event) (box : List Ballot) (s : Server)
      → Holds q o base k box s
      → Holds q o base k (box_step q k e box) (step percent is_object_id e s)
  unfolding step
  step-Holds (casts poll_id option_id fp ip) box s h = elim (Bool-cases (poll_id == q)) [
    | inl same ↦
        subst
          (λ j.
            Holds q o base k (box_step q k (casts j option_id fp ip) box)
              (casting percent is_object_id j option_id fp ip s).1)
          (sym ((eq_iff poll_id q).0 same)) (cast-Holds option_id fp ip box s h)
    | inr other ↦
        let (votes, known) =
          cast_elsewhere percent is_object_id q poll_id option_id fp ip s other in
        rw other (
          unchanged box s (casting percent is_object_id poll_id option_id fp ip s).1
            (cast_vote-Keeps percent is_object_id q poll_id option_id fp ip s) known votes h)
  ]
  step-Holds (looks poll_id) box s h =
      unchanged box s (step percent is_object_id (looks poll_id) s)
        (get_poll-Keeps percent is_object_id q poll_id s)
        (ap (value_at q) (get_poll_voters percent is_object_id poll_id s))
        (ap (value_at q) (get_poll_votes percent is_object_id poll_id s)) h
  step-Holds (results_asked poll_id) box s h =
      unchanged box s (step percent is_object_id (results_asked poll_id) s)
        (live-Keeps percent is_object_id q poll_id s)
        (ap (value_at q) (live_voters percent is_object_id poll_id s))
        (ap (value_at q) (live_votes percent is_object_id poll_id s)) h
  step-Holds (writes n) box s h =
      unchanged box s (step percent is_object_id (writes n) s)
        (writes_core percent is_object_id q n s)
        (ap (value_at q) (writes_voters percent is_object_id n s))
        (ap (value_at q) (writes_votes percent is_object_id n s)) h

  pub run-Holds :
      (es : List Event) (box : List Ballot) (s : Server)
      → Holds q o base k box s
      → Holds q o base k (box_run q k es box) (run percent is_object_id es s)
  unfolding run
  run-Holds [] box s h = h
  run-Holds (e ∷ es) box s h =
      run-Holds es (box_step q k e box) (step percent is_object_id e s) (step-Holds e box s h)

module _ (percent : ℕ → ℕ → Number) (is_object_id : String → Bool) (q o : String) (p : Poll)
    (s : Server) (option_id fp ip : String) (es : List Event) where
  -- the box and the server after a first vote and any events
  abbrev pub box_after : List Ballot
  box_after = box_run q (core p) es (record { voter = voter_key fp ip; choice = option_id } ∷ [])

  abbrev pub server_after : Server
  server_after = run percent is_object_id es (casting percent is_object_id q option_id fp ip s).1

  -- From the first vote of a poll on, whatever votes, looks and goroutines of votes come, the service
  -- implements a box that holds one ballot for each voter: it knows the voters of the ballots, the
  -- counter of each option shows what the option had before and its ballots, the poll stays as it was
  -- made, and the next vote is taken exactly if the box takes its ballot.
  pub votes_refine :
      (next_option next_fp next_ip : String)
      → value_at q s.mem_polls ≡ some p
      → voters_of q s ≡ []
      → is_taken percent is_object_id q option_id fp ip s ≡ true
      → Holds q o (votes_for q o p s) (core p) box_after server_after
        × (is_ok (casting percent is_object_id q next_option next_fp next_ip server_after).0
            ≡ accepts (core p) next_option (voter_key next_fp next_ip) box_after)
  votes_refine next_option next_fp next_ip found fresh t =
      let base = votes_for q o p s in
      let h = run-Holds percent is_object_id q o base (core p) es _ _ (
        cast_taken percent is_object_id q o base (core p) option_id fp ip [] s p (ap core_if found)
          fresh refl found t) in
      (
        h,
        (vote_taken percent is_object_id q next_option next_fp next_ip server_after).0
            ∙ taken_accepts percent is_object_id q o base (core p) next_option next_fp next_ip
                box_after server_after h,
      )
