-- ===== src/Voting/Tally.antt =====
-- What a vote that is taken does to the tally (`CastVote` and `GetLiveResults` of
-- backend/internal/services/vote_service.go).
use poll.Prelude.{
  ℕ, String, ◌≡◌, refl, ap, ◌∙◌, Bool, true, Option, none, some, List, [], ◌∷◌, map, ◌==◌,
  if◌then◌else◌, Assoc, value_at, put, value_at-put_self, inl, inr, Option-cases,
}
use poll.Models.{Number, PollOption, Poll, LivePollResult}
use poll.Api.Request.{Result, ok, err}
use poll.Voting.{
  Server, add64, voters_of, voter_key, tally, seed, sum_of, sum_options, increment, record_vote,
  broadcast_local, start_sync, calculate_percentages, live_result, publish, or_else,
}
use poll.Voting.Sums.{HasDistinctIds, sum-increment, count-increment, sum-seed_start}
use poll.Voting.Casting.{casting, is_taken, looked, publish_found, found_taken, recorded_found}

pub broadcast_counts :
    (poll_id : String) (live : LivePollResult) (s : Server)
    → ((broadcast_local poll_id live s).mem_votes ≡ s.mem_votes)
      × ((broadcast_local poll_id live s).mem_voters ≡ s.mem_voters)
unfolding broadcast_local
broadcast_counts poll_id live s = elim (Option-cases (value_at poll_id s.subscribers)) [
  | inl e ↦ rw (e, broadcast_local) (refl, refl)
  | inr (chs, e) ↦ rw (e, broadcast_local) (refl, refl)
]

-- the votes for an option
abbrev pub votes_for : (poll_id option_id : String) → Poll → Server → ℕ
votes_for poll_id option_id p s = or_else 0 (value_at option_id (tally poll_id p s).0)

-- the total that an answer shows
abbrev pub total_shown : Result LivePollResult → Option ℕ
total_shown (ok live) = some live.total_votes
total_shown (err m) = none

module _ (percent : ℕ → ℕ → Number) (is_object_id : String → Bool) where
  seed-percentages :
      (f : PollOption → Number) (os : List PollOption) (m : Assoc ℕ)
      → seed (map (λ (o : PollOption). record o { percentage = f o }) os) m ≡ seed os m
  unfolding seed
  seed-percentages f [] m = refl
  seed-percentages f (o ∷ os) m = seed-percentages f os (put o.id o.votes m)

  seed-calculate :
      (p : Poll) → seed (calculate_percentages percent p).options [] ≡ seed p.options []
  unfolding calculate_percentages
  seed-calculate p = seed-percentages _ p.options []

  pub tally-some :
      (poll_id : String) (p : Poll) (counts : Assoc ℕ) (s : Server)
      → value_at poll_id s.mem_votes ≡ some counts
      → tally poll_id p s ≡ (counts, sum_of counts)
  unfolding tally
  tally-some poll_id p counts s h = rw (h, tally) refl

  pub tally-none :
      (poll_id : String) (p : Poll) (s : Server)
      → value_at poll_id s.mem_votes ≡ none
      → tally poll_id p s ≡ (seed p.options [], sum_options p.options)
  unfolding tally
  tally-none poll_id p s h = rw (h, tally) refl

  tally_counts :
      (poll_id : String) (p : Poll) (s : Server)
      → or_else (seed (calculate_percentages percent p).options []) (value_at poll_id s.mem_votes)
        ≡ (tally poll_id p s).0
  tally_counts poll_id p s = elim (Option-cases (value_at poll_id s.mem_votes)) [
    | inl e ↦ rw (e, tally-none poll_id p s e) (seed-calculate p)
    | inr (counts, e) ↦ rw (e, tally-some poll_id p counts s e) refl
  ]

  -- The publication changes neither the voters nor the counts, and shows the sum of the counts.
  publish_counts :
      (poll_id : String) (p : Poll) (counts : Assoc ℕ) (s : Server)
      → value_at poll_id s.mem_polls ≡ some p
      → value_at poll_id s.mem_votes ≡ some counts
      → let r = publish percent is_object_id poll_id s in
        (r.1.mem_votes ≡ s.mem_votes)
        × (r.1.mem_voters ≡ s.mem_voters)
        × (total_shown r.0 ≡ some (sum_of counts))
  unfolding start_sync live_result
  publish_counts poll_id p counts s h c = rw (publish_found percent is_object_id poll_id p s h) (
    (broadcast_counts poll_id _ (looked percent is_object_id poll_id p s)).0,
    (broadcast_counts poll_id _ (looked percent is_object_id poll_id p s)).1,
    ap (λ (t : Assoc ℕ × ℕ). some t.1)
        (tally-some poll_id (calculate_percentages percent p) counts
          (looked percent is_object_id poll_id p s) c),
  )

  module _ (poll_id option_id fp ip : String) (s : Server) where
    -- the counts of the poll after the vote
    abbrev pub counts_after : Poll → Assoc ℕ
    counts_after p = increment option_id (tally poll_id p s).0

    recorded :
        (p : Poll)
        → let s' =
            record_vote poll_id option_id
              (voter_key fp ip)
              (calculate_percentages percent p)
              (looked percent is_object_id poll_id p s) in
          (value_at poll_id s'.mem_votes ≡ some (counts_after p))
          × (s'.mem_voters ≡ put poll_id (voter_key fp ip ∷ voters_of poll_id s) s.mem_voters)
    unfolding record_vote
    recorded p = (
      value_at-put_self poll_id _ s.mem_votes
          ∙ ap (λ c. some (increment option_id c)) (tally_counts poll_id p s),
      refl,
    )

    -- what is left in the maps, and what the answer shows
    pub taken :
        (p : Poll)
        → value_at poll_id s.mem_polls ≡ some p
        → is_taken percent is_object_id poll_id option_id fp ip s ≡ true
        → let r = casting percent is_object_id poll_id option_id fp ip s in
          (value_at poll_id r.1.mem_votes ≡ some (counts_after p))
          × (r.1.mem_voters ≡ put poll_id (voter_key fp ip ∷ voters_of poll_id s) s.mem_voters)
          × (total_shown r.0 ≡ some (sum_of (counts_after p)))
    taken p h t =
        let (votes, voters) = recorded p in
        let (same_votes, same_voters, total) =
          publish_counts poll_id (calculate_percentages percent p) (counts_after p) _
            (recorded_found percent is_object_id poll_id option_id fp ip s p) votes in
        rw (found_taken percent is_object_id poll_id option_id fp ip s p h t)
          (ap (value_at poll_id) same_votes ∙ votes, same_voters ∙ voters, total)

    -- the counts of all polls after a vote that is taken
    pub taken_votes :
        (p : Poll)
        → value_at poll_id s.mem_polls ≡ some p
        → is_taken percent is_object_id poll_id option_id fp ip s ≡ true
        → (casting percent is_object_id poll_id option_id fp ip s).1.mem_votes
          ≡ put poll_id (counts_after p) s.mem_votes
    unfolding record_vote
    taken_votes p h t = rw (found_taken percent is_object_id poll_id option_id fp ip s p h t) (
        (publish_counts poll_id (calculate_percentages percent p) (counts_after p) _
          (recorded_found percent is_object_id poll_id option_id fp ip s p) (recorded p).0).0
        ∙ ap (λ c. put poll_id (increment option_id c) s.mem_votes) (tally_counts poll_id p s))

    sum_before :
        (p : Poll) → HasDistinctIds p.options → sum_of (tally poll_id p s).0 ≡ (tally poll_id p s).1
    sum_before p d = elim (Option-cases (value_at poll_id s.mem_votes)) [
      | inr (counts, e) ↦ rw (tally-some poll_id p counts s e) refl
      | inl e ↦ rw (tally-none poll_id p s e) (sum-seed_start p.options d)
    ]

    -- A vote that is taken adds one to the option that was chosen, and nothing to the others; it adds
    -- one to the total, which the answer shows; and it adds the voter to those who have voted. The
    -- options of the poll have different identifiers, and counts are `int64`.
    pub vote_counts :
        (p : Poll) (o : String)
        → value_at poll_id s.mem_polls ≡ some p
        → HasDistinctIds p.options
        → is_taken percent is_object_id poll_id option_id fp ip s ≡ true
        → let (answer, after) = casting percent is_object_id poll_id option_id fp ip s in
          (votes_for poll_id o p after ≡ (
            if option_id == o then add64 (votes_for poll_id o p s) 1 else votes_for poll_id o p s))
          × ((tally poll_id p after).1 ≡ add64 (tally poll_id p s).1 1)
          × (total_shown answer ≡ some (add64 (tally poll_id p s).1 1))
          × (voters_of poll_id after ≡ voter_key fp ip ∷ voters_of poll_id s)
    vote_counts p o h d t =
        let (votes, voters, total) = taken p h t in
        let after = (casting percent is_object_id poll_id option_id fp ip s).1 in
        let sum : sum_of (counts_after p) ≡ add64 (tally poll_id p s).1 1 =
          sum-increment option_id (tally poll_id p s).0 ∙ ap (λ n. add64 n 1) (sum_before p d) in
        let now = tally-some poll_id p (counts_after p) after votes in
        (
          ap (λ (c : Assoc ℕ × ℕ). or_else 0 (value_at o c.0)) now
              ∙ count-increment option_id o (tally poll_id p s).0,
          ap (λ (c : Assoc ℕ × ℕ). c.1) now ∙ sum,
          total ∙ ap some sum,
          ap (λ m. or_else [] (value_at poll_id m)) voters
              ∙ ap (or_else []) (value_at-put_self poll_id _ s.mem_voters),
        )
