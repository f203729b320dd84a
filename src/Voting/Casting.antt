-- ===== src/Voting/Casting.antt =====
-- When a vote is taken (`CastVote` of backend/internal/services/vote_service.go), and that nobody
-- votes twice.
use poll.Prelude.{
  ℕ, String, ◌≡◌, refl, ap, sym, ◌∙◌, Bool, true, false, not, ◌&&◌, Option, none, some, List, [],
  ◌∷◌, map, eq_iff, arith, if◌then◌else◌, Assoc, value_at, put, value_at-put, ◌⊎◌, inl, inr,
  Bool-cases, Option-cases,
}
use poll.Models.{Number, PollOption, Poll, LivePollResult}
use poll.Api.Request.{Result, ok, err}
use poll.Voting.{
  Server, Sync, Channel, voters_of, is_member, voter_key, has_option, record_vote, broadcast_local,
  start_sync, calculate_percentages, get_poll, live_result, publish, cast_on, cast_vote,
}

abbrev pub is_ok : {A : Type 0} → Result A → Bool
is_ok (ok a) = true
is_ok (err m) = false

-- the parts of the server that a vote is about
abbrev pub Counts : Type 0
Counts = Assoc (Assoc ℕ) × Assoc (List String) × Assoc (List Channel) × List Sync

abbrev pub counts : Server → Counts
counts s = (s.mem_votes, s.mem_voters, s.subscribers, s.syncs)

-- whether the poll that an identifier stands for may get this vote
abbrev pub takes : (option_id key : String) → List String → Option Poll → Bool
takes option_id key voters none = false
takes option_id key voters (some p) =
    p.is_active && has_option option_id p.options && not (is_member key voters)

module _ (percent : ℕ → ℕ → Number) (is_object_id : String → Bool) where
  has_option-percentages :
      (f : PollOption → Number) (id : String) (os : List PollOption)
      → has_option id (map (λ (o : PollOption). record o { percentage = f o }) os)
        ≡ has_option id os
  has_option-percentages f id [] = refl
  has_option-percentages f id (o ∷ os) = ground (arith, has_option-percentages f id os)

  -- the server after a look at a poll: its percentages are computed anew
  abbrev pub looked : String → Poll → Server → Server
  looked poll_id p s = record s {
    mem_polls = put poll_id (calculate_percentages percent p) s.mem_polls;
  }

  pub get_poll_found :
      (poll_id : String) (s : Server) (p : Poll)
      → value_at poll_id s.mem_polls ≡ some p
      → get_poll percent is_object_id poll_id s
        ≡ (ok (calculate_percentages percent p), looked poll_id p s)
  unfolding get_poll
  get_poll_found poll_id s p h = rw (h, get_poll) refl

  pub get_poll_missing :
      (poll_id : String) (s : Server)
      → value_at poll_id s.mem_polls ≡ none
      → get_poll percent is_object_id poll_id s
        ≡ (err (if is_object_id poll_id then "poll not found" else "invalid poll ID format"), s)
  unfolding get_poll
  get_poll_missing poll_id s h = rw (h, get_poll) refl

  cast_vote_found :
      (poll_id option_id fp ip : String) (s : Server) (p : Poll)
      → value_at poll_id s.mem_polls ≡ some p
      → cast_vote percent is_object_id poll_id option_id fp ip s
        ≡ cast_on percent is_object_id
            (calculate_percentages percent p)
            poll_id
            option_id
            (voter_key fp ip)
            (looked poll_id p s)
  unfolding cast_vote
  cast_vote_found poll_id option_id fp ip s p h = rw (get_poll_found poll_id s p h) refl

  pub publish_found :
      (poll_id : String) (p : Poll) (s : Server)
      → value_at poll_id s.mem_polls ≡ some p
      → let s' = looked poll_id p s in
        let live = live_result percent poll_id (calculate_percentages percent p) s' in
        publish percent is_object_id poll_id s
        ≡ (ok live, start_sync poll_id live (broadcast_local poll_id live s'))
  unfolding publish
  publish_found poll_id p s h = rw (get_poll_found poll_id s p h) refl

  has_option-calculate :
      (id : String) (p : Poll)
      → has_option id (calculate_percentages percent p).options ≡ has_option id p.options
  unfolding calculate_percentages
  has_option-calculate id p = has_option-percentages _ id p.options

  module _ (poll_id option_id key : String) where
    cast_on_taken :
        (p : Poll) (s : Server)
        → takes option_id key (voters_of poll_id s) (some p) ≡ true
        → cast_on percent is_object_id p poll_id option_id key s
          ≡ publish percent is_object_id poll_id (record_vote poll_id option_id key p s)
    unfolding cast_on
    cast_on_taken p s h = ground arith

    cast_on_refused :
        (p : Poll) (s : Server)
        → takes option_id key (voters_of poll_id s) (some p) ≡ false
        → (is_ok (cast_on percent is_object_id p poll_id option_id key s).0 ≡ false)
          × ((cast_on percent is_object_id p poll_id option_id key s).1 ≡ s)
    unfolding cast_on
    cast_on_refused p s h = ground arith

  pub takes_calculate :
      (option_id key : String) (voters : List String) (p : Poll)
      → takes option_id key voters (some (calculate_percentages percent p))
        ≡ takes option_id key voters (some p)
  unfolding calculate_percentages
  takes_calculate option_id key voters p =
      ap (λ b. p.is_active && b && not (is_member key voters)) (has_option-calculate option_id p)

  module _ (poll_id option_id fp ip : String) (s : Server) where
    abbrev pub casting : Result LivePollResult × Server
    casting = cast_vote percent is_object_id poll_id option_id fp ip s

    abbrev pub is_taken : Bool
    is_taken =
        takes option_id (voter_key fp ip) (voters_of poll_id s) (value_at poll_id s.mem_polls)

    pub found_taken :
        (p : Poll)
        → value_at poll_id s.mem_polls ≡ some p
        → is_taken ≡ true
        → casting
          ≡ publish percent is_object_id poll_id (
              record_vote poll_id option_id
                (voter_key fp ip)
                (calculate_percentages percent p)
                (looked poll_id p s))
    found_taken p h t =
        cast_vote_found poll_id option_id fp ip s p h
        ∙ cast_on_taken poll_id option_id (voter_key fp ip) _ (looked poll_id p s) (
            takes_calculate option_id (voter_key fp ip) (voters_of poll_id s) p
            ∙ sym (ap (takes option_id (voter_key fp ip) (voters_of poll_id s)) h)
            ∙ t)

    -- the poll that a vote was taken for, and the server after the vote
    pub recorded_found :
        (p : Poll)
        → value_at poll_id
            (record_vote poll_id option_id
              (voter_key fp ip)
              (calculate_percentages percent p)
              (looked poll_id p s)).mem_polls
          ≡ some (calculate_percentages percent p)
    unfolding record_vote
    recorded_found p = ground (
      arith,
      eq_iff poll_id poll_id,
      value_at-put poll_id poll_id (calculate_percentages percent p) s.mem_polls,
    )

    accepted :
        (p : Poll)
        → value_at poll_id s.mem_polls ≡ some p
        → is_taken ≡ true
        → is_ok casting.0 ≡ true
    accepted p h t = rw (found_taken p h t) (
        ap (λ (r : Result LivePollResult × Server). is_ok r.0)
          (publish_found poll_id (calculate_percentages percent p) _ (recorded_found p)))

    refused_found :
        (p : Poll)
        → value_at poll_id s.mem_polls ≡ some p
        → is_taken ≡ false
        → (is_ok casting.0 ≡ false) × (counts casting.1 ≡ counts s)
    refused_found p h t =
        let (bad, same) =
          cast_on_refused poll_id option_id (voter_key fp ip) (calculate_percentages percent p)
            (looked poll_id p s)
            (takes_calculate option_id (voter_key fp ip) (voters_of poll_id s) p
              ∙ sym (ap (takes option_id (voter_key fp ip) (voters_of poll_id s)) h)
              ∙ t) in
        rw (cast_vote_found poll_id option_id fp ip s p h) (bad, ap counts same)

    refused_missing :
        value_at poll_id s.mem_polls ≡ none
        → (is_ok casting.0 ≡ false) × (counts casting.1 ≡ counts s)
    unfolding cast_vote
    refused_missing h = rw (get_poll_missing poll_id s h) (refl, refl)

    pub refused : is_taken ≡ false → (is_ok casting.0 ≡ false) × (counts casting.1 ≡ counts s)
    refused t = elim (Option-cases (value_at poll_id s.mem_polls)) [
      | inl e ↦ refused_missing e
      | inr (p, e) ↦ refused_found p e t
    ]

    -- A vote is taken exactly if the poll is there and open, has the option, and the voter has not
    -- voted in it; otherwise no vote is counted, no voter remembered, nothing sent to the
    -- subscribers, and no goroutine started.
    pub vote_taken :
        (is_ok casting.0 ≡ is_taken) × ((is_taken ≡ true) ⊎ (counts casting.1 ≡ counts s))
    vote_taken = elim (Bool-cases is_taken) [
      | inr t ↦ let (bad, same) = refused t in (bad ∙ sym t, inr same)
      | inl t ↦ elim (Option-cases (value_at poll_id s.mem_polls)) [
        | inl e ↦ absurd (ground arith)
        | inr (p, e) ↦ (accepted p e t ∙ sym t, inl t)
      ]
    ]
