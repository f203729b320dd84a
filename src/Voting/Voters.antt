-- ===== src/Voting/Voters.antt =====
-- Nobody votes twice (`CastVote` of backend/internal/services/vote_service.go): a voter who has voted
-- stays known, whatever the server does next.
use poll.Prelude.{
  ℕ, String, ◌≡◌, refl, ap, ◌∙◌, Bool, true, false, ◌||◌, Option, none, some, List, [], ◌∷◌, eq_iff,
  arith, Assoc, value_at, put, value_at-put, value_at-put_self, eq_refl, inl, inr, Bool-cases,
  Option-cases, get_elem?,
}
use poll.Models.{Number, Poll}
use poll.Voting.{
  Server, voters_of, is_member, voter_key, or_else, get_poll, get_live_results, cast_vote,
  update_votes_in_db,
}
use poll.Voting.Casting.{
  casting, is_taken, is_ok, takes, refused, counts, Counts, get_poll_found, get_poll_missing,
}
use poll.Voting.Tally.{taken}

-- What the server does: a vote, a look at a poll or at its results, a goroutine of an earlier vote
-- in whatever order.
pub data Event : Type 0 where
  casts : (poll_id option_id fingerprint client_ip : String) → Event
  looks results_asked : (poll_id : String) → Event
  writes : (sync : ℕ) → Event

module _ (percent : ℕ → ℕ → Number) (is_object_id : String → Bool) where
  unfoldable pub step : Event → Server → Server
  step (casts poll_id option_id fp ip) s =
      (cast_vote percent is_object_id poll_id option_id fp ip s).1
  step (looks poll_id) s = (get_poll percent is_object_id poll_id s).1
  step (results_asked poll_id) s = (get_live_results percent is_object_id poll_id s).1
  step (writes n) s = elim (get_elem? s.syncs n) [ none ↦ s | some y ↦ update_votes_in_db y s ]

  unfoldable pub run : List Event → Server → Server
  unfolding step
  run [] s = s
  run (e ∷ es) s = run es (step e s)

  pub get_poll_voters :
      (poll_id : String) (s : Server)
      → (get_poll percent is_object_id poll_id s).1.mem_voters ≡ s.mem_voters
  unfolding get_poll
  get_poll_voters poll_id s = elim (Option-cases (value_at poll_id s.mem_polls)) [
    | inl e ↦ rw (e, get_poll) refl
    | inr (p, e) ↦ rw (e, get_poll) refl
  ]

  pub live_voters :
      (poll_id : String) (s : Server)
      → (get_live_results percent is_object_id poll_id s).1.mem_voters ≡ s.mem_voters
  unfolding get_live_results
  live_voters poll_id s = elim (Option-cases (value_at poll_id s.mem_polls)) [
    | inl e ↦ rw (get_poll_missing percent is_object_id poll_id s e) refl
    | inr (p, e) ↦ rw (get_poll_found percent is_object_id poll_id s p e) refl
  ]

  pub writes_voters : (n : ℕ) (s : Server) → (step (writes n) s).mem_voters ≡ s.mem_voters
  unfolding step update_votes_in_db
  writes_voters n s = elim (Option-cases (get_elem? s.syncs n)) [
    | inl e ↦ rw (e, step) refl
    | inr (y, e) ↦ elim (Option-cases (value_at y.poll_id s.mem_polls)) [
      | inl f ↦ rw (e, step) (rw (f, update_votes_in_db) refl)
      | inr (p, f) ↦ rw (e, step) (rw (f, update_votes_in_db) refl)
    ]
  ]

  -- has the voter voted in the poll?
  abbrev pub has_voted : String → String → Server → Bool
  has_voted poll_id key s = is_member key (voters_of poll_id s)

  same_voters :
      (poll_id key : String) {m n : Assoc (List String)}
      → m ≡ n
      → is_member key (or_else [] (value_at poll_id m))
        ≡ is_member key (or_else [] (value_at poll_id n))
  same_voters poll_id key e = ap (λ m. is_member key (or_else [] (value_at poll_id m))) e

  member_put :
      (q key poll_id other : String) (s : Server)
      → is_member key (voters_of q s) ≡ true
      → is_member key
          (or_else [] (value_at q (put poll_id (other ∷ voters_of poll_id s) s.mem_voters)))
        ≡ true
  member_put q key poll_id other s h =
      ground
        (arith, value_at-put poll_id q (other ∷ voters_of poll_id s) s.mem_voters, eq_iff poll_id q)

  cast_voted :
      (q key poll_id option_id fp ip : String) (s : Server)
      → has_voted q key s ≡ true
      → has_voted q key (casting percent is_object_id poll_id option_id fp ip s).1 ≡ true
  cast_voted q key poll_id option_id fp ip s h =
      elim (Bool-cases (is_taken percent is_object_id poll_id option_id fp ip s)) [
        | inr f ↦
            same_voters q key (
              ap (λ (c : Counts). c.1) (refused percent is_object_id poll_id option_id fp ip s f).1)
            ∙ h
        | inl t ↦ elim (Option-cases (value_at poll_id s.mem_polls)) [
          | inl e ↦ absurd (ground arith)
          | inr (p, e) ↦
              same_voters q key (taken percent is_object_id poll_id option_id fp ip s p e t).1
              ∙ member_put q key poll_id (voter_key fp ip) s h
        ]
      ]

  pub step_voted :
      (q key : String) (e : Event) (s : Server)
      → has_voted q key s ≡ true
      → has_voted q key (step e s) ≡ true
  unfolding step
  step_voted q key (casts poll_id option_id fp ip) s h =
      cast_voted q key poll_id option_id fp ip s h
  step_voted q key (looks poll_id) s h = same_voters q key (get_poll_voters poll_id s) ∙ h
  step_voted q key (results_asked poll_id) s h = same_voters q key (live_voters poll_id s) ∙ h
  step_voted q key (writes n) s h = same_voters q key (writes_voters n s) ∙ h

  pub taken_voted :
      (poll_id option_id fp ip : String) (s : Server)
      → is_taken percent is_object_id poll_id option_id fp ip s ≡ true
      → has_voted poll_id
          (voter_key fp ip)
          (casting percent is_object_id poll_id option_id fp ip s).1
        ≡ true
  taken_voted poll_id option_id fp ip s t = elim (Option-cases (value_at poll_id s.mem_polls)) [
    | inl e ↦ absurd (ground arith)
    | inr (p, e) ↦
        same_voters poll_id (voter_key fp ip)
          (taken percent is_object_id poll_id option_id fp ip s p e t).1
        ∙ ap (λ m. is_member (voter_key fp ip) (or_else [] m))
            (value_at-put_self poll_id (voter_key fp ip ∷ voters_of poll_id s) s.mem_voters)
        ∙ ap (λ b. b || is_member (voter_key fp ip) (voters_of poll_id s))
            (eq_refl (voter_key fp ip))
  ]

  voted_not_taken :
      (key option_id : String) (voters : List String) (p : Option Poll)
      → is_member key voters ≡ true
      → takes option_id key voters p ≡ false
  voted_not_taken key option_id voters none h = refl
  voted_not_taken key option_id voters (some p) h = ground arith

  -- A vote of a voter who is known is refused, for whatever option, and counts for nothing.
  pub voted_refused :
      (poll_id option_id fp ip : String) (s : Server)
      → has_voted poll_id (voter_key fp ip) s ≡ true
      → (is_ok (casting percent is_object_id poll_id option_id fp ip s).0 ≡ false)
        × (counts (casting percent is_object_id poll_id option_id fp ip s).1 ≡ counts s)
  voted_refused poll_id option_id fp ip s h =
      refused percent is_object_id poll_id option_id fp ip s (
        voted_not_taken (voter_key fp ip) option_id (voters_of poll_id s)
          (value_at poll_id s.mem_polls) h)
