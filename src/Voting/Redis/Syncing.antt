-- ===== src/Voting/Redis/Syncing.antt =====
-- The goroutines of votes (`UpdateVotesInDB` of backend/internal/services/poll_service.go, which
-- `CastVote` of vote_service.go starts), with Redis and without.
use mathlib.Core.Path.{subst}
use mathlib.Core.Option.{none-ne-some}
use poll.Prelude.{
  ℕ, String, ◌≡◌, refl, ap, sym, ◌∙◌, Bool, true, false, Option, none, some, List, [], ◌∷◌, map,
  Assoc, value_at, value_at-put_self, value_at-put_other, eq_iff, ◌==◌, if◌then◌else◌, get_elem?,
  arith, inl, inr, Bool-cases, Option-cases,
}
use poll.Models.{Number, Poll}
use poll.Voting.{Server, Sync, update_votes_in_db, with_votes, get_live_results}
use poll.Voting.Casting.{casting, is_taken, refused, Counts, get_poll_found, get_poll_missing}
use poll.Voting.Tally.{taken, counts_after}
use poll.Voting.Voters.{writes, step}
use poll.Voting.Ballots.{live_votes, writes_votes}

-- a poll with the counts of a goroutine
abbrev pub updated : Sync → Poll → Poll
updated y p = record p {
  options = map (with_votes y.option_votes) p.options;
  total_votes = y.total_votes;
}

module _ (q : String) where
  update_own :
      (y : Sync) (s : Server) (p : Poll)
      → y.poll_id ≡ q
      → value_at q s.mem_polls ≡ some p
      → value_at q (update_votes_in_db y s).mem_polls ≡ some (updated y p)
  unfolding update_votes_in_db
  update_own y s p e at =
      let here : value_at y.poll_id s.mem_polls ≡ some p =
        ap (λ j. value_at j s.mem_polls) e ∙ at in
      rw (here, update_votes_in_db)
        (ap (λ j. value_at j (poll.Prelude.put y.poll_id (updated y p) s.mem_polls)) (sym e)
          ∙ value_at-put_self y.poll_id (updated y p) s.mem_polls)

  update_other :
      (y : Sync) (s : Server)
      → y.poll_id == q ≡ false
      → value_at q (update_votes_in_db y s).mem_polls ≡ value_at q s.mem_polls
  unfolding update_votes_in_db
  update_other y s other = elim (Option-cases (value_at y.poll_id s.mem_polls)) [
    | inl e ↦ rw (e, update_votes_in_db) refl
    | inr (p, e) ↦
        rw (e, update_votes_in_db) (value_at-put_other y.poll_id q (updated y p) s.mem_polls other)
  ]

  pub update_syncs : (y : Sync) (s : Server) → (update_votes_in_db y s).syncs ≡ s.syncs
  unfolding update_votes_in_db
  update_syncs y s = elim (Option-cases (value_at y.poll_id s.mem_polls)) [
    | inl e ↦ rw (e, update_votes_in_db) refl
    | inr (p, e) ↦ rw (e, update_votes_in_db) refl
  ]

  pub update_counts :
      (y : Sync) (s : Server)
      → ((update_votes_in_db y s).mem_votes ≡ s.mem_votes)
        × ((update_votes_in_db y s).mem_voters ≡ s.mem_voters)
  unfolding update_votes_in_db
  update_counts y s = elim (Option-cases (value_at y.poll_id s.mem_polls)) [
    | inl e ↦ rw (e, update_votes_in_db) (refl, refl)
    | inr (p, e) ↦ rw (e, update_votes_in_db) (refl, refl)
  ]

  -- what the poll is after a goroutine, in each of two servers that have the same
  abbrev pub after_update : Sync → Poll → Poll
  after_update y p = if y.poll_id == q then updated y p else p

  pub update_polls :
      (y : Sync) (s : Server) (p : Poll)
      → value_at q s.mem_polls ≡ some p
      → value_at q (update_votes_in_db y s).mem_polls ≡ some (after_update y p)
  update_polls y s p at = elim (Bool-cases (y.poll_id == q)) [
    | inl own ↦
        subst
          (λ b. value_at q (update_votes_in_db y s).mem_polls ≡ some (if b then updated y p else p))
          (sym own) (update_own y s p ((eq_iff y.poll_id q).0 own) at)
    | inr other ↦
        subst
          (λ b. value_at q (update_votes_in_db y s).mem_polls ≡ some (if b then updated y p else p))
          (sym other) (update_other y s other ∙ at)
  ]

  module _ (percent : ℕ → ℕ → Number) (is_object_id : String → Bool) where
    -- no goroutine is due for a poll that has no counts yet
    abbrev pub IsDue : Server → Type 0
    IsDue s = value_at q s.mem_votes ≡ none → s.syncs ≡ []

    live_syncs : (s : Server) → (get_live_results percent is_object_id q s).1.syncs ≡ s.syncs
    unfolding get_live_results
    live_syncs s = elim (Option-cases (value_at q s.mem_polls)) [
      | inl e ↦ rw (get_poll_missing percent is_object_id q s e) refl
      | inr (p, e) ↦ rw (get_poll_found percent is_object_id q s p e) refl
    ]

    pub live-IsDue : (s : Server) → IsDue s → IsDue (get_live_results percent is_object_id q s).1
    live-IsDue s due none_kept =
        live_syncs s ∙ due (ap (value_at q) (sym (live_votes percent is_object_id q s)) ∙ none_kept)

    pub cast-IsDue :
        (o fp ip : String) (s : Server)
        → IsDue s
        → IsDue (casting percent is_object_id q o fp ip s).1
    cast-IsDue o fp ip s due none_kept =
        elim (Bool-cases (is_taken percent is_object_id q o fp ip s)) [
          | inr t ↦
              let same = (refused percent is_object_id q o fp ip s t).1 in
              ap (λ (c : Counts). c.3) same
              ∙ due (ap (λ (c : Counts). value_at q c.0) (sym same) ∙ none_kept)
          | inl t ↦ elim (Option-cases (value_at q s.mem_polls)) [
            | inl e ↦ absurd (ground arith)
            | inr (p, e) ↦ absurd (
                none-ne-some (counts_after percent is_object_id q o fp ip s p)
                  (sym none_kept ∙ (taken percent is_object_id q o fp ip s p e t).0))
          ]
        ]

    pub writes-IsDue :
        (n : ℕ) (s : Server) → IsDue s → IsDue (step percent is_object_id (writes n) s)
    unfolding step
    writes-IsDue n s due none_kept =
        let before =
          due (ap (value_at q) (sym (writes_votes percent is_object_id n s)) ∙ none_kept) in
        writes_syncs ∙ before
      where
        writes_syncs : (step percent is_object_id (writes n) s).syncs ≡ s.syncs
        writes_syncs = elim (Option-cases (get_elem? s.syncs n)) [
          | inl e ↦ rw (e, step) refl
          | inr (y, e) ↦ rw (e, step) (update_syncs y s)
        ]
