-- ===== src/Results/Leader.antt =====
-- Which options get the trophy (frontend/src/pages/ResultsPage.jsx).
use poll.Prelude.{
  ℕ, ◌≤◌, ◌<◌, ◌≡◌, ◌↔◌, true, none, some, List, [], ◌∷◌, map, arith, All, All-get_elem?, get_elem?,
  inl, inr, Option-cases,
}
use poll.Models.{PollOption, LivePollResult}
use poll.Results.{max_of, votes_of, max_votes, is_leader}

max_of-none {κ} : (P : ℕ → Type κ) (xs : List ℕ) → max_of xs ≡ none → All P xs
unfolding max_of
max_of-none P [] h = tt
max_of-none P (x ∷ xs) h = absurd (elim (Option-cases (max_of xs)) [
  | inl e ↦ cc (rw (e, max_of) at h)
  | inr (m, e) ↦ cc (rw (e, max_of) at h)
])

All-le : (xs : List ℕ) (m k : ℕ) → m ≤ k → All (λ x. x ≤ m) xs → All (λ x. x ≤ k) xs
All-le [] m k le h = tt
All-le (x ∷ xs) m k le h = (omega (arith, h.0), All-le xs m k le h.1)

-- The maximum is a bound, and the least one.
max_of-bound : (xs : List ℕ) (m : ℕ) → max_of xs ≡ some m → All (λ x. x ≤ m) xs
unfolding max_of
max_of-bound [] m h = tt
max_of-bound (x ∷ xs) m h = elim (Option-cases (max_of xs)) [
  | inl e ↦ (ground arith, max_of-none _ xs e)
  | inr (k, e) ↦ (ground arith, All-le xs k m (ground arith) (max_of-bound xs k e))
]

max_of-least : (xs : List ℕ) (m k : ℕ) → max_of xs ≡ some m → All (λ x. x ≤ k) xs → m ≤ k
unfolding max_of
max_of-least [] m k h all = cc
max_of-least (x ∷ xs) m k h all = elim (Option-cases (max_of xs)) [
  | inl e ↦ ground arith
  | inr (n, e) ↦ ground (arith, max_of-least xs n k e all.1)
]

All-votes :
    (P : ℕ → Type 0) (os : List PollOption)
    → All (λ (o : PollOption). P o.votes) os ↔ All P (map (λ (o : PollOption). o.votes) os)
All-votes P [] = (λ h. tt, λ h. tt)
All-votes P (o ∷ os) = (λ h. (h.0, (All-votes P os).0 h.1), λ h. (h.0, (All-votes P os).1 h.1))

-- Once a vote is counted, an option of the results is marked as leading exactly if it has a vote
-- and no option has more.
pub leader_iff :
    (d : LivePollResult) (i : ℕ) (o : PollOption)
    → 0 < d.total_votes
    → get_elem? d.options i ≡ some o
    → (is_leader (max_votes (some d)) o ≡ true)
      ↔ ((0 < o.votes) × All (λ (q : PollOption). q.votes ≤ o.votes) d.options)
unfolding max_votes is_leader
leader_iff d i o counted at = elim (Option-cases (max_of (votes_of d))) [
  | inl e ↦ absurd (
      All-get_elem? (λ q. ⊥) d.options i o
        ((All-votes (λ v. ⊥) d.options).1 (max_of-none (λ v. ⊥) (votes_of d) e)) at)
  | inr (m, e) ↦ (
    λ h.
        let top : m ≤ o.votes = ground (arith, e) in
        (
          ground arith,
          (All-votes (λ v. v ≤ o.votes) d.options).1
              (All-le (votes_of d) m o.votes top (max_of-bound (votes_of d) m e)),
        ),
    λ h.
        let most =
          max_of-least (votes_of d) m o.votes e ((All-votes (λ v. v ≤ o.votes) d.options).0 h.1) in
        let bound =
          All-get_elem? (λ q. q.votes ≤ m) d.options i o
            ((All-votes (λ v. v ≤ m) d.options).1 (max_of-bound (votes_of d) m e)) at in
        ground (arith, e, most, bound),
  )
]
