-- ===== src/Voting/Sums.antt =====
-- Sums of counts (`GetLiveResults` of backend/internal/services/vote_service.go): an increment adds
-- one, and the counts of the options fill a map with the same sum.
use poll.Prelude.{
  ℕ, ◌<◌, ◌^◌, String, ◌≡◌, ◌≢◌, refl, ap, ◌∙◌, none, List, [], ◌∷◌, ◌==◌, eq_iff, arith,
  if◌then◌else◌, Assoc, value_at, put, value_at-put, inl, inr, Bool-cases, All,
}
use poll.Models.{PollOption}
use poll.Voting.{add64, seed, sum_of, sum_options, increment, or_else}

add64_assoc : (a b c : ℕ) → add64 (add64 a b) c ≡ add64 a (add64 b c)
add64_assoc a b c = omega arith

add64_swap : (a b c : ℕ) → add64 a (add64 b c) ≡ add64 b (add64 a c)
add64_swap a b c = omega arith

pub sum-increment : (k : String) (m : Assoc ℕ) → sum_of (increment k m) ≡ add64 (sum_of m) 1
unfolding increment value_at put
sum-increment k [] = refl
sum-increment k ((j, v) ∷ m) = ground (arith, sum-increment k m)

-- no option has the identifier of a later one
abbrev pub HasDistinctIds : List PollOption → Type 0
HasDistinctIds [] = Unit
HasDistinctIds (o ∷ os) = All (λ (q : PollOption). q.id ≢ o.id) os × HasDistinctIds os

sum-put_new :
    (k : String) (v : ℕ) (m : Assoc ℕ)
    → value_at k m ≡ none
    → sum_of (put k v m) ≡ add64 v (sum_of m)
unfolding value_at put
sum-put_new k v [] h = refl
sum-put_new k v ((j, w) ∷ m) h = elim (Bool-cases (j == k)) [
  | inl e ↦ absurd (ground arith)
  | inr e ↦ rw e (ap (add64 w) (sum-put_new k v m (ground arith)) ∙ add64_swap w v (sum_of m))
]

sum_of_lt : (m : Assoc ℕ) → sum_of m < 2 ^ 64
sum_of_lt [] = omega arith
sum_of_lt ((k, v) ∷ m) = omega arith

fresh-put :
    (k : String) (v : ℕ) (m : Assoc ℕ) (os : List PollOption)
    → All (λ (q : PollOption). q.id ≢ k) os
    → All (λ (q : PollOption). value_at q.id m ≡ none) os
    → All (λ (q : PollOption). value_at q.id (put k v m) ≡ none) os
fresh-put k v m [] d h = tt
fresh-put k v m (q ∷ os) (d, ds) (h, hs) =
    (ground (arith, d, value_at-put k q.id v m, eq_iff k q.id), fresh-put k v m os ds hs)

sum-seed :
    (os : List PollOption) (m : Assoc ℕ)
    → HasDistinctIds os
    → All (λ (o : PollOption). value_at o.id m ≡ none) os
    → sum_of (seed os m) ≡ add64 (sum_of m) (sum_options os)
unfolding seed
sum-seed [] m d h = omega (arith, sum_of_lt m)
sum-seed (o ∷ os) m (d, ds) (h, hs) =
    sum-seed os (put o.id o.votes m) ds (fresh-put o.id o.votes m os d hs)
    ∙ ap (λ n. add64 n (sum_options os)) (sum-put_new o.id o.votes m h)
    ∙ omega arith

nothing_counted :
    (os : List PollOption) → All (λ (o : PollOption). value_at {A = ℕ} o.id [] ≡ none) os
unfolding value_at
nothing_counted [] = tt
nothing_counted (o ∷ os) = (refl, nothing_counted os)

sum_options_lt : (os : List PollOption) → sum_options os < 2 ^ 64
sum_options_lt [] = omega arith
sum_options_lt (o ∷ os) = omega arith

pub sum-seed_start :
    (os : List PollOption) → HasDistinctIds os → sum_of (seed os []) ≡ sum_options os
sum-seed_start os d = omega (arith, sum-seed os [] d (nothing_counted os), sum_options_lt os)

pub count-increment :
    (k o : String) (m : Assoc ℕ)
    → or_else 0 (value_at o (increment k m))
      ≡ (if k == o then add64 (or_else 0 (value_at o m)) 1 else or_else 0 (value_at o m))
unfolding increment
count-increment k o m =
    ground (arith, value_at-put k o (add64 (or_else 0 (value_at k m)) 1) m, eq_iff k o)
