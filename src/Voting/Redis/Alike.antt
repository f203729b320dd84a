-- ===== src/Voting/Redis/Alike.antt =====
-- Counts in Redis and counts in memory that give the same results
-- (backend/internal/services/vote_service.go).
use poll.Prelude.{
  ℕ, String, ◌≡◌, ◌≢◌, refl, ap, sym, ◌∙◌, Bool, true, false, Option, none, some, List, [], ◌∷◌,
  map, arith, Assoc, value_at, value_at-put, put, eq_iff, inl, inr, All, if◌then◌else◌, ◌==◌,
  Bool-cases, Option-cases,
}
use mathlib.Core.Path.{subst}
use poll.Models.{Number, PollOption, Poll}
use poll.Voting.{
  Server, add64, sum_of, sum_options, seed, increment, or_else, tally, result_of, live_option,
  calculate_percentages,
}
use poll.Voting.Sums.{HasDistinctIds, sum-increment, count-increment, sum-seed_start}
use poll.Voting.Tally.{tally-some, tally-none}
use poll.Voting.Redis.{
  Redis, redis_tally, seed_redis, seed_hash, positive_votes, sum_positive, counted, votes_hash_key,
}
use poll.Voting.Redis.Answering.{Answers}

abbrev pub is_nil : Assoc ℕ → Bool
is_nil [] = true
is_nil (e ∷ m) = false

abbrev pub AreZero : List PollOption → Type 0
AreZero os = All (λ (o : PollOption). o.votes ≡ 0) os

-- the votes that a map has for an option
abbrev pub votes_in : String → Assoc ℕ → ℕ
votes_in o m = or_else 0 (value_at o m)

-- Two maps that show the same votes and the same sum.
abbrev pub ShowsSame : Assoc ℕ → Assoc ℕ → Type 0
ShowsSame m n = ((o : String) → votes_in o m ≡ votes_in o n) × (sum_of m ≡ sum_of n)

-- What a hash and the map of a poll have to do with one another: neither has a vote, or they show the
-- same votes.
abbrev pub Tallied : Poll → Assoc ℕ → Option (Assoc ℕ) → Type 0
Tallied p h none = (h ≡ []) × AreZero p.options × HasDistinctIds p.options
Tallied p h (some m) = (is_nil h ≡ false) × ShowsSame h m

zero-percentages :
    (f : PollOption → Number) (os : List PollOption)
    → AreZero os
    → AreZero (map (λ (o : PollOption). record o { percentage = f o }) os)
zero-percentages f [] z = tt
zero-percentages f (o ∷ os) (z, zs) = (z, zero-percentages f os zs)

other-percentages :
    (f : PollOption → Number) (k : String) (os : List PollOption)
    → All (λ (o : PollOption). o.id ≢ k) os
    → All
        (λ (o : PollOption). o.id ≢ k)
        (map (λ (o : PollOption). record o { percentage = f o }) os)
other-percentages f k [] d = tt
other-percentages f k (o ∷ os) (d, ds) = (d, other-percentages f k os ds)

distinct-percentages :
    (f : PollOption → Number) (os : List PollOption)
    → HasDistinctIds os
    → HasDistinctIds (map (λ (o : PollOption). record o { percentage = f o }) os)
distinct-percentages f [] d = tt
distinct-percentages f (o ∷ os) (d, ds) =
    (other-percentages f o.id os d, distinct-percentages f os ds)

-- a look at the poll computes its percentages
pub Tallied-looked :
    (percent : ℕ → ℕ → Number) (p : Poll) (h : Assoc ℕ) (kept : Option (Assoc ℕ))
    → Tallied p h kept
    → Tallied (calculate_percentages percent p) h kept
unfolding calculate_percentages
Tallied-looked percent p h none (e, z, d) =
    (e, zero-percentages _ p.options z, distinct-percentages _ p.options d)
Tallied-looked percent p h (some m) t = t

seed_zero :
    (os : List PollOption) (m : Assoc ℕ)
    → AreZero os
    → ((o : String) → votes_in o m ≡ 0)
    → (o : String) → votes_in o (seed os m) ≡ 0
unfolding seed
seed_zero [] m z h o = h o
seed_zero (x ∷ os) m (z, zs) h o =
    seed_zero os (put x.id x.votes m) zs
      (λ j. ground (arith, value_at-put x.id j x.votes m, h j, eq_iff x.id j)) o

seed_start_zero :
    (os : List PollOption) → AreZero os → (o : String) → votes_in o [] ≡ votes_in o (seed os [])
unfolding value_at
seed_start_zero os z o = sym (seed_zero os [] z (λ i. refl) o)

sum_options_zero : (os : List PollOption) → AreZero os → sum_options os ≡ 0
sum_options_zero [] z = refl
sum_options_zero (o ∷ os) (z, zs) = omega (arith, sum_options_zero os zs)

positive_zero : (os : List PollOption) (m : Assoc ℕ) → AreZero os → positive_votes os m ≡ m
unfolding positive_votes
positive_zero [] m z = refl
positive_zero (o ∷ os) m (z, zs) = rw z (positive_zero os m zs)

sum_positive_zero : (os : List PollOption) → AreZero os → sum_positive os ≡ 0
sum_positive_zero [] z = refl
sum_positive_zero (o ∷ os) (z, zs) = rw z (sum_positive_zero os zs)

live_options_same :
    (percent : ℕ → ℕ → Number) (t : ℕ) (h m : Assoc ℕ) (os : List PollOption)
    → ((o : String) → votes_in o h ≡ votes_in o m)
    → map (live_option percent (h, t)) os ≡ map (live_option percent (m, t)) os
unfolding live_option
live_options_same percent t h m [] same = refl
live_options_same percent t h m (o ∷ os) same =
    rw (same o.id, live_options_same percent t h m os same) refl

pub result_same :
    (percent : ℕ → ℕ → Number) (q : String) (p : Poll) (h m : Assoc ℕ) (t u : ℕ)
    → ((o : String) → votes_in o h ≡ votes_in o m)
    → t ≡ u
    → result_of percent q p (h, t) ≡ result_of percent q p (m, u)
unfolding result_of
result_same percent q p h m t u same e = rw e (
    ap
      (λ os. record {
        poll_id = q;
        title = p.title;
        is_active = p.is_active;
        total_votes = u;
        options = os;
      })
      (live_options_same percent u h m p.options same))

-- one more vote in both
increment_same :
    (o : String) (h m : Assoc ℕ) → ShowsSame h m → ShowsSame (increment o h) (increment o m)
increment_same o h m (same, sums) = (
  λ j.
      count-increment o j h
      ∙ ap (λ n. if o == j then add64 n 1 else n) (same j)
      ∙ sym (count-increment o j m),
  sum-increment o h ∙ ap (λ n. add64 n 1) sums ∙ sym (sum-increment o m),
)

pub increment_nonempty : (o : String) (m : Assoc ℕ) → is_nil (increment o m) ≡ false
unfolding increment put
increment_nonempty o [] = refl
increment_nonempty o (e ∷ m) = elim (Bool-cases (e.0 == o)) [
  | inl h ↦ rw h refl
  | inr h ↦ rw h refl
]

pub Tallied-vote :
    (p : Poll) (o : String) (h : Assoc ℕ) (kept : Option (Assoc ℕ))
    → Tallied p h kept
    → Tallied p (increment o h) (some (increment o (or_else (seed p.options []) kept)))
Tallied-vote p o h none (e, z, d) = (
  increment_nonempty o h,
  increment_same o h (seed p.options []) (
      rw e (
        seed_start_zero p.options z,
        sym (sum-seed_start p.options d ∙ sum_options_zero p.options z),
      )),
)
Tallied-vote p o h (some m) (n, same) = (increment_nonempty o h, increment_same o h m same)

module _ {R : Type 0} (db : Redis R) (hash : String → R → Assoc ℕ)
    (members : String → R → List String) (answers : Answers db hash members) (q : String) where
  seed_hash_zero :
      (k : String) (os : List PollOption) (r : R) → AreZero os → seed_hash db k os r ≡ r
  unfolding seed_hash
  seed_hash_zero k [] r z = refl
  seed_hash_zero k (o ∷ os) r (z, zs) = rw z (seed_hash_zero k os r zs)

  seed_redis_zero : (p : Poll) (r : R) → AreZero p.options → seed_redis db q p r ≡ (([], 0), r)
  unfolding seed_redis
  seed_redis_zero p r z =
      rw
        (
          sum_positive_zero p.options z,
          positive_zero p.options [] z,
          seed_hash_zero (votes_hash_key q) p.options r z,
        )
        refl

  counted_same :
      (p : Poll) (h : Assoc ℕ) (kept : Option (Assoc ℕ)) (r : R)
      → Tallied p h kept
      → counted db q p (some h, r) ≡ ((h, sum_of h), r)
  counted_same p [] none r (e, z, d) = seed_redis_zero p r z
  counted_same p [] (some m) r (n, same) = absurd (ground arith)
  counted_same p (c ∷ h) kept r t = refl

  -- what `GetLiveResults` reads from Redis
  pub redis_tally_same :
      (p : Poll) (kept : Option (Assoc ℕ)) (r : R)
      → Tallied p (hash (votes_hash_key q) r) kept
      → redis_tally db q p r ≡ (
        (hash (votes_hash_key q) r, sum_of (hash (votes_hash_key q) r)),
        (db.hgetall (votes_hash_key q) r).1,
      )
  unfolding redis_tally
  redis_tally_same p kept r t =
      ap (λ a. counted db q p (a, (db.hgetall (votes_hash_key q) r).1))
        (answers.hgetall_answers (votes_hash_key q) r)
      ∙ counted_same p (hash (votes_hash_key q) r) kept (db.hgetall (votes_hash_key q) r).1 t

-- the results that a tally in memory shows
pub tally_same :
    (percent : ℕ → ℕ → Number) (q : String) (p : Poll) (h : Assoc ℕ) (s : Server)
    → Tallied p h (value_at q s.mem_votes)
    → result_of percent q p (h, sum_of h) ≡ result_of percent q p (tally q p s)
tally_same percent q p h s t = elim (Option-cases (value_at q s.mem_votes)) [
  | inl e ↦ at_none e (subst (Tallied p h) e t)
  | inr (m, e) ↦
      let (n, (same, sums)) = subst (Tallied p h) e t in
      result_same percent q p h m (sum_of h) (sum_of m) same sums
      ∙ ap (result_of percent q p) (sym (tally-some percent (λ i. true) q p m s e))
]
  where
    at_none :
        value_at q s.mem_votes ≡ none
        → Tallied p h none
        → result_of percent q p (h, sum_of h) ≡ result_of percent q p (tally q p s)
    at_none e (empty, z, d) =
        result_same percent q p h (seed p.options []) (sum_of h) (sum_options p.options)
          (rw empty (seed_start_zero p.options z))
          (ap sum_of empty ∙ sym (sum_options_zero p.options z))
        ∙ ap (result_of percent q p) (sym (tally-none percent (λ i. true) q p s e))
