-- ===== src/Voting/Redis/Store.antt =====
-- A Redis of maps: one that answers as backend/internal/services/vote_service.go relies on.
use poll.Prelude.{
  ℕ, String, refl, ap, Bool, true, some, List, [], ◌∷◌, if◌then◌else◌, Assoc, value_at, put,
  value_at-put_self,
}
use poll.Voting.{increment, is_member, or_else, add64}
use poll.Voting.Redis.{Redis}
use poll.Voting.Redis.Answering.{Answers}

pub record Store : Type 0 where
  pub sets : Assoc (List String)
  pub hashes : Assoc (Assoc ℕ)
  pub values : Assoc ℕ

abbrev pub hash_of : String → Store → Assoc ℕ
hash_of k r = or_else [] (value_at k r.hashes)

abbrev pub members_of : String → Store → List String
members_of k r = or_else [] (value_at k r.sets)

abbrev insert : String → List String → List String
insert v vs = if is_member v vs then vs else v ∷ vs

-- `is_up` is what `PING` comes to.
abbrev pub store_redis : (is_up : Bool) → Redis Store
store_redis is_up = record {
  ping = λ r. (is_up, r);
  sadd = λ k v r. (
    some (if is_member v (members_of k r) then 0 else 1),
    record r { sets = put k (insert v (members_of k r)) r.sets },
  );
  hincrby = λ k f n r. record r {
    hashes = put k (put f (add64 (votes_at f (hash_of k r)) n) (hash_of k r)) r.hashes;
  };
  incr = λ k r. record r { values = increment k r.values };
  hgetall = λ k r. (some (hash_of k r), r);
  hset = λ k f n r. record r { hashes = put k (put f n (hash_of k r)) r.hashes };
  set_value = λ k n r. record r { values = put k n r.values };
  publish = λ c live r. r;
}
  where
    votes_at : String → Assoc ℕ → ℕ
    votes_at f m = or_else 0 (value_at f m)

pub store-Answers : Answers (store_redis true) hash_of members_of
unfolding increment
store-Answers = record {
  ping_answers = λ r. refl;
  hash_ping = λ k r. refl;
  members_ping = λ k r. refl;
  sadd_answers = λ k v r. refl;
  hash_sadd = λ k j v r. refl;
  members_sadd = λ k v r. ap (or_else []) (value_at-put_self k (insert v (members_of k r)) r.sets);
  hash_hincrby = λ k f r small. ap (or_else []) (value_at-put_self k _ r.hashes);
  members_hincrby = λ k j f n r. refl;
  hash_incr = λ k j r. refl;
  members_incr = λ k j r. refl;
  hgetall_answers = λ k r. refl;
  hash_hgetall = λ k j r. refl;
  members_hgetall = λ k j r. refl;
  hash_publish = λ k c live r. refl;
  members_publish = λ k c live r. refl;
}
