-- ===== src/Voting/Redis/Answering.antt =====
-- What backend/internal/services/vote_service.go relies on of a Redis that answers every command.
use poll.Prelude.{
  ℕ, ◌<◌, ◌+◌, ◌^◌, String, ◌≡◌, true, some, List, ◌∷◌, if◌then◌else◌, Assoc, value_at,
}
use poll.Models.{LivePollResult}
use poll.Voting.{increment, is_member, or_else}
use poll.Voting.Redis.{Redis}

-- `hash` and `members` say what a hash and a set hold: the fields in some order, and the members, the
-- last that was added first. The commands on one kind of value leave the other kind alone. `HINCRBY`
-- fails where an `int64` would overflow.
pub record Answers {R : Type 0} (db : Redis R) (hash : String → R → Assoc ℕ)
    (members : String → R → List String) : Type 0 where
  pub ping_answers : (r : R) → (db.ping r).0 ≡ true
  pub hash_ping : (k : String) (r : R) → hash k (db.ping r).1 ≡ hash k r
  pub members_ping : (k : String) (r : R) → members k (db.ping r).1 ≡ members k r
  pub sadd_answers :
      (k v : String) (r : R) → (db.sadd k v r).0 ≡ some (if is_member v (members k r) then 0 else 1)
  pub hash_sadd : (k j v : String) (r : R) → hash k (db.sadd j v r).1 ≡ hash k r
  pub members_sadd :
      (k v : String) (r : R)
      → members k (db.sadd k v r).1
        ≡ (if is_member v (members k r) then members k r else v ∷ members k r)
  pub hash_hincrby :
      (k f : String) (r : R)
      → or_else 0 (value_at f (hash k r)) + 1 < 2 ^ 63
      → hash k (db.hincrby k f 1 r) ≡ increment f (hash k r)
  pub members_hincrby :
      (k j f : String) (n : ℕ) (r : R) → members k (db.hincrby j f n r) ≡ members k r
  pub hash_incr : (k j : String) (r : R) → hash k (db.incr j r) ≡ hash k r
  pub members_incr : (k j : String) (r : R) → members k (db.incr j r) ≡ members k r
  pub hgetall_answers : (k : String) (r : R) → (db.hgetall k r).0 ≡ some (hash k r)
  pub hash_hgetall : (k j : String) (r : R) → hash k (db.hgetall j r).1 ≡ hash k r
  pub members_hgetall : (k j : String) (r : R) → members k (db.hgetall j r).1 ≡ members k r
  pub hash_publish :
      (k c : String) (live : LivePollResult) (r : R) → hash k (db.publish c live r) ≡ hash k r
  pub members_publish :
      (k c : String) (live : LivePollResult) (r : R) → members k (db.publish c live r) ≡ members k r
