-- ===== src/Voting/Urn.antt =====
-- The ballots of a poll without their order: what `CastVote` of
-- backend/internal/services/vote_service.go makes of the same ballots does not depend on who came first.
use mathlib.Core.Quot
use mathlib.Core.Quot.{Quot, Quot-set}
use poll.Prelude.{
  ℕ, String, ◌≡◌, ap, sym, ◌∙◌, Bool, true, not, ◌&&◌, ◌||◌, some, List, [], ◌∷◌, ◌==◌, arith,
  if◌then◌else◌, value_at, Assoc,
}
use poll.Models.{Number, Poll}
use poll.Voting.{Server, add64, voters_of, is_member, voter_key, or_else}
use poll.Voting.Casting.{casting, is_taken, is_ok}
use poll.Voting.Tally.{tally-some, votes_for}
use poll.Voting.Voters.{Event}
use poll.Voting.Ballots.{Ballot, voters, count, accepts, offers, Holds}
use poll.Voting.Refinement.{box_after, server_after, votes_refine}
use poll.Polls.Core.{Core, core}

-- Two ballots next to one another change places.
pub data Swapped : List Ballot → List Ballot → Type 0 where
  swap : (a b : Ballot) (box : List Ballot) → Swapped (a ∷ b ∷ box) (b ∷ a ∷ box)
  keep : (a : Ballot) (box other : List Ballot) → Swapped box other → Swapped (a ∷ box) (a ∷ other)

abbrev pub Urn : Type 0
Urn = Quot Swapped

abbrev pub urn : List Ballot → Urn
urn = Quot.mk

count-Swapped :
    (base : ℕ) (o : String) (box other : List Ballot)
    → Swapped box other
    → count base o box ≡ count base o other
count-Swapped base o _ _ (swap a b box) = ground arith
count-Swapped base o _ _ (keep a box other s) =
    ap (λ n. if a.choice == o then add64 n 1 else n) (count-Swapped base o box other s)

member-Swapped :
    (key : String) (box other : List Ballot)
    → Swapped box other
    → is_member key (voters box) ≡ is_member key (voters other)
member-Swapped key _ _ (swap a b box) = ground arith
member-Swapped key _ _ (keep a box other s) =
    ap (λ m. a.voter == key || m) (member-Swapped key box other s)

-- what an urn shows for an option, on top of what it had before, and whether a voter has a ballot in it
votes_in_urn : ℕ → String → Urn → ℕ
votes_in_urn base o =
    Quot.lift (hlevel) (count base o) λ box other s. count-Swapped base o box other s

has_ballot : String → Urn → Bool
has_ballot key =
    Quot.lift (hlevel) (λ box. is_member key (voters box))
      λ box other s. member-Swapped key box other s

same_count :
    (base : ℕ) (o : String) (box other : List Ballot)
    → urn box ≡ urn other
    → count base o box ≡ count base o other
unfolding votes_in_urn
same_count base o box other e = ap (votes_in_urn base o) e

same_accepts :
    (k : Core) (option_id key : String) (box other : List Ballot)
    → urn box ≡ urn other
    → accepts k option_id key box ≡ accepts k option_id key other
unfolding has_ballot
same_accepts k option_id key box other e =
    ap (λ b. k.3 && offers option_id k.4 && not b) (ap (has_ballot key) e)

module _ (percent : ℕ → ℕ → Number) (is_object_id : String → Bool) (q o : String) (p : Poll)
    (s : Server) where
  shown-Holds :
      (base : ℕ) (k : Core) (box : List Ballot) (t : Server)
      → Holds q o base k box t
      → votes_for q o p t ≡ count base o box
  shown-Holds base k box t (at, known, (m, here, shown)) =
      ap (λ (c : Assoc ℕ × ℕ). or_else 0 (value_at o c.0))
        (tally-some percent is_object_id q p m t here)
      ∙ shown

  module _ (option_id fp ip option_id' fp' ip' : String) (es es' : List Event) where
    abbrev box : List Ballot
    box = box_after percent is_object_id q o p s option_id fp ip es

    abbrev other_box : List Ballot
    other_box = box_after percent is_object_id q o p s option_id' fp' ip' es'

    abbrev pub server_one : Server
    server_one = server_after percent is_object_id q o p s option_id fp ip es

    abbrev pub server_two : Server
    server_two = server_after percent is_object_id q o p s option_id' fp' ip' es'

    -- The order of the votes does not matter: two rows of events that begin with a first vote in a poll
    -- and put the same ballots into its urn leave the same votes for each option, and the next vote is
    -- taken after both or after none.
    pub order_forgotten :
        (next_option next_fp next_ip : String)
        → value_at q s.mem_polls ≡ some p
        → voters_of q s ≡ []
        → is_taken percent is_object_id q option_id fp ip s ≡ true
        → is_taken percent is_object_id q option_id' fp' ip' s ≡ true
        → urn box ≡ urn other_box
        → (votes_for q o p server_one ≡ votes_for q o p server_two)
          × (is_ok (casting percent is_object_id q next_option next_fp next_ip server_one).0
              ≡ is_ok (casting percent is_object_id q next_option next_fp next_ip server_two).0)
    order_forgotten next_option next_fp next_ip found fresh t t' e =
        let base = votes_for q o p s in
        let (held, next) =
          votes_refine percent is_object_id q o p s option_id fp ip es next_option next_fp next_ip
            found fresh t in
        let (held', next') =
          votes_refine percent is_object_id q o p s option_id' fp' ip' es' next_option next_fp
            next_ip found fresh t' in
        (
          shown-Holds base (core p) box server_one held
              ∙ same_count base o box other_box e
              ∙ sym (shown-Holds base (core p) other_box server_two held'),
          next
              ∙ same_accepts (core p) next_option (voter_key next_fp next_ip) box other_box e
              ∙ sym next',
        )
