-- ===== src/Dashboard/Updates.antt =====
-- What the answers of the backend do to the list (frontend/src/pages/Dashboard.jsx).
use poll.Prelude.{
  String, ◌≡◌, ◌≢◌, refl, ap, Bool, List, [], ◌∷◌, map, arith, ◌==◌, eq_iff, if◌then◌else◌, keep_if,
  Option, none, some, find_first,
}
use poll.Models.{Poll}
use poll.Api.Request.{ok}
use poll.Dashboard.{Page, with_status, is_other, toggle_settled, delete_settled}

-- the first poll of the list with this id
abbrev pub find_poll : String → List Poll → Option Poll
find_poll id = find_first (λ (p : Poll). p.id == id)

abbrev pub set_active : Bool → Option Poll → Option Poll
set_active b none = none
set_active b (some p) = some (record p { is_active = b })

find-with_status :
    (id other : String) (b : Bool) (ps : List Poll)
    → find_poll other (map (with_status id b) ps)
      ≡ (if id == other then set_active b (find_poll other ps) else find_poll other ps)
unfolding with_status
find-with_status id other b [] = ground arith
find-with_status id other b (p ∷ ps) =
    ground
      (arith, find-with_status id other b ps, eq_iff id other, eq_iff p.id id, eq_iff p.id other)

find-is_other :
    (id other : String) (ps : List Poll)
    → find_poll other (keep_if (is_other id) ps)
      ≡ (if id == other then none else find_poll other ps)
unfolding is_other
find-is_other id other [] = ground arith
find-is_other id other (p ∷ ps) =
    ground (arith, find-is_other id other ps, eq_iff id other, eq_iff p.id id, eq_iff p.id other)

abbrev pub ids : List Poll → List String
ids ps = map (λ (p : Poll). p.id) ps

ids-with_status :
    (id : String) (b : Bool) (ps : List Poll) → ids (map (with_status id b) ps) ≡ ids ps
unfolding with_status
ids-with_status id b [] = refl
ids-with_status id b (p ∷ ps) = ground (arith, ids-with_status id b ps)

-- The answer to a change of status sets the status of the polls with that id, and of no other; the
-- polls keep their places. The answer to a deletion takes the poll away, and no other.
pub answers :
    (id other : String) (updated : Poll) (p : Page)
    → (find_poll other (toggle_settled id (ok updated) p).0.polls ≡ (
        if id == other
        then set_active updated.is_active (find_poll other p.polls)
        else find_poll other p.polls))
      × (ids (toggle_settled id (ok updated) p).0.polls ≡ ids p.polls)
      × (find_poll other (delete_settled {A = Unit {0}} id (ok tt) p).0.polls
          ≡ (if id == other then none else find_poll other p.polls))
unfolding toggle_settled delete_settled
answers id other updated p = (
  find-with_status id other updated.is_active p.polls,
  ids-with_status id updated.is_active p.polls,
  find-is_other id other p.polls,
)

with_status_comm :
    (a b : String) (x y : Bool) (ps : List Poll)
    → a ≢ b
    → map (with_status a x) (map (with_status b y) ps)
      ≡ map (with_status b y) (map (with_status a x) ps)
unfolding with_status
with_status_comm a b x y [] h = refl
with_status_comm a b x y (p ∷ ps) h =
    ground (arith, with_status_comm a b x y ps h, eq_iff p.id a, eq_iff p.id b)

delete_status_comm :
    (a b : String) (y : Bool) (ps : List Poll)
    → keep_if (is_other a) (map (with_status b y) ps)
      ≡ map (with_status b y) (keep_if (is_other a) ps)
unfolding with_status is_other
delete_status_comm a b y [] = refl
delete_status_comm a b y (p ∷ ps) =
    ground (arith, delete_status_comm a b y ps, eq_iff p.id a, eq_iff p.id b)

-- The order in which two changes of status of different polls are answered does not matter.
pub toggles_comm :
    (a b : String) (u v : Poll) (p : Page)
    → a ≢ b
    → (toggle_settled a (ok u) (toggle_settled b (ok v) p).0).0
      ≡ (toggle_settled b (ok v) (toggle_settled a (ok u) p).0).0
unfolding toggle_settled
toggles_comm a b u v p h =
    ap (λ ps. record p { polls = ps }) (with_status_comm a b u.is_active v.is_active p.polls h)

-- Nor does the order of the answers to a deletion and to a change of status, of whichever polls.
pub delete_toggle_comm :
    (a b : String) (v : Poll) (p : Page)
    → (delete_settled {A = Unit {0}} a (ok tt) (toggle_settled b (ok v) p).0).0
      ≡ (toggle_settled b (ok v) (delete_settled {A = Unit {0}} a (ok tt) p).0).0
unfolding toggle_settled delete_settled
delete_toggle_comm a b v p =
    ap (λ ps. record p { polls = ps }) (delete_status_comm a b v.is_active p.polls)
