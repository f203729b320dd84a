-- ===== src/Hub/Visits.antt =====
-- The loops over the clients of a room (backend/internal/websocket/hub.go), for clients that are fine.
use poll.Prelude.{
  ℕ, zero, suc, ◌≤◌, ◌≡◌, refl, Bool, true, false, Option, some, List, [], ◌∷◌, length, All,
}
use poll.Hub.{Pump, waits, reads, gone, Client, each, at, client_at}

-- Where a client may be: its handler waits; it is in the room; the room has dropped it while it
-- still reads; it has gone. Its channel is closed in the last two.
abbrev pub is_phase : Pump → (in_room closed : Bool) → Bool
is_phase waits false false = true
is_phase reads true false = true
is_phase reads false true = true
is_phase gone false true = true
is_phase _ _ _ = false

abbrev pub IsFine : Client → Type 0
IsFine c = (length c.send ≤ 64) × (is_phase c.pump c.is_in_room c.is_closed ≡ true)

-- The result of an operation that does not panic, with a property of it.
abbrev pub Gives : {A : Type 0} → (A → Type 0) → Option A → Type 0
Gives {A} P o = (a : A) × (o ≡ some a) × P a

-- Lists of the same length that are related element by element.
abbrev pub Each : (Client → Client → Type 0) → List Client → List Client → Type 0
Each R [] [] = Unit
Each R (c ∷ cs) (d ∷ ds) = R c d × Each R cs ds
Each R _ _ = ⊥

pub each-Each :
    (R : Client → Client → Type 0) (f : Client → Option Client) (cs : List Client)
    → ((c : Client) → IsFine c → Gives (R c) (f c))
    → All IsFine cs
    → Gives (Each R cs) (each f cs)
unfolding each
each-Each R f [] h fine = ([], refl, tt)
each-Each R f (c ∷ cs) h (first, fine) =
    let (d, e, r) = h c first in
    let (ds, es, rs) = each-Each R f cs h fine in (d ∷ ds, rw e (rw es refl), (r, rs))

pub Each-All : (cs ds : List Client) → Each (λ c d. IsFine d) cs ds → All IsFine ds
Each-All [] [] h = tt
Each-All (c ∷ cs) (d ∷ ds) (h, hs) = (h, Each-All cs ds hs)
Each-All [] (d ∷ ds) h = elim h [ ]
Each-All (c ∷ cs) [] h = elim h [ ]

pub each-IsFine :
    (f : Client → Option Client) (cs : List Client)
    → ((c : Client) → IsFine c → Gives IsFine (f c))
    → All IsFine cs
    → Gives (All IsFine) (each f cs)
each-IsFine f cs h fine =
    let (ds, e, rs) = each-Each (λ c d. IsFine d) f cs h fine in (ds, e, Each-All cs ds rs)

pub at-IsFine :
    (f : Client → Option Client) (i : ℕ) (cs : List Client)
    → ((c : Client) → client_at i cs ≡ some c → IsFine c → Gives IsFine (f c))
    → All IsFine cs
    → Gives (All IsFine) (at f i cs)
unfolding at
at-IsFine f i [] h fine = ([], refl, tt)
at-IsFine f zero (c ∷ cs) h (first, fine) =
    let (d, e, r) = h c refl first in (d ∷ cs, rw e refl, (r, fine))
at-IsFine f (suc i) (c ∷ cs) h (first, fine) =
    let (ds, e, r) = at-IsFine f i cs h fine in (c ∷ ds, rw e refl, (first, r))
