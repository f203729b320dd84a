-- ===== src/Hub/Delivery.antt =====
-- What a broadcast does to the clients of a room (`runRoom` of backend/internal/websocket/hub.go).
use mathlib.Core.Option.{none-ne-some, some-injective}
use mathlib.Core.Path.{subst}
use mathlib.Core.List.{◌++◌}
use poll.Prelude.{
  ℕ, zero, suc, ◌≤◌, ◌<◌, ◌≡◌, refl, ap, sym, ◌∙◌, true, false, some, List, [], ◌∷◌, ltb,
  if◌then◌else◌, length, All, arith, Bool-cases, inl, inr, ◌⊎◌,
}
use poll.Live.{Message}
use poll.Hub.{
  Client, Room, send_or_drop, in_room, each, client_at, deliver, Event, broadcasts, with_clients,
  take_broadcast, step, run, empty_room,
}
use poll.Hub.Fine.{watching}
use poll.Hub.Visits.{IsFine, Gives, Each, each-Each}
use poll.Hub.Panics.{room-IsSafe}

-- A client `c` and what it is after a broadcast of `m`: in the room with less than 64 messages waiting,
-- it gets the message last; in the room with a full channel, it is put out; or it is not in the room.
abbrev pub IsDelivered : Message → Client → Client → Type 0
IsDelivered m c d =
    ((c.is_in_room ≡ true) × (length c.send < 64) × (d ≡ record c { send = c.send ++ m ∷ [] }))
    ⊎ (((c.is_in_room ≡ true)
          × (64 ≤ length c.send)
          × (d.is_in_room ≡ false)
          × (d.is_closed ≡ true)
          × (d.send ≡ c.send))
        ⊎ ((c.is_in_room ≡ false) × (d ≡ c)))

drop-IsDelivered :
    (m : Message) (c : Client)
    → c.is_closed ≡ false
    → c.is_in_room ≡ true
    → Gives (IsDelivered m c) (send_or_drop m c)
unfolding send_or_drop
drop-IsDelivered m c h inside = elim (Bool-cases (ltb (length c.send) 64)) [
  | inl free ↦
      (record c { send = c.send ++ m ∷ [] }, rw h (rw free refl), inl (inside, ground arith, refl))
  | inr full ↦ (
    record c { is_closed = true; is_in_room = false },
    rw h (rw full refl),
    inr (inl (inside, ground arith, refl, refl, refl)),
  )
]

visit-IsDelivered :
    (m : Message) (c : Client) → IsFine c → Gives (IsDelivered m c) (in_room (send_or_drop m) c)
visit-IsDelivered m c fine = elim (Bool-cases c.is_in_room) [
  | inl inside ↦
      subst (λ b. Gives (IsDelivered m c) (if b then send_or_drop m c else some c)) (sym inside)
        (drop-IsDelivered m c (watching c fine inside).0 inside)
  | inr outside ↦
      subst (λ b. Gives (IsDelivered m c) (if b then send_or_drop m c else some c)) (sym outside)
        (c, refl, inr (inr (outside, refl)))
]

pub deliver-Each :
    (m : Message) (cs : List Client)
    → All IsFine cs
    → Gives (Each (IsDelivered m) cs) (deliver m cs)
unfolding deliver
deliver-Each m cs fine =
    each-Each (IsDelivered m) (in_room (send_or_drop m)) cs (visit-IsDelivered m) fine

pub Each-client_at :
    (R : Client → Client → Type 0) (i : ℕ) (cs ds : List Client) (c : Client)
    → Each R cs ds
    → client_at i cs ≡ some c
    → (d : Client) × (client_at i ds ≡ some d) × R c d
Each-client_at R zero (x ∷ cs) (y ∷ ds) c (h, hs) e =
    (y, refl, subst (λ z. R z y) (some-injective x c e) h)
Each-client_at R (suc i) (x ∷ cs) (y ∷ ds) c (h, hs) e = Each-client_at R i cs ds c hs e
Each-client_at R i [] ds c h e = absurd (none-ne-some c e)
Each-client_at R i (x ∷ cs) [] c h e = elim h [ ]

-- Whatever has happened in a room, a broadcast reaches every client in it: each gets the message
-- after the others that wait for it if fewer than 64 wait; otherwise it is put out of the room and its
-- channel is closed. Nothing changes for the clients that are not in the room.
pub broadcast_reaches :
    (es : List Event) (r : Room) (m : Message) (ms : List Message)
    → run es empty_room ≡ some r
    → r.broadcast ≡ m ∷ ms
    → Gives
        (λ (r' : Room). (r'.broadcast ≡ ms) × Each (IsDelivered m) r.clients r'.clients)
        (step broadcasts r)
unfolding step
broadcast_reaches es r m ms h waiting =
    let (ds, e, each) = deliver-Each m r.clients (room-IsSafe es r h) in
    (
      record { clients = ds; broadcast = ms },
      ap (take_broadcast r) waiting ∙ ap (with_clients (record r { broadcast = ms })) e,
      (refl, each),
    )
