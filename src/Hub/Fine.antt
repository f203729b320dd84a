-- ===== src/Hub/Fine.antt =====
-- The clients of a room (backend/internal/websocket/hub.go) whatever happens: which channels are
-- closed, how full they are, and where the server panics.
use mathlib.Core.Path.{subst}
use mathlib.Core.List.{◌++◌}
use poll.Prelude.{
  ℕ, ◌≤◌, ◌≡◌, refl, ap, sym, ◌∙◌, Bool, true, false, Option, none, some, List, [], ◌∷◌, ltb,
  if◌then◌else◌, length, length-append, All, arith, Bool-cases, inl, inr,
}
use poll.Live.{Message, viewer_count}
use poll.Hub.{
  Pump, waits, reads, gone, Client, send_or_skip, send_or_drop, in_room, at, viewers,
  broadcast_viewer_count, and_count, client_at, pump_of, is_watching, enter, leave, go_away,
  register, unregister, deliver,
}
use poll.Hub.Visits.{is_phase, IsFine, Gives, each-IsFine, at-IsFine}

pub room_left :
    (m : Message) (c : Client) → ltb (length c.send) 64 ≡ true → length (c.send ++ m ∷ []) ≤ 64
room_left m c h = ground (arith, length-append c.send (m ∷ []))

pub skip-IsFine :
    (m : Message) (c : Client) → c.is_closed ≡ false → IsFine c → Gives IsFine (send_or_skip m c)
unfolding send_or_skip
skip-IsFine m c h fine = elim (Bool-cases (ltb (length c.send) 64)) [
  | inl free ↦
      (record c { send = c.send ++ m ∷ [] }, rw h (rw free refl), (room_left m c free, fine.1))
  | inr full ↦ (c, rw h (rw full refl), fine)
]

-- a client in the room has an open channel and reads
pub watching :
    (c : Client) → IsFine c → c.is_in_room ≡ true → (c.is_closed ≡ false) × (c.pump ≡ reads)
watching c fine h = phase c.pump c.is_in_room c.is_closed fine.1 h
  where
    phase : (p : Pump) (r k : Bool) → is_phase p r k ≡ true → r ≡ true → (k ≡ false) × (p ≡ reads)
    phase waits true k h e = cc
    phase reads true false h e = (refl, refl)
    phase reads true true h e = cc
    phase gone true k h e = cc
    phase p false k h e = cc

pub in_room-IsFine :
    (f : Client → Option Client) (c : Client)
    → (c.is_closed ≡ false → c.is_in_room ≡ true → Gives IsFine (f c))
    → IsFine c
    → Gives IsFine (in_room f c)
in_room-IsFine f c h fine = elim (Bool-cases c.is_in_room) [
  | inl inside ↦
      subst (λ b. Gives IsFine (if b then f c else some c)) (sym inside)
        (h (watching c fine inside).0 inside)
  | inr outside ↦
      subst (λ b. Gives IsFine (if b then f c else some c)) (sym outside) (c, refl, fine)
]

pub count-IsFine :
    (cs : List Client) → All IsFine cs → Gives (All IsFine) (broadcast_viewer_count cs)
unfolding broadcast_viewer_count
count-IsFine cs fine =
    let m = viewer_count (some (viewers cs)) in
    each-IsFine (in_room (send_or_skip m)) cs
      (λ c ok.
        in_room-IsFine (send_or_skip m) c (λ unclosed inside. skip-IsFine m c unclosed ok) ok)
      fine

pub drop-IsFine :
    (m : Message) (c : Client)
    → c.is_closed ≡ false
    → c.is_in_room ≡ true
    → IsFine c
    → Gives IsFine (send_or_drop m c)
unfolding send_or_drop
drop-IsFine m c h inside fine = elim (Bool-cases (ltb (length c.send) 64)) [
  | inl free ↦
      (record c { send = c.send ++ m ∷ [] }, rw h (rw free refl), (room_left m c free, fine.1))
  | inr full ↦ (
    record c { is_closed = true; is_in_room = false },
    rw h (rw full refl),
    (fine.0, ap (λ p. is_phase p false true) (watching c fine inside).1),
  )
]

-- the cases of the loop
and_count-IsFine :
    (o : Option (List Client)) → Gives (All IsFine) o → Gives (All IsFine) (and_count o)
and_count-IsFine o (cs, e, fine) =
    subst (λ x. Gives (All IsFine) (and_count x)) (sym e) (count-IsFine cs fine)

phase_waits : (r k : Bool) → is_phase waits r k ≡ true → (r ≡ false) × (k ≡ false)
phase_waits false false h = (refl, refl)
phase_waits true k h = cc
phase_waits false true h = cc

phase_dropped : (k : Bool) → is_phase reads false k ≡ true → k ≡ true
phase_dropped true h = refl
phase_dropped false h = cc

enter-IsFine : (c : Client) → c.pump ≡ waits → IsFine c → Gives IsFine (enter c)
enter-IsFine c h fine =
    let k =
      (phase_waits c.is_in_room c.is_closed
        (ap (λ p. is_phase p c.is_in_room c.is_closed) (sym h) ∙ fine.1)).1 in
    (record c { is_in_room = true; pump = reads }, refl, (fine.0, ap (is_phase reads true) k))

leave-IsFine : (c : Client) → c.is_in_room ≡ true → IsFine c → Gives IsFine (leave c)
leave-IsFine c h fine = (
  record c { is_in_room = false; is_closed = true; pump = gone },
  ap
      (λ b.
        if b then none else some (record c { is_in_room = false; is_closed = true; pump = gone }))
      (watching c fine h).0,
  (fine.0, refl),
)

go_away-IsFine :
    (c : Client) → c.pump ≡ reads → c.is_in_room ≡ false → IsFine c → Gives IsFine (go_away c)
go_away-IsFine c p r fine =
    let k = phase_dropped c.is_closed (
      ap (λ q. is_phase q false c.is_closed) (sym p)
      ∙ ap (λ b. is_phase c.pump b c.is_closed) (sym r)
      ∙ fine.1) in
    (
      record c { pump = gone },
      refl,
      (fine.0, ap (is_phase gone c.is_in_room) k ∙ ap (λ b. is_phase gone b true) r),
    )

pump_at :
    (i : ℕ) (cs : List Client) (c : Client) (p : Pump)
    → client_at i cs ≡ some c
    → pump_of (client_at i cs) ≡ p
    → c.pump ≡ p
pump_at i cs c p e h = sym (ap pump_of e) ∙ h

pub register-IsFine :
    (i : ℕ) (p : Pump) (cs : List Client)
    → pump_of (client_at i cs) ≡ p
    → All IsFine cs
    → Gives (All IsFine) (register i p cs)
unfolding register
register-IsFine i waits cs h fine =
    and_count-IsFine (at enter i cs)
      (at-IsFine enter i cs (λ c e ok. enter-IsFine c (pump_at i cs c waits e h) ok) fine)
register-IsFine i reads cs h fine = (cs, refl, fine)
register-IsFine i gone cs h fine = (cs, refl, fine)

pub unregister-IsFine :
    (i : ℕ) (p : Pump) (b : Bool) (cs : List Client)
    → pump_of (client_at i cs) ≡ p
    → is_watching (client_at i cs) ≡ b
    → All IsFine cs
    → Gives (All IsFine) (unregister i p b cs)
unfolding unregister
unregister-IsFine i reads true cs h w fine =
    and_count-IsFine (at leave i cs)
      (at-IsFine leave i cs (λ c e ok. leave-IsFine c (sym (ap is_watching e) ∙ w) ok) fine)
unregister-IsFine i reads false cs h w fine =
    at-IsFine go_away i cs
      (λ c e ok. go_away-IsFine c (pump_at i cs c reads e h) (sym (ap is_watching e) ∙ w) ok) fine
unregister-IsFine i waits b cs h w fine = (cs, refl, fine)
unregister-IsFine i gone b cs h w fine = (cs, refl, fine)

pub deliver-IsFine :
    (m : Message) (cs : List Client) → All IsFine cs → Gives (All IsFine) (deliver m cs)
unfolding deliver
deliver-IsFine m cs fine =
    each-IsFine (in_room (send_or_drop m)) cs
      (λ c ok.
        in_room-IsFine (send_or_drop m) c (λ unclosed inside. drop-IsFine m c unclosed inside ok)
          ok)
      fine
