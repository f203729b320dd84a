-- ===== src/Hub/Waiters.antt =====
-- Clients whose handler waits to register (backend/internal/handlers/ws_handler.go), whatever happens
-- to the other clients.
use mathlib.Core.Option.{none-ne-some, some-injective}
use mathlib.Core.List.{◌++◌}
use mathlib.Core.Path.{subst}
use poll.Prelude.{
  ℕ, zero, suc, ◌≡◌, ap, sym, ◌∙◌, false, Option, some, List, [], ◌∷◌, if◌then◌else◌, inl, inr,
  Option-cases,
}
use poll.Models.{LivePollResult}
use poll.Hub.{
  Client, Pump, waits, client_at, pump_of, at, cons_to, cons_both, write, send_init, send_or_skip,
}
use poll.Live.{init}
use poll.Hub.Rooms.{}

-- a client whose handler still waits at `room.Register <- client`
abbrev pub IsWaiting : ℕ → List Client → Type 0
IsWaiting i cs = pump_of (client_at i cs) ≡ waits

pub append-IsWaiting :
    (i : ℕ) (cs : List Client) (c : Client) → IsWaiting i cs → IsWaiting i (cs ++ c ∷ [])
append-IsWaiting i [] c h = cc
append-IsWaiting zero (x ∷ cs) c h = h
append-IsWaiting (suc i) (x ∷ cs) c h = append-IsWaiting i cs c h

-- what happens to a client that waits
abbrev pub KeepsWaiting : (Client → Option Client) → Type 0
KeepsWaiting f = (c d : Client) → f c ≡ some d → c.pump ≡ waits → d.pump ≡ waits

pub at-IsWaiting :
    (f : Client → Option Client) (j i : ℕ) (cs ds : List Client)
    → KeepsWaiting f
    → at f j cs ≡ some ds
    → IsWaiting i cs
    → IsWaiting i ds
unfolding at
at-IsWaiting f j i [] ds k e h = cc
at-IsWaiting f zero i (c ∷ cs) ds k e h = elim (Option-cases (f c)) [
  | inl g ↦ absurd (none-ne-some ds (sym (ap (λ o. cons_both o (some cs)) g) ∙ e))
  | inr (d, g) ↦
      subst (IsWaiting i) (some-injective (d ∷ cs) ds (sym (ap (λ o. cons_both o (some cs)) g) ∙ e))
        (here i d g h)
]
  where
    here : (i : ℕ) (d : Client) → f c ≡ some d → IsWaiting i (c ∷ cs) → IsWaiting i (d ∷ cs)
    here zero d g h = k c d g h
    here (suc i) d g h = h
at-IsWaiting f (suc j) i (c ∷ cs) ds k e h = elim (Option-cases (at f j cs)) [
  | inl g ↦ absurd (none-ne-some ds (sym (ap (cons_to c) g) ∙ e))
  | inr (es, g) ↦
      subst (IsWaiting i) (some-injective (c ∷ es) ds (sym (ap (cons_to c) g) ∙ e))
        (later i es (λ i' w. at-IsWaiting f j i' cs es k g w) h)
]
  where
    later :
        (i : ℕ) (es : List Client)
        → ((i' : ℕ) → IsWaiting i' cs → IsWaiting i' es)
        → IsWaiting i (c ∷ cs)
        → IsWaiting i (c ∷ es)
    later zero es rest h = h
    later (suc i) es rest h = rest i h

pub write-KeepsWaiting : KeepsWaiting write
unfolding write
write-KeepsWaiting c d e h =
    ap (λ (x : Client). x.pump) (sym (some-injective (record c { send = [] }) d e)) ∙ h

pub init-KeepsWaiting : (live : LivePollResult) → KeepsWaiting (send_init live)
unfolding send_init
init-KeepsWaiting live c d e h =
    ap (λ (x : Client). x.pump)
      (some-injective d c (
        sym e
        ∙ ap
            (λ (q : Pump). elim q [
              | waits ↦ some c
              | _ ↦
                  if c.is_init_due
                  then send_or_skip (init live) (record c { is_init_due = false })
                  else some c
            ])
            h))
    ∙ h
