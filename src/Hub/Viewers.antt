-- ===== src/Hub/Viewers.antt =====
-- From a room of backend/internal/websocket/hub.go to the page: the frames that `WritePump`
-- (client.go) writes, as frontend/src/hooks/usePollLiveResults.js reads them.
use poll.Prelude.{
  ℕ, String, ◌++◌, ◌≡◌, refl, ap, sym, ◌∙◌, true, Option, none, some, List, [], ◌∷◌, length, expand,
  arith, inl, inr,
}
use poll.Live.{
  step as hook_step, Hook, Socket, Message, message_event, on_message, apply_message, socket_run,
}
use poll.Live.Messages.{step_message}
use poll.Hub.{Client, Room, client_at, post, run, empty_room, Event, with_clients, broadcasts, step}
use poll.Hub.Visits.{Gives}
use poll.Hub.Panics.{room-IsSafe}
use poll.Hub.Delivery.{IsDelivered, deliver-Each, Each-client_at}

-- `ms` with `m` at its end
abbrev add_last : List Message → Message → List Message
add_last ms m = mathlib.Core.List.◌++◌ ms (m ∷ [])

post_quiet :
    (m : Message) (r : Room) → r.broadcast ≡ [] → post m r ≡ record r { broadcast = m ∷ [] }
unfolding post
post_quiet m r quiet = ap (λ ms. record r { broadcast = add_last ms m }) quiet

-- `json` is the text of a message, and `parse` what `JSON.parse` makes of a text.
module _ (json : Message → String) (parse : String → Option Message) where
  -- the text of a frame of `WritePump`: a message, and the others, each after a line break
  unfoldable pub queued : List Message → String
  queued [] = ""
  queued (m ∷ ms) = "\n" ++ (json m ++ queued ms)

  unfoldable pub frame : List Message → String
  unfolding queued
  frame [] = ""
  frame (m ∷ ms) = json m ++ queued ms

  -- What the hook does with the frame of the messages that wait for its client.
  abbrev pub shown : ℕ → Client → Hook → Hook
  shown s c h = hook_step (message_event s (parse (frame c.send))) h

  append_empty : (t : String) → t ++ "" ≡ t
  append_empty String.[] = expand "" ""
  append_empty (String.◌∷◌ c t) =
      expand (String.◌∷◌ c t) "" ∙ ap (String.◌∷◌ c) (sym (expand t "") ∙ append_empty t)

  not_read :
      (s : ℕ) (x : Socket) (h : Hook) (o : Option Message)
      → socket_run s h ≡ some x
      → o ≡ none
      → hook_step (message_event s o) h ≡ h
  unfolding on_message hook_step
  not_read s x h o found e =
      ap (λ p. hook_step (message_event s p) h) e ∙ rw (found, hook_step) refl

  read :
      (s : ℕ) (x : Socket) (h : Hook) (c : Client) (m : Message)
      → h.is_mounted ≡ true
      → socket_run s h ≡ some x
      → parse (json m) ≡ some m
      → c.send ≡ m ∷ []
      → shown s c h ≡ apply_message m h
  unfolding frame queued
  read s x h c m on found one e =
      ap (λ ms. hook_step (message_event s (parse (frame ms))) h) e
      ∙ ap (λ t. hook_step (message_event s (parse t)) h) (append_empty (json m))
      ∙ ap (λ o. hook_step (message_event s o) h) one
      ∙ step_message s x m h on found

  -- A message that waits alone for a client is shown. Messages that wait together are lost: the frame
  -- holds them all, one to a line, and is no JSON document, so that the page stays as it is.
  pub queued_lost :
      (s : ℕ) (x : Socket) (h : Hook) (c : Client) (m n : Message) (ms : List Message)
      → h.is_mounted ≡ true
      → socket_run s h ≡ some x
      → parse (json m) ≡ some m
      → ((rest : String) → parse (json m ++ ("\n" ++ (json n ++ rest))) ≡ none)
      → (shown s (record c { send = m ∷ [] }) h ≡ apply_message m h)
        × (shown s (record c { send = m ∷ n ∷ ms }) h ≡ h)
  unfolding frame queued
  queued_lost s x h c m n ms on found one two = (
    read s x h (record c { send = m ∷ [] }) m on found one refl,
    not_read s x h _ found (two (queued ms)),
  )

  -- A client whose page shows a message once it has read its frame.
  abbrev pub IsShown : Message → ℕ → ℕ → Hook → Room → Type 0
  IsShown m i s h r =
      (d : Client) × (client_at i r.clients ≡ some d) × (shown s d h ≡ apply_message m h)

  module _ (m : Message) (es : List Event) (r : Room) (i : ℕ) (c : Client) (s : ℕ) (x : Socket)
      (h : Hook) where
    delivered :
        (d : Client)
        → h.is_mounted ≡ true
        → socket_run s h ≡ some x
        → parse (json m) ≡ some m
        → c.is_in_room ≡ true
        → c.send ≡ []
        → IsDelivered m c d
        → shown s d h ≡ apply_message m h
    delivered d on found one inside none_waits (inl (_, _, e)) =
        read s x h d m on found one
          (ap (λ (a : Client). a.send) e ∙ ap (λ ms. add_last ms m) none_waits)
    delivered d on found one inside none_waits (inr (inl (_, full, _, _, _))) =
        absurd (ground (arith, ap length none_waits))
    delivered d on found one inside none_waits (inr (inr (outside, e))) = absurd (ground arith)

    -- A message that is posted reaches the page of a client in the room, if nothing else waits.
    pub post_reaches :
        run es empty_room ≡ some r
        → r.broadcast ≡ []
        → client_at i r.clients ≡ some c
        → c.is_in_room ≡ true
        → c.send ≡ []
        → h.is_mounted ≡ true
        → socket_run s h ≡ some x
        → parse (json m) ≡ some m
        → Gives (IsShown m i s h) (step broadcasts (post m r))
    unfolding step
    post_reaches safe quiet member inside none_waits on found one =
        let (ds, e, each) = deliver-Each m r.clients (room-IsSafe es r safe) in
        let (d, at, sent) = Each-client_at (IsDelivered m) i r.clients ds c each member in
        (
          record { clients = ds; broadcast = [] },
          ap (step broadcasts) (post_quiet m r quiet)
              ∙ ap (with_clients (record r { broadcast = [] })) e,
          (d, at, delivered d on found one inside none_waits sent),
        )
