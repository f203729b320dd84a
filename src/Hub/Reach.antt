-- ===== src/Hub/Reach.antt =====
-- From the services to the page: a change of status (backend/internal/handlers/poll_handler.go) and a vote
-- (backend/internal/services/vote_service.go) reach the viewers over the room of the poll
-- (backend/internal/websocket/hub.go).
use mathlib.Core.Path.{subst}
use poll.Prelude.{
  ℕ, String, ◌≡◌, refl, ap, sym, ◌∙◌, Bool, true, Option, none, some, List, [], value_at,
}
use poll.Models.{Number, Poll, LivePollResult}
use poll.Api.Request.{Payload, ok}
use poll.Voting.{Server, Channel}
use poll.Voting.Casting.{casting}
use poll.Voting.Subscribers.{receive_local, channel_at, vote-received}
use poll.Live.{Hook, Socket, Message, vote_update, apply_message, socket_run}
use poll.Polls.Closing.{setting}
use poll.Hub.{
  Client, Room, client_at, post, status_message, run, empty_room, Event, broadcasts, step,
}
use poll.Hub.Visits.{Gives}
use poll.Hub.Viewers.{shown, IsShown, post_reaches}

-- `BroadcastPollStatus` of the handler, to the room of the poll
abbrev pub announce : Option (String × Bool) → Room → Room
announce none r = r
announce (some (poll_id, b)) r = post (status_message b) r

-- the goroutine of `runRoom` that passes the results of votes on
abbrev pub forward : Option LivePollResult → Room → Room
forward none r = r
forward (some live) r = post (vote_update live) r

Gives-map :
    {A : Type 0} (P Q : A → Type 0) (o : Option A) → ((a : A) → P a → Q a) → Gives P o → Gives Q o
Gives-map P Q o f (a, e, p) = (a, e, f a p)

-- `json` is the text of a message, and `parse` what `JSON.parse` makes of a text.
module _ (json : Message → String) (parse : String → Option Message) (es : List Event) (r : Room)
    (i : ℕ) (c : Client) (s : ℕ) (x : Socket) (h : Hook) where
  -- The client's page shows these results, once it has read its frame.
  abbrev pub HasShown : Option LivePollResult → Room → Type 0
  HasShown live r' =
      (d : Client) × (client_at i r'.clients ≡ some d) × ((shown json parse s d h).live_data ≡ live)

  pub reaches :
      (m : Message) (live : Option LivePollResult)
      → (apply_message m h).live_data ≡ live
      → Gives (IsShown json parse m i s h) (step broadcasts (post m r))
      → Gives (HasShown live) (step broadcasts (post m r))
  reaches m live e given =
      Gives-map (IsShown json parse m i s h) (HasShown live) (step broadcasts (post m r))
        (λ r' (d, at, same). (d, at, ap (λ (k : Hook). k.live_data) same ∙ e)) given

  module _ (percent : ℕ → ℕ → Number) (is_object_id : String → Bool) (id : String)
      (srv : Server) where
    module _ (go_lower : String → String) (bind_error : Option Payload → String) (p : Poll)
        (b : Bool) where
      -- the room after the owner's request and the next broadcast
      abbrev pub told : Option Room
      told =
          step broadcasts
            (announce (setting percent is_object_id go_lower bind_error id p b srv).2 r)

    module _ (option_id fp ip : String) (live : LivePollResult) (chs : List Channel) (j : ℕ)
        (ch : Channel) where
      -- the room after a vote, the receipt of its results and the next broadcast
      abbrev pub counted : Option Room
      counted =
          step broadcasts (
            forward (receive_local id j (casting percent is_object_id id option_id fp ip srv).1).0
              r)

      -- A vote reaches the pages: the results that the voter gets as the answer come over the channel
      -- of the room to each client in it, and its page, once it has read the frame, shows them, if
      -- nothing else waits in the channel, in the room or for the client.
      pub vote_reaches :
          (casting percent is_object_id id option_id fp ip srv).0 ≡ ok live
          → value_at id srv.subscribers ≡ some chs
          → channel_at j chs ≡ some ch
          → ch.queue ≡ []
          → run es empty_room ≡ some r
          → r.broadcast ≡ []
          → client_at i r.clients ≡ some c
          → c.is_in_room ≡ true
          → c.send ≡ []
          → h.is_mounted ≡ true
          → socket_run s h ≡ some x
          → parse (json (vote_update live)) ≡ some (vote_update live)
          → Gives (HasShown (some live)) counted
      vote_reaches answer subscribed here empty safe quiet member inside none_waits on found one =
          subst (λ o. Gives (HasShown (some live)) (step broadcasts (forward o r)))
            (sym (
              vote-received percent is_object_id id option_id fp ip srv live chs j ch subscribed
                here empty answer))
            (reaches (vote_update live) (some live) refl (
              post_reaches json parse (vote_update live) es r i c s x h safe quiet member inside
                none_waits on found one))
