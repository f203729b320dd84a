-- ===== src/Voting/Subscribers.antt =====
-- The channels over which backend/internal/services/vote_service.go passes results on to the rooms:
-- `SubscribeLocal` with the function that it returns, and the receipt by backend/internal/websocket/hub.go.
use mathlib.Core.Option.{some-injective, none-ne-some}
use mathlib.Core.List.{◌++◌}
use poll.Prelude.{
  ℕ, String, ◌≡◌, refl, ap, sym, ◌∙◌, Bool, true, false, not, Option, none, some, List, [], ◌∷◌,
  map, eqb, if◌then◌else◌, keep_if, find_first, length, ltb, value_at, put, value_at-put_self,
  arith, inl, inr, Bool-cases, Option-cases,
}
use poll.Models.{Number, Poll, LivePollResult}
use poll.Api.Request.{Result, ok, err}
use poll.Voting.{
  Server, Channel, or_else, send, broadcast_local, start_sync, record_vote, calculate_percentages,
  live_result, voter_key, enqueue,
}
use poll.Voting.Casting.{
  casting, is_taken, is_ok, looked, vote_taken, found_taken, publish_found, recorded_found,
}

abbrev pub channels_of : String → Server → List Channel
channels_of poll_id s = or_else [] (value_at poll_id s.subscribers)

-- `SubscribeLocal`; `id` stands for the new channel
unfoldable pub subscribe_local : (poll_id : String) (id : ℕ) → Server → Server
subscribe_local poll_id id s = record s {
  subscribers =
      put poll_id (channels_of poll_id s ++ record { id = id; queue = [] } ∷ []) s.subscribers;
}

-- `unsubscribe`
unfoldable pub unsubscribe : (poll_id : String) (id : ℕ) → Server → Server
unsubscribe poll_id id s = record s {
  subscribers =
      put poll_id (keep_if (λ ch. not (eqb ch.id id)) (channels_of poll_id s)) s.subscribers;
}

abbrev pub first_of : List LivePollResult → Option LivePollResult
first_of [] = none
first_of (live ∷ queue) = some live

abbrev pub rest_of : List LivePollResult → List LivePollResult
rest_of [] = []
rest_of (live ∷ queue) = queue

-- `res, ok := <-localCh`: the first result that waits in a channel, and the channels after that
abbrev pub take_from : ℕ → List Channel → Option LivePollResult × List Channel
take_from id [] = (none, [])
take_from id (ch ∷ chs) =
    let (r, rest) = take_from id chs in
    if eqb ch.id id
    then (first_of ch.queue, record ch { queue = rest_of ch.queue } ∷ chs)
    else (r, ch ∷ rest)

unfoldable pub receive_local : (poll_id : String) (id : ℕ) → Server → Option LivePollResult × Server
receive_local poll_id id s =
    let (r, chs) = take_from id (channels_of poll_id s) in
    (r, record s { subscribers = put poll_id chs s.subscribers })

abbrev pub channel_at : ℕ → List Channel → Option Channel
channel_at id chs = find_first (λ ch. eqb ch.id id) chs

send-id : (live : LivePollResult) (c : Channel) → (send live c).id ≡ c.id
unfolding send
send-id live c = elim (Bool-cases (ltb (length c.queue) 10)) [
  | inl free ↦ rw free refl
  | inr full ↦ rw full refl
]

send_free :
    (live : LivePollResult) (c : Channel)
    → c.queue ≡ []
    → send live c ≡ record c { queue = live ∷ [] }
unfolding send
send_free live c e =
    ap
      (λ q.
        if ltb (length q) 10 then record c { queue = enqueue q live } else record c { queue = q })
      e

take_here :
    (id : ℕ) (live : LivePollResult) (c : Channel) (rest : List Channel)
    → eqb c.id id ≡ true
    → (take_from id (record c { queue = live ∷ [] } ∷ rest)).0 ≡ some live
take_here id live c rest h = rw h refl

take_later :
    (id : ℕ) (c : Channel) (rest : List Channel)
    → eqb c.id id ≡ false
    → (take_from id (c ∷ rest)).0 ≡ (take_from id rest).0
take_later id c rest h = rw h refl

-- A result that is sent to all channels comes out of one that held nothing.
take_from-send :
    (id : ℕ) (live : LivePollResult) (ch : Channel) (chs : List Channel)
    → channel_at id chs ≡ some ch
    → ch.queue ≡ []
    → (take_from id (map (send live) chs)).0 ≡ some live
take_from-send id live ch [] h e = absurd (none-ne-some ch h)
take_from-send id live ch (c ∷ chs) h e = elim (Bool-cases (eqb c.id id)) [
  | inl same ↦
      let found : c ≡ ch = some-injective c ch (sym (rw same refl) ∙ h) in
      ap (λ x. (take_from id (x ∷ map (send live) chs)).0)
        (send_free live c (ap (λ (x : Channel). x.queue) found ∙ e))
      ∙ take_here id live c (map (send live) chs) same
  | inr other ↦
      take_later id (send live c) (map (send live) chs)
        (ap (λ i. eqb i id) (send-id live c) ∙ other)
      ∙ take_from-send id live ch chs (sym (rw other refl) ∙ h) e
]

ok_inj : {A : Type 0} (a b : A) → ◌≡◌ {A = Result A} (ok a) (ok b) → a ≡ b
ok_inj {A} a b e = ap value e
  where
    value : Result A → A
    value (ok x) = x
    value (err m) = a

broadcast_channels :
    (poll_id : String) (live : LivePollResult) (s : Server) (chs : List Channel)
    → value_at poll_id s.subscribers ≡ some chs
    → value_at poll_id (broadcast_local poll_id live s).subscribers ≡ some (map (send live) chs)
unfolding broadcast_local
broadcast_channels poll_id live s chs h =
    rw (h, broadcast_local) (value_at-put_self poll_id (map (send live) chs) s.subscribers)

module _ (percent : ℕ → ℕ → Number) (is_object_id : String → Bool)
    (poll_id option_id fp ip : String) (s : Server) (live : LivePollResult) where
  -- A vote that is taken sends its results, which the answer shows, to the channels of the poll.
  published :
      (chs : List Channel) (p : Poll)
      → value_at poll_id s.subscribers ≡ some chs
      → value_at poll_id s.mem_polls ≡ some p
      → is_taken percent is_object_id poll_id option_id fp ip s ≡ true
      → (casting percent is_object_id poll_id option_id fp ip s).0 ≡ ok live
      → value_at poll_id (casting percent is_object_id poll_id option_id fp ip s).1.subscribers
        ≡ some (map (send live) chs)
  unfolding record_vote start_sync
  published chs p h found t answer =
      let q = calculate_percentages percent p in
      let s1 =
        record_vote poll_id option_id (voter_key fp ip) q
          (looked percent is_object_id poll_id p s) in
      let s2 = looked percent is_object_id poll_id q s1 in
      let sent = live_result percent poll_id (calculate_percentages percent q) s2 in
      let whole =
        found_taken percent is_object_id poll_id option_id fp ip s p found t
        ∙ publish_found percent is_object_id poll_id q s1
            (recorded_found percent is_object_id poll_id option_id fp ip s p) in
      let same : sent ≡ live =
        ok_inj sent live (sym (ap (λ (r : Result LivePollResult × Server). r.0) whole) ∙ answer) in
      ap (λ (r : Result LivePollResult × Server). value_at poll_id r.1.subscribers) whole
      ∙ broadcast_channels poll_id sent s2 chs h
      ∙ ap (λ l. some (map (send l) chs)) same

  -- A room that waits at its channel, with nothing in it, gets the results of a vote that is taken.
  pub vote-received :
      (chs : List Channel) (id : ℕ) (ch : Channel)
      → value_at poll_id s.subscribers ≡ some chs
      → channel_at id chs ≡ some ch
      → ch.queue ≡ []
      → (casting percent is_object_id poll_id option_id fp ip s).0 ≡ ok live
      → (receive_local poll_id id (casting percent is_object_id poll_id option_id fp ip s).1).0
        ≡ some live
  unfolding receive_local
  vote-received chs id ch h here empty answer =
      let t : is_taken percent is_object_id poll_id option_id fp ip s ≡ true =
        sym (vote_taken percent is_object_id poll_id option_id fp ip s).0 ∙ ap is_ok answer in
      elim (Option-cases (value_at poll_id s.mem_polls)) [
        | inl e ↦ absurd (ground arith)
        | inr (p, e) ↦
            ap (λ o. (take_from id (or_else [] o)).0) (published chs p h e t answer)
            ∙ take_from-send id live ch chs here empty
      ]
