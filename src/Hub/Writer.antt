-- ===== src/Hub/Writer.antt =====
-- The loop of `WritePump` (backend/internal/websocket/client.go), and that it ends once the room has
-- closed the channel of its client.
use poll.Prelude.{
  ℕ, suc, ◌≤◌, ◌≡◌, refl, ap, sym, ◌∙◌, Bool, true, false, ◌&&◌, List, [], ◌∷◌, arith,
  if◌then◌else◌, ◌⊎◌, inl, inr,
}
use mathlib.Core.Path.{subst}
use poll.Live.{Message}
use poll.Hub.{Client}

-- what goes over the connection
pub data Frame : Type 0 where
  text_frame : List Message → Frame
  close_frame ping_frame : Frame

-- the client, what has gone over its connection, the last first, and whether the loop has returned
pub record Writer : Type 0 where
  pub client : Client
  pub frames : List Frame
  pub is_done : Bool

-- A turn of the loop: the case of `select` that runs, and which of its calls succeed.
pub data Turn : Type 0 where
  receives : (opened closed : Bool) → Turn
  ticks : (sent : Bool) → Turn

-- `c.Send` is closed, and nothing waits in it, or nothing may be received yet
unfoldable pub receive_none : Writer → Writer
receive_none w =
    if w.client.is_closed then record w { frames = close_frame ∷ w.frames; is_done = true } else w

-- A message is received, and all that wait after it are written with it.
unfoldable pub receive_some : (opened closed : Bool) → Message → List Message → Writer → Writer
receive_some false closed m ms w = record w {
  client = record w.client { send = ms };
  is_done = true;
}
receive_some true false m ms w = record w { client = record w.client { send = [] }; is_done = true }
receive_some true true m ms w = record w {
  client = record w.client { send = [] };
  frames = text_frame (m ∷ ms) ∷ w.frames;
}

abbrev pub receive : (opened closed : Bool) → List Message → Writer → Writer
receive opened closed [] w = receive_none w
receive opened closed (m ∷ ms) w = receive_some opened closed m ms w

unfoldable pub tick : (sent : Bool) → Writer → Writer
tick true w = record w { frames = ping_frame ∷ w.frames }
tick false w = record w { is_done = true }

abbrev pub take_turn : Turn → Writer → Writer
take_turn (receives opened closed) w = receive opened closed w.client.send w
take_turn (ticks sent) w = tick sent w

unfoldable pub turn : Turn → Writer → Writer
unfolding receive_none receive_some tick
turn t w = if w.is_done then w else take_turn t w

unfoldable pub turns : List Turn → Writer → Writer
unfolding turn
turns [] w = w
turns (t ∷ ts) w = turns ts (turn t w)

-- how often the loop receives
abbrev pub received : List Turn → ℕ
received [] = 0
received (receives o c ∷ ts) = suc (received ts)
received (ticks s ∷ ts) = received ts

abbrev pub succeeds : Turn → Bool
succeeds (receives opened closed) = opened && closed
succeeds (ticks sent) = sent

abbrev pub all_succeed : List Turn → Bool
all_succeed [] = true
all_succeed (t ∷ ts) = succeeds t && all_succeed ts

-- the frames that are no pings
abbrev pub data_frames : List Frame → List Frame
data_frames [] = []
data_frames (ping_frame ∷ fs) = data_frames fs
data_frames (text_frame ms ∷ fs) = text_frame ms ∷ data_frames fs
data_frames (close_frame ∷ fs) = close_frame ∷ data_frames fs

-- what is to be written for the messages that wait
abbrev pub waiting_frames : List Message → List Frame → List Frame
waiting_frames [] fs = fs
waiting_frames (m ∷ ms) fs = text_frame (m ∷ ms) ∷ fs

-- how many receptions are left until the end
abbrev left : List Message → ℕ
left [] = 1
left (m ∷ ms) = 2

turn_done : (t : Turn) (w : Writer) → w.is_done ≡ true → turn t w ≡ w
unfolding turn
turn_done t w d = ap (λ b. if b then w else take_turn t w) d

turn_going : (t : Turn) (w : Writer) → w.is_done ≡ false → turn t w ≡ take_turn t w
unfolding turn
turn_going t w d = ap (λ b. if b then w else take_turn t w) d

done_stays : (ts : List Turn) (w : Writer) → w.is_done ≡ true → turns ts w ≡ w
unfolding turns
done_stays [] w d = refl
done_stays (t ∷ ts) w d = ap (turns ts) (turn_done t w d) ∙ done_stays ts w d

-- The loop has ended and, if no call failed, has written what waited and then the end.
abbrev pub HasEnded : List Turn → List Message → Writer → Writer → Type 0
HasEnded ts q w v =
    (v.is_done ≡ true)
    × ((all_succeed ts ≡ false)
        ⊎ (data_frames v.frames ≡ close_frame ∷ waiting_frames q (data_frames w.frames)))

-- a writer that is done before the turns
stopped :
    (t : Turn) (ts : List Turn) (q : List Message) (w v : Writer)
    → v.is_done ≡ true
    → (all_succeed (t ∷ ts) ≡ false)
      ⊎ (data_frames v.frames ≡ close_frame ∷ waiting_frames q (data_frames w.frames))
    → HasEnded (t ∷ ts) q w (turns ts v)
stopped t ts q w v d h = subst (HasEnded (t ∷ ts) q w) (sym (done_stays ts v d)) (d, h)

-- what a turn that succeeds leaves for the others
continued :
    (t : Turn) (ts : List Turn) (q r : List Message) (w v z : Writer)
    → succeeds t ≡ true
    → waiting_frames r (data_frames v.frames) ≡ waiting_frames q (data_frames w.frames)
    → HasEnded ts r v z
    → HasEnded (t ∷ ts) q w z
continued t ts q r w v z good same (d, inl bad) = (d, inl (ground arith))
continued t ts q r w v z good same (d, inr h) = (d, inr (h ∙ ap (λ fs. close_frame ∷ fs) same))

turn_queue :
    (o k : Bool) (q : List Message) (w : Writer)
    → w.client.send ≡ q
    → w.is_done ≡ false
    → turn (receives o k) w ≡ receive o k q w
turn_queue o k q w e g = turn_going (receives o k) w g ∙ ap (λ r. receive o k r w) e

ended_after :
    (t : Turn) (ts : List Turn) (q : List Message) (w v : Writer)
    → turn t w ≡ v
    → HasEnded (t ∷ ts) q w (turns ts v)
    → HasEnded (t ∷ ts) q w (turns (t ∷ ts) w)
unfolding turns
ended_after t ts q w v e h = subst (λ x. HasEnded (t ∷ ts) q w (turns ts x)) (sym e) h

receive_closed :
    (w : Writer)
    → w.client.is_closed ≡ true
    → receive_none w ≡ record w { frames = close_frame ∷ w.frames; is_done = true }
unfolding receive_none
receive_closed w c =
    ap (λ b. if b then record w { frames = close_frame ∷ w.frames; is_done = true } else w) c

left_le : (q : List Message) → left q ≤ 2
left_le [] = omega arith
left_le (m ∷ ms) = omega arith

ends :
    (ts : List Turn) (q : List Message) (w : Writer)
    → w.client.send ≡ q
    → w.client.is_closed ≡ true
    → w.is_done ≡ false
    → left q ≤ received ts
    → HasEnded ts q w (turns ts w)
unfolding receive_some tick
ends [] [] w e c g l = absurd (omega (arith, l))
ends [] (m ∷ ms) w e c g l = absurd (omega (arith, l))
ends (ticks true ∷ ts) q w e c g l =
    ended_after (ticks true) ts q w (tick true w) (turn_going (ticks true) w g) (
      continued (ticks true) ts q q w (tick true w) (turns ts (tick true w)) refl refl
        (ends ts q (tick true w) e c g l))
ends (ticks false ∷ ts) q w e c g l =
    ended_after (ticks false) ts q w (tick false w) (turn_going (ticks false) w g)
      (stopped (ticks false) ts q w (tick false w) refl (inl refl))
ends (receives o k ∷ ts) [] w e c g l =
    ended_after (receives o k) ts [] w _ (turn_queue o k [] w e g ∙ receive_closed w c)
      (stopped (receives o k) ts [] w _ refl (inr refl))
ends (receives false k ∷ ts) (m ∷ ms) w e c g l =
    ended_after (receives false k) ts (m ∷ ms) w _ (turn_queue false k (m ∷ ms) w e g)
      (stopped (receives false k) ts (m ∷ ms) w _ refl (inl refl))
ends (receives true false ∷ ts) (m ∷ ms) w e c g l =
    ended_after (receives true false) ts (m ∷ ms) w _ (turn_queue true false (m ∷ ms) w e g)
      (stopped (receives true false) ts (m ∷ ms) w _ refl (inl refl))
ends (receives true true ∷ ts) (m ∷ ms) w e c g l =
    let v = receive_some true true m ms w in
    ended_after (receives true true) ts (m ∷ ms) w v (turn_queue true true (m ∷ ms) w e g) (
      continued (receives true true) ts (m ∷ ms) [] w v (turns ts v) refl refl
        (ends ts [] v refl c g (omega (arith, l))))

-- Once the room has closed the channel of a client, its `WritePump` returns after it has received
-- twice, however often it pings in between; and unless a write fails, it has then written one frame
-- with the messages that waited, if any did, and after it the close message.
pub pump_ends :
    (ts : List Turn) (w : Writer)
    → w.client.is_closed ≡ true
    → w.is_done ≡ false
    → 2 ≤ received ts
    → ((turns ts w).is_done ≡ true)
      × ((all_succeed ts ≡ false)
          ⊎ (data_frames (turns ts w).frames
              ≡ close_frame ∷ waiting_frames w.client.send (data_frames w.frames)))
pump_ends ts w c g l = ends ts w.client.send w refl c g (omega (arith, l, left_le w.client.send))
