-- ===== src/Results.antt =====
-- frontend/src/pages/ResultsPage.jsx: the bars of the live results, the page's own state, and what it
-- renders from the state of the hook (frontend/src/hooks/usePollLiveResults.js).
pub mod Tests
pub mod Leader
use poll.Prelude.{
  ℕ, ◌+◌, ◌*◌, ◌/◌, ◌%◌, String, ◌++◌, Bool, true, false, not, ◌&&◌, ◌||◌, Option, none, some, List,
  [], ◌∷◌, map, eqb, ltb, leb, if◌then◌else◌, truthy, is_some, show, or_text,
}
use poll.Models.{Number, PollOption, LivePollResult, User}
use poll.Live.{Hook, Status, connecting, connected}
use poll.Api.Request.{Call, set_poll_status, Result, ok, err}

-- `Math.max(...xs)`; `none` is -Infinity, the maximum of nothing.
unfoldable pub max_of : List ℕ → Option ℕ
max_of [] = none
max_of (x ∷ xs) = elim (max_of xs) [ none ↦ some x | some m ↦ some (if leb m x then x else m) ]

abbrev pub votes_of : LivePollResult → List ℕ
votes_of d = map (λ (o : PollOption). o.votes) d.options

-- `maxVotes`
unfoldable pub max_votes : Option LivePollResult → Option ℕ
max_votes none = some 0
max_votes (some d) = if ltb 0 d.total_votes then max_of (votes_of d) else some 0

-- `maxVotes > 0 && option.votes === maxVotes`
unfoldable pub is_leader : Option ℕ → PollOption → Bool
is_leader none o = false
is_leader (some m) o = ltb 0 m && eqb o.votes m

-- `x.toFixed(1)`: the nearest number of tenths, the larger of two.
unfoldable pub to_fixed1 : Number → String
to_fixed1 x =
    let tenths = (20 * x.numerator + x.denominator) / (2 * x.denominator) in
    show (tenths / 10) ++ ("." ++ show (tenths % 10))

pub record Bar : Type 0 where
  pub id : String
  pub text : String
  pub leader : Bool
  pub votes : ℕ
  pub votes_word : String
  pub percent : String

unfoldable pub bar : Option ℕ → PollOption → Bar
bar m o = record {
  id = o.id;
  text = o.text;
  leader = is_leader m o;
  votes = o.votes;
  votes_word = if eqb o.votes 1 then "vote" else "votes";
  percent = to_fixed1 o.percentage ++ "%";
}

unfoldable pub bars : Option LivePollResult → List Bar
unfolding bar max_votes is_leader max_of to_fixed1
bars none = []
bars (some d) = map (bar (max_votes (some d))) d.options

-- the state of the page itself
pub record Page : Type 0 where
  pub share_open : Bool
  pub status_updating : Bool

-- `handleToggleStatus` up to its wait
unfoldable pub handle_toggle_status :
    (poll_id : String) → Option LivePollResult → Page → Page × Option Call
handle_toggle_status poll_id none p = (p, none)
handle_toggle_status poll_id (some d) p =
    (record p { status_updating = true }, some (set_poll_status poll_id (not d.is_active)))

-- The rest of `handleToggleStatus`: the page, the text of an alert, and whether `refresh` is called.
unfoldable pub toggle_settled : {A : Type 0} → Result A → Page → Page × Option String × Bool
toggle_settled (ok _) p = (record p { status_updating = false }, none, true)
toggle_settled (err m) p =
    (record p { status_updating = false }, some ("Could not update status: " ++ m), false)

pub record Board : Type 0 where
  pub back_view : String
  pub back_label : String
  pub toggle : Option (String × Bool)
  pub badge : String
  pub total_votes : ℕ
  pub total_word : String
  pub viewers : ℕ
  pub viewers_word : String
  pub connection : String
  pub title : Option String
  pub rows : List Bar
  pub share : Option String

pub data Screen : Type 0 where
  connecting_notice : Screen
  not_found : (message : String) → Screen
  board : Board → Screen

-- `liveData?.isActive`, `liveData?.totalVotes || 0`, `liveData?.title`
abbrev pub active_of : Option LivePollResult → Bool
active_of none = false
active_of (some d) = d.is_active

abbrev pub total_of : Option LivePollResult → ℕ
total_of none = 0
total_of (some d) = d.total_votes

abbrev pub title_of : Option LivePollResult → Option String
title_of none = none
title_of (some d) = some d.title

abbrev pub is_connecting : Status → Bool
is_connecting Status.connecting = true
is_connecting _ = false

abbrev pub is_connected : Status → Bool
is_connected Status.connected = true
is_connected _ = false

-- an error as a condition: `null` and the empty text are false
abbrev pub error_shown : Option String → Bool
error_shown none = false
error_shown (some e) = truthy e

unfoldable pub board_of : Hook → Option User → Page → Board
unfolding bars
board_of h user p =
    let d = h.live_data in
    let signed_in = is_some user in
    record {
      back_view = if signed_in then "dashboard" else "home";
      back_label = if signed_in then "My Polls" else "Home";
      toggle =
          if signed_in
          then some (if active_of d then "Close Poll" else "Reopen Poll", p.status_updating)
          else none;
      badge = if active_of d then "Live Voting" else "Voting Ended";
      total_votes = total_of d;
      total_word = if eqb (total_of d) 1 then "Total Vote" else "Total Votes";
      viewers = h.viewers;
      viewers_word = if eqb h.viewers 1 then "viewer" else "viewers";
      connection =
          if is_connected h.connection_status then "Realtime Connected" else "Reconnecting...";
      title = title_of d;
      rows = bars d;
      share = if p.share_open then title_of d else none;
    }

abbrev text_of : Option String → String
text_of none = ""
text_of (some e) = e

unfoldable pub render : Hook → Option User → Page → Screen
unfolding board_of
render h user p =
    if not (is_some h.live_data) && is_connecting h.connection_status
    then connecting_notice
    else if error_shown h.error && not (is_some h.live_data)
    then not_found (text_of h.error)
    else board (board_of h user p)
