-- ===== src/Vote/Memory.antt =====
-- How the page remembers a vote in the browser (frontend/src/pages/VotePage.jsx).
use text.Mathlib.TextLemmas.{append_cancel_left}
use poll.Prelude.{
  String, ◌≡◌, ◌≢◌, refl, sym, true, false, none, some, arith, or_text-truthy, truthy, eq_iff,
}
use poll.Models.{Poll}
use poll.Api.Storage.{Storage, get_item}
use poll.Api.Storage.Laws.{get_item-set_item}
use poll.Api.Request.{ok, err}
use poll.Vote.State.{
  Page, Ballot, start, enter, recall_vote, loaded, vote_key, vote_settled, chosen_text,
}
use poll.Vote.Screen.{body_of, thanks}

-- a visit: the page is opened for a poll, which is then loaded
abbrev pub visit : String → Poll → Storage → Page → Page
visit id poll store p = loaded (ok poll) (enter (some id) store p)

-- After a vote that the backend accepted, a new visit of the poll from the same browser thanks for
-- the chosen option instead of offering the form.
pub voted_then_visit :
    (id : String) (b : Ballot) (poll : Poll) (p : Page) (store : Storage)
    → b.poll_id ≡ some id
    → truthy (chosen_text b) ≡ true
    → poll.is_active ≡ true
    → body_of (visit id poll (vote_settled (ok tt) b (p, store)).1 start) poll
      ≡ thanks (chosen_text b)
unfolding body_of loaded enter recall_vote vote_settled
voted_then_visit id b poll p store same full active =
    let k = vote_key (some id) in
    rw same (ground (arith, get_item-set_item k k (chosen_text b) store, eq_iff k k))

-- The vote leaves what the browser knows of other polls as it was.
pub vote_frame :
    (id other : String) (b : Ballot) (p : Page) (store : Storage)
    → b.poll_id ≡ some id
    → other ≢ id
    → get_item (vote_key (some other)) (vote_settled (ok tt) b (p, store)).1
      ≡ get_item (vote_key (some other)) store
unfolding vote_settled vote_key
vote_frame id other b p store same differ =
    let k = vote_key (some id) in
    let j = vote_key (some other) in
    let apart : (k ≡ j → ⊥) = λ e. differ (sym (append_cancel_left "voted_poll_" id other e)) in
    rw same (ground (arith, get_item-set_item k j (chosen_text b) store, eq_iff k j, apart))

-- A vote that fails is not remembered: the storage and the choice stay, an error is shown, and the
-- form can be submitted again.
pub failed_vote :
    (m : String) (b : Ballot) (p : Page) (store : Storage)
    → let (p', store') = vote_settled {A = Unit {0}} (err m) b (p, store) in
      (store' ≡ store)
      × (p'.has_voted ≡ p.has_voted)
      × (p'.selected_option ≡ p.selected_option)
      × (p'.submitting ≡ false)
      × (truthy p'.error ≡ true)
unfolding vote_settled
failed_vote m b p store = (refl, refl, refl, refl, or_text-truthy m "Failed to submit vote." refl)

-- The page goes from one poll to another in place: a vote in the first poll counts as one in the
-- second, of which the browser knows none.
pub vote_sticks :
    (id : String) (poll : Poll) (store : Storage) (p : Page)
    → p.has_voted ≡ true
    → get_item (vote_key (some id)) store ≡ none
    → poll.is_active ≡ true
    → body_of (visit id poll store p) poll ≡ thanks p.voted_option_text
unfolding body_of loaded enter recall_vote
vote_sticks id poll store p voted unknown active = ground arith
