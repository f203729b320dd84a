-- ===== src/Vote/Rendering.antt =====
-- The page never renders a poll that it does not have (frontend/src/pages/VotePage.jsx).
use mathlib.Core.Path.{subst}
use poll.Prelude.{
  sym, ap, String, ◌≡◌, refl, ◌⊎◌, inl, inr, true, false, Option, none, some, List, [], ◌∷◌,
  Option-cases, arith, is_some, truthy, or_text-truthy, All,
}
use poll.Models.{Poll}
use poll.Api.Storage.{Storage, get_item}
use poll.Api.Request.{Result, ok, err}
use poll.Vote.State.{
  Page, Ballot, start, enter, recall_vote, loaded, select_option, handle_vote_submit, vote_settled,
  is_given, vote_key,
}
use poll.Vote.Screen.{Screen, loading_poll, render}

-- What may happen: the effect runs, `loadPoll` goes on, the user picks an option or submits the
-- form, `castVote` comes back for a ballot.
pub data Event : Type 0 where
  entered : Option String → Event
  poll_settled : Result Poll → Event
  picked : String → Event
  submitted : Option String → Event
  vote_came_back : Result (Unit {0}) → Ballot → Event

-- Only a page with a poll has the form to submit.
abbrev submit_with : Option Poll → Option String → Page → Page
submit_with none id p = p
submit_with (some poll) id p = (handle_vote_submit id poll p).0

unfoldable pub step : Event → Page × Storage → Page × Storage
step (entered id) (p, store) = (enter id store p, store)
step (poll_settled r) (p, store) = (loaded r p, store)
step (picked id) (p, store) = (select_option id p, store)
step (submitted id) (p, store) = (submit_with p.poll id p, store)
step (vote_came_back r b) (p, store) = vote_settled r b (p, store)

unfoldable pub run : List Event → Page × Storage → Page × Storage
unfolding step
run [] s = s
run (e ∷ es) s = run es (step e s)

-- The page is loading, or has a poll, or has an error to show.
abbrev IsShowable : Page → Type 0
IsShowable p = (p.loading ≡ true) ⊎ (is_some p.poll ≡ true) ⊎ (truthy p.error ≡ true)

recall_vote_keeps :
    (o : Option String) (p : Page)
    → ((recall_vote o p).loading ≡ p.loading)
      × ((recall_vote o p).poll ≡ p.poll)
      × ((recall_vote o p).error ≡ p.error)
unfolding recall_vote
recall_vote_keeps none p = (refl, refl, refl)
recall_vote_keeps (some t) p = ground arith

enter-IsShowable :
    (id : Option String) (store : Storage) (p : Page) → IsShowable p → IsShowable (enter id store p)
unfolding enter
enter-IsShowable id store p h = ground (arith, recall_vote_keeps (get_item (vote_key id) store) p)

step-IsShowable : (e : Event) (s : Page × Storage) → IsShowable s.0 → IsShowable (step e s).0
unfolding step loaded select_option handle_vote_submit vote_settled
step-IsShowable (entered id) (p, store) h = enter-IsShowable id store p h
step-IsShowable (poll_settled (ok poll)) (p, store) h = inr (inl refl)
step-IsShowable (poll_settled (err m)) (p, store) h =
    inr (inr (or_text-truthy m "Unable to load poll." refl))
step-IsShowable (picked id) (p, store) h = h
step-IsShowable (submitted id) (p, store) h = ground arith
step-IsShowable (vote_came_back (ok u) b) (p, store) h = h
step-IsShowable (vote_came_back (err m) b) (p, store) h =
    inr (inr (or_text-truthy m "Failed to submit vote." refl))

run-IsShowable : (es : List Event) (s : Page × Storage) → IsShowable s.0 → IsShowable (run es s).0
unfolding run
run-IsShowable [] s h = h
run-IsShowable (e ∷ es) s h = run-IsShowable es (step e s) (step-IsShowable e s h)

render_showable : (p : Page) → IsShowable p → (s : Screen) × (render p ≡ some s)
unfolding render
render_showable p h = elim (Option-cases (render p)) [
  | inl crash ↦ absurd (ground arith)
  | inr shown ↦ shown
]

-- Whatever happens, in whatever order the answers come, there is something to render.
pub always_renders :
    (es : List Event) (store : Storage) → (s : Screen) × (render (run es (start, store)).0 ≡ some s)
always_renders es store = render_showable _ (run-IsShowable es (start, store) (inl refl))

-- Nothing but what can happen on a page without a poll: `loadPoll` is never called.
abbrev pub IsWithoutPoll : Event → Type 0
IsWithoutPoll (entered id) = is_given id ≡ false
IsWithoutPoll (poll_settled r) = ⊥
IsWithoutPoll (vote_came_back r b) = ⊥
IsWithoutPoll _ = Unit

recall_vote_waits :
    (o : Option String) (p : Page)
    → p.loading ≡ true
    → p.poll ≡ none
    → ((recall_vote o p).loading ≡ true) × ((recall_vote o p).poll ≡ none)
unfolding recall_vote
recall_vote_waits none p l n = (l, n)
recall_vote_waits (some t) p l n = ground arith

waits :
    (es : List Event) (s : Page × Storage)
    → All IsWithoutPoll es
    → s.0.loading ≡ true
    → s.0.poll ≡ none
    → (run es s).0.loading ≡ true
unfolding run enter select_option
waits [] s h l n = l
waits (entered id ∷ es) (p, store) (h, hs) l n =
    let (l', n') = recall_vote_waits (get_item (vote_key id) store) p l n in
    waits es (enter id store p, store) hs (rw h l') (rw h n')
waits (poll_settled r ∷ es) s (h, hs) l n = absurd h
waits (picked id ∷ es) (p, store) (h, hs) l n = waits es (select_option id p, store) hs l n
waits (submitted id ∷ es) (p, store) (h, hs) l n =
    subst (λ s. (run es s).0.loading ≡ true) (sym (ap (λ o. (submit_with o id p, store)) n))
      (waits es (p, store) hs l n)
waits (vote_came_back r b ∷ es) s (h, hs) l n = absurd h

-- A page that was opened without the id of a poll says for ever that it is loading.
pub missing_id_loads :
    (es : List Event) (store : Storage)
    → All IsWithoutPoll es
    → render (run es (start, store)).0 ≡ some loading_poll
unfolding render
missing_id_loads es store h = rw (waits es (start, store) h refl refl)
