-- ===== src/Polls.antt =====
-- backend/internal/services/poll_service.go in a server without MongoDB: polls are made, listed,
-- closed, opened again and deleted. The state is that of `Voting`, which reads the same polls.
pub mod Space
pub mod Binding
pub mod Sanitizing
pub mod Portable
pub mod Posting
pub mod Handler
pub mod Core
pub mod Requests
pub mod Owner
pub mod Unvoted
pub mod Voted
pub mod Boxes
pub mod Refinement
pub mod Closing
pub mod Mongo
pub mod Tests
use poll.Prelude.{
  ℕ, zero, suc, String, ◌++◌, Bool, true, false, not, ◌||◌, List, [], ◌∷◌, map, ◌==◌, ltb,
  if◌then◌else◌, keep_if, length, is_empty, Assoc, put, delete,
}
use poll.Models.{Number, PollOption, Poll}
use poll.Api.Request.{Result, ok, err}
use poll.Voting.{Server, is_member, and_then, calculate_percentages, get_poll}
use Space.{trim_space}
use Binding.{CreatePollRequest}

-- What the libraries give at a call of `CreatePoll`: the identifier of the poll, one for a creator
-- whose own does not parse, and those of the options in turn.
pub record Draw : Type 0 where
  pub poll_id : String
  pub spare_creator : String
  pub option_id : ℕ → String

abbrev pub zero_percent : Number
zero_percent = record { numerator = 0; denominator = 1 }

abbrev pub new_option : String → String → PollOption
new_option id text = record { id = id; text = text; votes = 0; percentage = zero_percent }

abbrev pub add_option : PollOption → Result (List PollOption) → Result (List PollOption)
add_option o (ok os) = ok (o ∷ os)
add_option o (err m) = err m

-- One round of the loop of `CreatePoll`, for a trimmed text, with the number of the options made and
-- the map `seen`; `rest` are the other rounds. `lower` is `strings.ToLower`.
unfoldable pub keep_text :
    (String → String)
    → Draw
    → ℕ
    → List String
    → String
    → (ℕ → List String → Result (List PollOption))
    → Result (List PollOption)
keep_text lower draw n seen trimmed rest = elim (is_empty trimmed) [
  | true ↦ rest n seen
  | false ↦ elim (is_member (lower trimmed) seen) [
    | true ↦ err ("duplicate option: '" ++ (trimmed ++ "'"))
    | false ↦
        add_option (new_option (draw.option_id n) trimmed) (rest (suc n) (lower trimmed ∷ seen))
  ]
]

-- the loop over the texts of the options
unfoldable pub sanitize :
    (String → String) → Draw → ℕ → List String → List String → Result (List PollOption)
unfolding keep_text
sanitize lower draw n seen [] = ok []
sanitize lower draw n seen (text ∷ texts) =
    keep_text lower draw n seen (trim_space text) (λ m known. sanitize lower draw m known texts)

-- the poll that `CreatePoll` makes
abbrev pub new_poll_of : Draw → (creator_id : String) → CreatePollRequest → List PollOption → Poll
new_poll_of draw creator_id req options = record {
  id = draw.poll_id;
  title = trim_space req.title;
  description = trim_space req.description;
  creator_id = creator_id;
  options = options;
  is_active = true;
  total_votes = 0;
}

-- the rest of `CreatePoll`, after its loop
unfoldable pub save_poll :
    Draw
    → (creator_id : String) → CreatePollRequest
    → List PollOption
    → Server
    → Result Poll × Server
save_poll draw creator_id req options s =
    if ltb (length options) 2
    then (err "a poll must have at least 2 distinct non-empty options", s)
    else (
      ok (new_poll_of draw creator_id req options),
      record s {
        mem_polls = put draw.poll_id (new_poll_of draw creator_id req options) s.mem_polls;
      },
    )

module _ (percent : ℕ → ℕ → Number) (is_object_id : String → Bool) where
  -- `ObjectIDFromHex` and `Hex` make the letters of the creator's identifier small, as `ToLower` does.
  unfoldable pub create_poll :
      (String → String)
      → Draw
      → (creator_id : String) → CreatePollRequest
      → Server
      → Result Poll × Server
  unfolding sanitize save_poll
  create_poll lower draw creator_id req s =
      let creator = if is_object_id creator_id then lower creator_id else draw.spare_creator in
      and_then (save_poll draw creator req) (sanitize lower draw 0 [] req.options, s)

  -- the condition of `ListUserPolls`
  abbrev pub is_own : String → Poll → Bool
  is_own user_id p = p.creator_id == user_id || is_empty user_id

  abbrev pub values : Assoc Poll → List Poll
  values [] = []
  values (entry ∷ rest) = entry.1 ∷ values rest

  -- the percentages of some stored polls are computed anew
  abbrev pub recalculate : (Poll → Bool) → Assoc Poll → Assoc Poll
  recalculate test [] = []
  recalculate test (entry ∷ rest) =
      (entry.0, if test entry.1 then calculate_percentages percent entry.1 else entry.1)
      ∷ recalculate test rest

  -- `ListUserPolls`. The order of the polls is that of a Go map, and not defined; the percentages
  -- are written to the stored polls too.
  unfoldable pub list_user_polls : String → Server → List Poll × Server
  list_user_polls user_id s = (
    map (calculate_percentages percent) (keep_if (is_own user_id) (values s.mem_polls)),
    record s { mem_polls = recalculate (is_own user_id) s.mem_polls },
  )

  -- `SetPollStatus` for a poll that was found
  unfoldable pub set_status_of :
      (poll_id creator_id : String) → Bool → Poll → Server → Result Poll × Server
  set_status_of poll_id creator_id is_active p s =
      if not (p.creator_id == creator_id)
      then (err "unauthorized: you do not own this poll", s)
      else let p' = calculate_percentages percent (record p { is_active = is_active }) in
        (ok p', record s { mem_polls = put poll_id p' s.mem_polls })

  unfoldable pub set_poll_status :
      (poll_id creator_id : String) → Bool → Server → Result Poll × Server
  unfolding get_poll set_status_of
  set_poll_status poll_id creator_id is_active s =
      and_then (set_status_of poll_id creator_id is_active)
        (get_poll percent is_object_id poll_id s)

  -- `DeletePoll` for a poll that was found; what `Voting` keeps of the poll stays
  unfoldable pub delete_of :
      (poll_id creator_id : String) → Poll → Server → Result (Unit {0}) × Server
  delete_of poll_id creator_id p s =
      if not (p.creator_id == creator_id)
      then (err "unauthorized: you do not own this poll", s)
      else (ok tt, record s { mem_polls = delete poll_id s.mem_polls })

  unfoldable pub delete_poll : (poll_id creator_id : String) → Server → Result (Unit {0}) × Server
  unfolding get_poll delete_of
  delete_poll poll_id creator_id s =
      and_then (delete_of poll_id creator_id) (get_poll percent is_object_id poll_id s)
