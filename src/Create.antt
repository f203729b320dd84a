-- ===== src/Create.antt =====
-- frontend/src/pages/CreatePoll.jsx: the form for a new poll.
pub mod Tests
pub mod Options
pub mod Submit
pub mod Screen
use poll.Prelude.{
  ℕ, suc, ◌+◌, String, Bool, true, false, not, ◌||◌, Option, none, some, List, [], ◌∷◌, map, eqb,
  ltb, ◌==◌, if◌then◌else◌, keep_if, remove_at, set, length, is_empty, truthy, trim, utf16_length,
}
use mathlib.Core.List.{◌++◌}
use poll.Models.{Poll}
use poll.Api.Request.{Call, create_poll, Result, ok, err}

pub record Form : Type 0 where
  pub title : String
  pub description : String
  pub options : List String
  pub loading : Bool
  pub error : String

abbrev pub start : Form
start = record { title = ""; description = ""; options = "" ∷ "" ∷ []; loading = false; error = "" }

-- `index` comes from the row that was edited
unfoldable pub handle_option_change : ℕ → String → Form → Form
handle_option_change index value f = record f { options = set f.options index value }

unfoldable pub handle_add_option : Form → Form
handle_add_option f =
    if ltb (length f.options) 8 then record f { options = f.options ++ "" ∷ [] } else f

unfoldable pub handle_remove_option : ℕ → Form → Form
handle_remove_option index f =
    if ltb 2 (length f.options) then record f { options = remove_at f.options index } else f

abbrev pub contains : String → List String → Bool
contains a [] = false
contains a (x ∷ xs) = x == a || contains a xs

-- `new Set(xs).size`
unfoldable pub set_size : List String → ℕ
set_size [] = 0
set_size (x ∷ xs) = let rest = set_size xs in if contains x xs then rest else suc rest

-- `options.map((o) => o.trim()).filter(Boolean)`
unfoldable pub clean_options : List String → List String
clean_options options = keep_if truthy (map trim options)

abbrev pub with_error : String → Form → Form
with_error message f = record f { error = message }

-- `handleSubmit` up to its wait: the form, and the call that is made. `lower` is `toLowerCase`.
unfoldable pub handle_submit : (String → String) → Form → Form × Option Call
handle_submit lower f =
    let title = trim f.title in
    let options = clean_options f.options in
    if ltb (utf16_length title) 3
    then (with_error "Poll title must be at least 3 characters." f, none)
    else if ltb (length options) 2
    then (with_error "Please provide at least 2 distinct non-empty options." f, none)
    else if not (eqb (set_size (map lower options)) (length options))
    then (with_error "All options must be unique." f, none)
    else (
      record f { loading = true; error = "" },
      some (create_poll title (trim f.description) options),
    )

-- the rest of `handleSubmit`: the form, and where the page goes
unfoldable pub created : Result Poll → Form → Form × Option (String × String)
created (ok poll) f = (record f { loading = false }, some ("results", poll.id))
created (err m) f = (
  record f {
    error = if truthy m then m else "Failed to create poll. Please try again.";
    loading = false;
  },
  none,
)

-- The buttons of the page: which rows can be removed, whether one can be added, and the last one.
pub record Buttons : Type 0 where
  pub can_remove : Bool
  pub can_add : Bool
  pub submit_disabled : Bool
  pub submit_label : String

unfoldable pub buttons : Form → Buttons
buttons f = record {
  can_remove = ltb 2 (length f.options);
  can_add = ltb (length f.options) 8;
  submit_disabled = f.loading || is_empty (trim f.title);
  submit_label = if f.loading then "Creating Poll..." else "Publish & Start Live Poll";
}
