-- ===== src/Create/Options.antt =====
-- The rows of the form (frontend/src/pages/CreatePoll.jsx) stay within what the page promises.
use poll.Prelude.{
  ℕ, ◌≤◌, String, List, [], ◌∷◌, arith, length, length-set, length-append, length-remove_at_le,
  length-remove_at-le,
}
use poll.Create.{Form, handle_option_change, handle_add_option, handle_remove_option}

-- what the user does to the rows
pub data Edit : Type 0 where
  change : ℕ → String → Edit
  add : Edit
  remove : ℕ → Edit

unfoldable pub edit : Edit → Form → Form
edit (change i v) f = handle_option_change i v f
edit add f = handle_add_option f
edit (remove i) f = handle_remove_option i f

pub edits : List Edit → Form → Form
edits [] f = f
edits (e ∷ es) f = edits es (edit e f)

abbrev pub HasRows : Form → Type 0
HasRows f = (2 ≤ length f.options) × (length f.options ≤ 8)

edit-HasRows : (e : Edit) (f : Form) → HasRows f → HasRows (edit e f)
unfolding edit handle_option_change handle_add_option handle_remove_option
edit-HasRows (change i v) f h = ground (arith, length-set f.options i v)
edit-HasRows add f h = ground (arith, length-append f.options ("" ∷ []))
edit-HasRows (remove i) f h =
    ground (arith, length-remove_at_le f.options i, length-remove_at-le f.options i)

-- Whatever the user does to the rows, the form has 2 rows at least and 8 at most.
pub edits-HasRows : (es : List Edit) (f : Form) → HasRows f → HasRows (edits es f)
unfolding edits
edits-HasRows [] f h = h
edits-HasRows (e ∷ es) f h = edits-HasRows es (edit e f) (edit-HasRows e f h)
