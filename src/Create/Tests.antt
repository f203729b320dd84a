-- ===== src/Create/Tests.antt =====
-- The theorems on frontend/src/pages/CreatePoll.jsx at an input.
use poll.Prelude.{
  String, ◌≡◌, ◌≤◌, ◌↔◌, refl, ap, true, false, some, [], ◌∷◌, List, All, trim, is_space,
  utf16_length, map, keep_if, truthy, if◌then◌else◌, ◌==◌, arith,
}
use poll.Api.Request.{create_poll}
use poll.Create.{Form, start, clean_options, set_size, handle_submit}
use poll.Create.Options.{Edit, change, add, remove}
use poll.Create.Submit.{IsAcceptable, IsClean, call_for, submit_iff, options_sent, sent_options}

abbrev script : List Edit
script = add ∷ change 2 "Maybe" ∷ remove 0 ∷ remove 0 ∷ add ∷ []

abbrev lower : String → String
lower s = if s == "B" then "b" else s

abbrev good : Form
good = record start { title = " Lunch "; options = " a " ∷ "b" ∷ "" ∷ [] }

abbrev repeated : Form
repeated = record start { title = "Lunch"; options = "b" ∷ "B " ∷ [] }

good-IsAcceptable : IsAcceptable lower good
unfolding clean_options trim is_space utf16_length
good-IsAcceptable = record {
  long_title = omega arith;
  enough = omega arith;
  distinct = ((λ e. let h : true ≡ false = ap (λ s. s == "b") e in cc, tt), (tt, tt));
}

repeated_refused : ¬ IsAcceptable lower repeated
unfolding clean_options trim is_space
repeated_refused h = h.distinct.0.0 refl

submit_iff_example :
    (handle_submit lower good
      ≡ (record good { loading = true; error = "" }, some (call_for lower good)))
    ↔ IsAcceptable lower good
submit_iff_example = submit_iff lower good

good_sends : options_sent (handle_submit lower good).1 ≡ some ("a" ∷ "b" ∷ [])
unfolding handle_submit create_poll clean_options trim is_space utf16_length set_size
good_sends = refl

sent_options_example :
    ("a" ∷ "b" ∷ [] ≡ keep_if truthy (map trim good.options))
    × (2 ≤ 2)
    × (2 ≤ 8)
    × All IsClean ("a" ∷ "b" ∷ [])
sent_options_example =
    sent_options lower good ("a" ∷ "b" ∷ []) (omega arith, omega arith) good_sends
