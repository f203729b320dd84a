-- ===== src/Polls/Posting.antt =====
-- The form for a poll (frontend/src/pages/CreatePoll.jsx) beside the service that makes it
-- (`CreatePoll` of backend/internal/services/poll_service.go): what the form sends, the service takes.
use poll.Prelude.{
  ℕ, String, ◌≡◌, ap, ◌∙◌, ◌++◌, Bool, true, false, Option, some, arith, length, ltb, put,
  if◌then◌else◌, refl, inl, inr, Bool-cases,
}
use poll.Models.{Number, Poll}
use poll.Api.Request.{ok, Payload, success, failure, create_poll as api_create_poll}
use poll.Create.{Form, clean_options}
use poll.Create.Submit.{IsAcceptable, call_for}
use poll.Voting.{Server, and_then}
use poll.Polls.{Draw, save_poll, create_poll}
use poll.Polls.Handler.{answer, create_bound, handle_create_poll}
use poll.Polls.Binding.{bind_create_poll}
use poll.Polls.Sanitizing.{fresh_options, length-fresh_options}
use poll.Polls.Portable.{IsPostable, fit, request_of, posted, valid_lem, new_poll_lem, sanitize_lem}

module _ (percent : ℕ → ℕ → Number) (is_object_id : String → Bool)
    (lower go_lower : String → String) (bind_error : Option Payload → String) (draw : Draw)
    (user_id : String) (f : Form) (s : Server) where
  abbrev pub made : Poll
  made = posted lower go_lower draw (go_lower user_id) f

  abbrev pub stored : Server
  stored = record s { mem_polls = put draw.poll_id made s.mem_polls }

  saved :
      IsPostable lower go_lower f
      → IsAcceptable lower f
      → save_poll draw
          (go_lower user_id)
          (request_of f)
          (fresh_options draw 0 (clean_options f.options))
          s
        ≡ (ok made, stored)
  unfolding save_poll
  saved h a =
      let enough : ltb (length (fresh_options draw 0 (clean_options f.options))) 2 ≡ false =
        ground (arith, length-fresh_options draw 0 (clean_options f.options), a.enough) in
      rw enough (
        ap (λ p. (ok p, record s { mem_polls = put draw.poll_id p s.mem_polls }))
          (new_poll_lem lower go_lower draw (go_lower user_id) f h))

  created :
      IsPostable lower go_lower f
      → IsAcceptable lower f
      → is_object_id user_id ≡ true
      → create_poll percent is_object_id go_lower draw user_id (request_of f) s ≡ (ok made, stored)
  unfolding create_poll
  created h a user = rw user (
      ap (λ r. and_then (save_poll draw (go_lower user_id) (request_of f)) (r, s))
        (sanitize_lem lower go_lower draw f h a)
      ∙ saved h a)

  -- The service takes what the form sends, unless an option is too long for it: a form that the page
  -- accepts, with texts that both languages read alike, makes an open poll with the trimmed texts and
  -- no votes, which is stored under its identifier and returned, if each of its options has at most
  -- 200 characters; with a longer option, which the page lets pass, the answer has the status 400, and
  -- nothing is stored.
  pub form_posts :
      IsPostable lower go_lower f
      → IsAcceptable lower f
      → is_object_id user_id ≡ true
      → let body = (call_for lower f).1.body in
        handle_create_poll percent is_object_id go_lower bind_error draw (some user_id) body s ≡ (
          if fit (clean_options f.options)
          then (success made, stored)
          else (failure 400 (some ("Validation failed: " ++ bind_error body)), s))
  unfolding handle_create_poll bind_create_poll api_create_poll create_bound
  form_posts h a user = elim (Bool-cases (fit (clean_options f.options))) [
    | inl fits ↦ rw (valid_lem lower go_lower f h a) (rw fits (ap (answer 400) (created h a user)))
    | inr long ↦ rw (valid_lem lower go_lower f h a) (rw long refl)
  ]
