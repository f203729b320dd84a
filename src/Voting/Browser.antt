-- ===== src/Voting/Browser.antt =====
-- A vote from the client to the service and back: `castVote` of frontend/src/services/api.js with the
-- handler and the service of the backend.
use mathlib.Core.Path.{subst}
use poll.Prelude.{
  ℕ, String, ◌≡◌, ap, sym, ◌∙◌, Bool, true, false, Option, some, List, arith, is_empty, truthy, inl,
  inr, Bool-cases,
}
use poll.Models.{Number, LivePollResult}
use poll.Api.Storage.{Storage, Chance, get_voter_fingerprint}
use poll.Api.Storage.Laws.{fingerprint_stored, fingerprint_persists}
use poll.Api.Request.{vote, Payload, HttpRequest, Response, Result, finish, cast_vote}
use poll.Api.Request.Laws.{cast_vote_fingerprint}
use poll.Voting.{Server}
use poll.Voting.Casting.{casting, is_ok, counts}
use poll.Polls.Requests.{Event, run}
use poll.Polls.Voted.{votes_once}
use poll.Voting.Handler.{handle_cast_vote, respond_ok, respond_server, handled, unnamed, unchosen}

module _ (percent : ℕ → ℕ → Number) (is_object_id : String → Bool) (go_lower : String → String)
    (bind_error : Option Payload → String) where
  module _ (api_base poll_id first_option other_option ip : String) (c1 d1 c2 d2 : Chance)
      (store : Storage) (s : Server) (es : List Event) where
    -- the first vote, from the browser to the handler
    abbrev pub first_sent : HttpRequest × Storage
    first_sent = cast_vote api_base c1 d1 store poll_id first_option

    abbrev pub first_answer : Response LivePollResult × Server
    first_answer = handle_cast_vote percent is_object_id poll_id ip first_sent.0 s

    -- the second vote, after whatever the server does in between
    abbrev pub second_server : Server
    second_server = run percent is_object_id go_lower bind_error es first_answer.1

    abbrev pub second_answer : Response LivePollResult × Server
    second_answer =
        handle_cast_vote percent is_object_id poll_id ip
          (cast_vote api_base c2 d2 first_sent.1 poll_id other_option).0 second_server

    abbrev fp : String
    fp = (get_voter_fingerprint c1 store).0

    fp_full : truthy fp ≡ true
    fp_full = (fingerprint_stored c1 store).0

    first_body : first_sent.0.body ≡ some (vote first_option fp)
    first_body = (cast_vote_fingerprint api_base c1 d1 store poll_id first_option).0

    second_body :
        (cast_vote api_base c2 d2 first_sent.1 poll_id other_option).0.body
        ≡ some (vote other_option fp)
    second_body =
        (cast_vote_fingerprint api_base c2 d2 first_sent.1 poll_id other_option).0
        ∙ ap (λ m. some (vote other_option (get_voter_fingerprint c2 m).0))
            (cast_vote_fingerprint api_base c1 d1 store poll_id first_option).2
        ∙ ap (λ (r : String × Storage). some (vote other_option r.0))
            (fingerprint_persists c1 c2 store)

    abbrev vote_at : String → Server → Result LivePollResult × Server
    vote_at option_id t = casting percent is_object_id poll_id option_id fp ip t

    second_refused :
        is_empty poll_id ≡ false
        → is_empty first_option ≡ false
        → is_empty other_option ≡ false
        → is_ok (finish first_answer.0) ≡ true
        → (is_ok (finish second_answer.0) ≡ false) × (counts second_answer.1 ≡ counts second_server)
    second_refused named chosen other first =
        let h1 =
          handled percent is_object_id poll_id first_option fp ip first_sent.0 s named chosen
            first_body fp_full in
        let h2 =
          handled percent is_object_id poll_id other_option fp ip _ second_server named other
            second_body fp_full in
        let taken : is_ok (vote_at first_option s).0 ≡ true =
          sym (respond_ok percent is_object_id (vote_at first_option s))
          ∙ sym (ap (λ (r : Response LivePollResult × Server). is_ok (finish r.0)) h1)
          ∙ first in
        let before : first_answer.1 ≡ (vote_at first_option s).1 =
          ap (λ (r : Response LivePollResult × Server). r.1) h1
          ∙ respond_server percent is_object_id (vote_at first_option s) in
        let once =
          subst
            (λ t.
              let t' = run percent is_object_id go_lower bind_error es t in
              (is_ok (vote_at other_option t').0 ≡ false)
              × (counts (vote_at other_option t').1 ≡ counts t'))
            (sym before)
            (votes_once percent is_object_id go_lower bind_error poll_id first_option other_option
              fp ip s es taken) in
        (
          ap (λ (r : Response LivePollResult × Server). is_ok (finish r.0)) h2
              ∙ respond_ok percent is_object_id (vote_at other_option second_server)
              ∙ once.0,
          ap (λ (r : Response LivePollResult × Server). counts r.1) h2
              ∙ ap counts (respond_server percent is_object_id (vote_at other_option second_server))
              ∙ once.1,
        )

    -- In a server without Redis, a browser whose vote in a poll was taken gets an error for a second
    -- vote in it from the same address, for whatever option, and the vote counts for nothing, whatever
    -- came in between: votes, looks at polls and results, the goroutines of votes, and requests that
    -- make polls, list them, close and open them, and delete them.
    pub browser_votes_once :
        is_ok (finish first_answer.0) ≡ true
        → (is_ok (finish second_answer.0) ≡ false) × (counts second_answer.1 ≡ counts second_server)
    browser_votes_once first = elim (Bool-cases (is_empty poll_id)) [
      | inl e ↦ absurd (
          ground
            (arith, (unnamed percent is_object_id poll_id first_option "" ip first_sent.0 s e).0))
      | inr named ↦ elim (Bool-cases (is_empty first_option)) [
        | inl e ↦ absurd (
            ground (
              arith,
              (unchosen percent is_object_id poll_id first_option fp ip first_sent.0 s named e
                  first_body).0,
            ))
        | inr chosen ↦ elim (Bool-cases (is_empty other_option)) [
          | inl e ↦
              let (bad, same) =
                unchosen percent is_object_id poll_id other_option fp ip _ second_server named e
                  second_body in
              (bad, ap counts same)
          | inr other ↦ second_refused named chosen other first
        ]
      ]
    ]
